-- ===== src/CaptureThread/Tests.antt =====
-- The capture thread of src/capture.cpp on a small handle.
use linux_web_audio_capture.Base.{
  true, false, ◌≡◌, refl, arith, none, some, [], ◌∷◌, ◌++◌, Bytes, bytes, same_bytes,
}
use mathlib.Core.List.{Sublist}
use Prim.Native.Nat.{bit_or}
use linux_web_audio_capture.CondVar.{other, wake, wait_for}
use linux_web_audio_capture.FrameQueue
use linux_web_audio_capture.FrameQueue.{take_frame}
use linux_web_audio_capture.Alarm.{wait, make_alarm, collect, try_ring}
use linux_web_audio_capture.Format.{ok}
use linux_web_audio_capture.Api
use linux_web_audio_capture.Api.{started}
use linux_web_audio_capture.Control
use linux_web_audio_capture.Control.{
  Connect, context_ready, Server, unconnected, resolve_target, ready, query_monitor,
  query_default_sink,
}
use linux_web_audio_capture.Control.Queries.{
  issued, server_info, sink_info, server_query, sink_query, sink_info_callback,
  server_info_callback,
}
use linux_web_audio_capture.Mic.{
  new_stream, read_bytes, read_failed, did_not_read, open_mic, read, channels_supported,
  map_sample_format, build_channel_map, finish_open,
}
use linux_web_audio_capture.Capture.{Capture, frame_bytes, publish_format, reinit, discontinuity}
use linux_web_audio_capture.Capture.Create.{fresh}
use linux_web_audio_capture.Capture.Create.Accepting.{Sound}
use linux_web_audio_capture.CaptureThread.{
  Worker, Env, start, step, steps, at_top, reading, rechecking, exited, raise_reopen,
}
use linux_web_audio_capture.CaptureThread.Invariant.{
  Reach, Inv, Reach-Inv, here, next, works, pops, requests_stop,
}
use linux_web_audio_capture.FrameQueue.Refine.{contents}
use linux_web_audio_capture.CaptureThread.Pipeline.{frames_read, frames_popped, frames_in_order}
use linux_web_audio_capture.CaptureThread.Stopping.{stop_ends_thread}
use linux_web_audio_capture.CaptureThread.Following.{pinned_stream_kept}
use linux_web_audio_capture.CaptureThread.Reopening.{
  default_sink_followed, read_failure_reported_twice,
}

abbrev pinned : Capture
pinned = record fresh {
  frame_samples = 1;
  channels = 1;
  requested_sink = bytes "usb";
  control = record unconnected { ctx = true; is_ready = true };
  queue = FrameQueue.sized (0 ∷ 0 ∷ 0 ∷ 0 ∷ []) 4 1;
}

abbrev server : Server
server = record {
  default_sink = issued (other (server_info (some (bytes "speakers"))) ∷ []);
  sink_info = λ sink. issued (other (sink_info (some (bytes "usb.monitor"))) ∷ []);
}

-- The server answers, streams open, and reads fail.
abbrev env : Env
env = record {
  server = server;
  pa_simple_new = λ r. new_stream 7;
  pa_simple_read = λ s n. read_failed (bytes "gone");
  now = 0;
  later = 0;
}

abbrev worker : Worker
worker = record { place = at_top; mic = none; had_stream = true; buffer = 0 ∷ 0 ∷ 0 ∷ 0 ∷ [] }

-- A handle that has not been started yet, and what a start makes of it.
abbrev created : Capture
created = record pinned { control = unconnected }

abbrev connect : Connect
connect = record {
  new_mainloop = true;
  new_context = true;
  refused = none;
  during_connect = [];
  during_wait = other context_ready ∷ wake ∷ [];
}

abbrev live : Capture
live =
    record (publish_format (record { sink = bytes "usb"; monitor = bytes "usb.monitor" })
      (record pinned {
        control = record unconnected {
          mainloop = true;
          ctx = true;
          thread = true;
          is_ready = true;
        };
      })) { running = true; thread = true }

created-Sound : Sound created
unfolding fresh frame_bytes channels_supported
created-Sound = record {
  rate = omega arith;
  samples = omega arith;
  layout = refl;
  known = refl;
  queue = record {
    stored = refl;
    addressable = omega arith;
    slots = omega arith;
    nonempty_slots = omega arith;
    bounded = omega arith;
    in_ring = omega arith;
  };
  slots = refl;
  quiet = (refl, refl, refl);
  idle = (refl, refl);
}

live_made : Api.start connect server [] created ≡ started ok live
unfolding Api.start fresh publish_format Control.init Control.resolve_target Control.ready
    Control.callbacks Control.state_callback wait_for Control.query_monitor sink_query
    sink_info_callback make_alarm collect try_ring wait
live_made = refl

-- The thread takes a step, a stop comes in, and the consumer pops.
abbrev stopping : Worker × Capture
stopping = let s = step env (start live, live) in (s.0, record s.1 { stop_requested = true })

abbrev after_pop : Worker × Capture
after_pop = let c = stopping.1 in (stopping.0, record c { queue = (take_frame c.queue []).queue })

Reach-Inv_example : Inv after_pop.0 after_pop.1
Reach-Inv_example =
    Reach-Inv {c = created} {d = live} {t = after_pop} connect server [] created-Sound live_made
      (next (next (next here (works env _)) (requests_stop _ _)) (pops [] _ _))

abbrev stopped : Capture
stopped = record pinned { stop_requested = true }

stop_ends_thread_example :
    ((steps (env ∷ env ∷ env ∷ []) (worker, stopped)).0.place ≡ exited)
    × ((steps (env ∷ env ∷ env ∷ []) (worker, stopped)).1.running ≡ false)
unfolding fresh
stop_ends_thread_example =
    stop_ends_thread (env ∷ env ∷ env ∷ []) worker stopped refl (λ e. refl) (omega arith)

abbrev reads : Worker
reads = record worker { place = reading; mic = some (record { stream = some 7 }) }

pinned_stream_kept_example :
    (reading ≡ reading)
    × ((text : Bytes) × (read env.pa_simple_read
            (record { stream = some 7 })
            (0 ∷ 0 ∷ 0 ∷ 0 ∷ [])
            (frame_bytes pinned)
          ≡ did_not_read text))
unfolding step read fresh
pinned_stream_kept_example =
    pinned_stream_kept env reads pinned (record { stream = some 7 }) refl refl refl

-- A capture of the default sink whose stream reads another sink's monitor, and whose check is due.
abbrev followed : Capture
followed = record pinned {
  requested_sink = [];
  sink_recheck_ms = 100;
  current_monitor = bytes "headset.monitor";
}

abbrev later_env : Env
later_env = record env { now = 200_000_000; later = 200_000_000 }

abbrev at_recheck : Worker
at_recheck = record worker { place = rechecking }

default_sink_followed_example :
    let (w, c) = steps (later_env ∷ env ∷ env ∷ env ∷ []) (at_recheck, followed) in
    (w.place ≡ reading)
    × (w.mic ≡ some (record { stream = some 7 }))
    × (c.current_monitor ≡ bytes "usb.monitor")
    × (c.pending_flags ≡ (raise_reopen followed).pending_flags)
    × (c.queue ≡ followed.queue)
unfolding fresh resolve_target open_mic channels_supported map_sample_format build_channel_map
    finish_open ready query_default_sink query_monitor sink_query wait wait_for sink_info_callback
    server_info_callback server_query same_bytes make_alarm collect try_ring
default_sink_followed_example =
    default_sink_followed later_env env env env at_recheck followed pinned.control pinned.control
      (record { sink = bytes "speakers"; monitor = bytes "usb.monitor" })
      (record { stream = some 7 }) refl refl refl refl refl refl refl refl

read_failure_reported_twice_example :
    let (w1, c1) = step env (reads, pinned) in
    let (w2, c2) = steps (env ∷ env ∷ env ∷ env ∷ []) (w1, record c1 { pending_flags = 0 }) in
    (c1.pending_flags ≡ (raise_reopen pinned).pending_flags)
    × (w2.place ≡ reading)
    × (w2.mic ≡ some (record { stream = some 7 }))
    × (c2.pending_flags ≡ bit_or reinit discontinuity)
unfolding fresh read resolve_target open_mic channels_supported map_sample_format build_channel_map
    finish_open ready query_monitor sink_query wait wait_for sink_info_callback make_alarm collect
    try_ring
read_failure_reported_twice_example =
    read_failure_reported_twice env env env env env reads pinned pinned.control
      (record { sink = bytes "usb"; monitor = bytes "usb.monitor" }) (record { stream = some 7 })
      (record { stream = some 7 }) (bytes "pa_simple_read() failed: gone") refl refl refl refl refl
      refl refl

-- A stream opens, a frame is read from it and popped.
abbrev sounding : Env
sounding = record env { pa_simple_read = λ s n. read_bytes (1 ∷ 2 ∷ 3 ∷ 4 ∷ []) }

abbrev heard : Worker × Capture
heard = step sounding (step sounding (step sounding (step sounding (start live, live))))

abbrev consumed : Worker × Capture
consumed = let c = heard.1 in (heard.0, record c { queue = (take_frame c.queue []).queue })

abbrev consuming : Reach (start live, live) consumed
consuming =
    next
      (next (next (next (next here (works sounding _)) (works sounding _)) (works sounding _))
        (works sounding _))
      (pops [] _ _)

frames_in_order_example :
    Sublist (frames_popped consuming ++ contents consumed.1.queue) (frames_read consuming)
frames_in_order_example =
    frames_in_order {c = created} {d = live} {t = consumed} connect server [] created-Sound
      live_made consuming
