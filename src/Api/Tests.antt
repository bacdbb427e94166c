-- ===== src/Api/Tests.antt =====
-- Stopping a capture of src/capture.cpp, and starting it again.
use mathlib.Core.List.Memᴰ
use linux_web_audio_capture.Base.{true, false, ◌≡◌, refl, ◌⊎◌, none, some, List, [], ◌∷◌, bytes}
use linux_web_audio_capture.CondVar.{Event, other, wake, wait_for}
use linux_web_audio_capture.FrameQueue
use linux_web_audio_capture.Control
use linux_web_audio_capture.Control.{
  Connect, Server, context_ready, context_terminated, unconnected, callbacks, state_callback,
}
use linux_web_audio_capture.Alarm.{wait, make_alarm, collect, try_ring}
use linux_web_audio_capture.Control.Queries.{
  issued, server_info, sink_info, server_query, sink_query, server_info_callback,
  sink_info_callback,
}
use linux_web_audio_capture.Format.{ok, err_pulse}
use linux_web_audio_capture.Capture.{Capture, act, reopens, publish_format}
use linux_web_audio_capture.Capture.Create.{fresh}
use linux_web_audio_capture.Api.{
  StopAct, thread_ends, shares, stop_act, asked, has_ended, stop, start, destroy, freed, leaked,
  is_ok, release, leave_thread, start_terminated,
}
use linux_web_audio_capture.Api.Stopping.{stop_lem, destroy_lem}
use linux_web_audio_capture.Api.Starting.{Running, Refused, start_lem}
use linux_web_audio_capture.Api.Restarting.{restart_fails}
use linux_web_audio_capture.Api.Abandoned.{start_after_abandoned}
use linux_web_audio_capture.Control.Lifecycle.{Accepts}

abbrev capturing : Capture
capturing = record fresh {
  running = true;
  thread = true;
  control = record unconnected { mainloop = true; ctx = true; thread = true; is_ready = true };
}

-- The thread reopens its stream, then ends.
abbrev ending : List (Event StopAct)
ending = wake ∷ other (shares reopens) ∷ other thread_ends ∷ wake ∷ []

stop_lem_example :
    let d = stop ending [] capturing in
    (d.stop_requested ≡ true)
    × (d.queue.closed ≡ true)
    × (d.thread ≡ false)
    × (((d.thread_abandoned ≡ false)
          × (d.running ≡ false)
          × (d.control ≡ Control.shutdown [] capturing.control))
        ⊎ ((d.thread_abandoned ≡ true)
            × (capturing.thread ≡ true)
            × (d.running ≡ true)
            × (d.control ≡ capturing.control)
            × ((wait_for has_ended stop_act ending (asked capturing)).1 ≡ [])))
unfolding fresh
stop_lem_example = stop_lem ending [] capturing refl

-- A thread that does not end in time.
destroy_lem_example :
    ((destroy (wake ∷ []) [] capturing ≡ freed)
      × ((stop (wake ∷ []) [] capturing).thread ≡ false)
      × ((stop (wake ∷ []) [] capturing).running ≡ false)
      × ((stop (wake ∷ []) [] capturing).control.thread ≡ false))
    ⊎ ((destroy (wake ∷ []) [] capturing ≡ leaked (stop (wake ∷ []) [] capturing))
        × ((stop (wake ∷ []) [] capturing).running ≡ true))
unfolding fresh
destroy_lem_example = destroy_lem (wake ∷ []) [] capturing refl

abbrev accepting : Connect
accepting = record {
  new_mainloop = true;
  new_context = true;
  refused = none;
  during_connect = [];
  during_wait = other context_ready ∷ wake ∷ [];
}

abbrev server : Server
server = record {
  default_sink = issued (other (server_info (some (bytes "speakers"))) ∷ []);
  sink_info = λ sink. issued (other (sink_info (some (bytes "speakers.monitor"))) ∷ []);
}

restart_fails_example : is_ok err_pulse ≡ false
unfolding start stop fresh Control.shutdown Control.init Control.resolve_target Control.ready
    callbacks state_callback wait_for stop_act release leave_thread FrameQueue.close act
restart_fails_example =
    restart_fails accepting server ending (context_terminated ∷ []) [] capturing refl refl
      (Memᴰ.head refl) refl refl

-- The handle that a start on this server makes.
abbrev begun : Capture
begun =
    record (publish_format (record { sink = bytes "speakers"; monitor = bytes "speakers.monitor" })
      (record fresh {
        control = record unconnected {
          mainloop = true;
          ctx = true;
          thread = true;
          is_ready = true;
        };
      })) { running = true; thread = true }

start_lem_example : ((ok ≡ ok) × Running server fresh begun) ⊎ Refused ok fresh begun
unfolding start fresh publish_format Control.init Control.resolve_target Control.ready callbacks
    state_callback wait_for Control.query_default_sink Control.query_monitor sink_query
    server_info_callback sink_info_callback make_alarm collect try_ring wait server_query
start_lem_example = start_lem accepting server [] fresh {status = ok} {d = begun} refl

accepting-Accepts : Accepts accepting
accepting-Accepts = record { mainloop = refl; context = refl; accepted = refl; nothing_yet = refl }

-- The thread ends only after the stop.
start_after_abandoned_example :
    start accepting server [] (stop_act thread_ends (stop (wake ∷ []) [] capturing))
    ≡ start_terminated
unfolding fresh stop wait_for stop_act release leave_thread
start_after_abandoned_example =
    start_after_abandoned accepting server (wake ∷ []) [] [] capturing refl refl refl
      accepting-Accepts
