-- ===== src/CaptureThread.antt =====
-- `weba_capture::capture_loop` of src/capture.cpp: the capture thread. A step is what the thread does
-- between two points at which other threads can come in or the environment answers; each field that
-- the threads share is touched at most once in a step.
pub mod Stopping
pub mod Invariant
pub mod Following
pub mod Reopening
pub mod Pipeline
mod Tests
use Prim.Native.Nat.{bit_or}
use linux_web_audio_capture.Base.{
  ℕ, ◌+◌, ◌*◌, Bool, true, false, not, ◌&&◌, if◌then◌else◌, ltb, leb, Option, none, some, List, [],
  ◌∷◌, Bytes, empty, same_bytes, replicate,
}
use linux_web_audio_capture.Format.{Target}
use linux_web_audio_capture.FrameQueue
use linux_web_audio_capture.Control.{Control, Server, resolve_target}
use linux_web_audio_capture.Mic.{
  Mic, MicFormat, Request, NewAnswer, Open, opened, not_opened, open_mic, ReadAnswer, Read,
  did_read, did_not_read, read,
}
use linux_web_audio_capture.Capture.{
  Capture, frame_bytes, set_error, publish_format, raise_flags, reinit, discontinuity,
}

-- Where the thread stands: at the test of the loop, before one of its blocking calls, in
-- `wait_for_stop`, or behind the loop.
pub data Place : Type 0 where
  at_top resolving reading rechecking waiting exiting exited : Place
  opening : Target → Place

-- The locals of `capture_loop`.
pub record Worker : Type 0 where
  pub place : Place
  pub mic : Option Mic
  pub had_stream : Bool
  pub buffer : Bytes

-- What the environment answers in a step: the audio server's replies, what libpulse-simple does, and
-- two readings of the clock, in nanoseconds.
pub record Env : Type 0 where
  pub server : Server
  pub pa_simple_new : Request → NewAnswer
  pub pa_simple_read : ℕ → ℕ → ReadAnswer
  pub now : ℕ
  pub later : ℕ

abbrev pub mic_format : Capture → MicFormat
mic_format c = record {
  sample_rate = c.sample_rate;
  channels = c.channels;
  format = c.format;
  frame_samples = c.frame_samples;
}

-- The thread as it starts.
unfoldable pub start : Capture → Worker
start c = record {
  place = at_top;
  mic = none;
  had_stream = false;
  buffer = replicate (frame_bytes c) 0;
}

abbrev pub raise_reopen : Capture → Capture
raise_reopen = raise_flags (bit_or reinit discontinuity)

-- The next check of the default sink, `sink_recheck_ms` from the clock.
abbrev pub check_at : ℕ → Capture → ℕ
check_at now c = now + c.sink_recheck_ms * 1_000_000

top : Worker → Capture → Worker × Capture
top w c = if c.stop_requested then (record w { place = exiting }, c) else elim w.mic [
  | none ↦ (record w { place = resolving }, c)
  | some m ↦ (record w { place = reading }, c)
]

resolved : Worker → Capture → Control × Option Target → Worker × Capture
resolved w c (control, none) =
    (record w { place = waiting }, set_error control.error (record c { control = control }))
resolved w c (control, some t) =
    (record w { place = opening t }, publish_format t (record c { control = control }))

streamed : Env → Worker → Capture → Target → Open → Worker × Capture
streamed e w c t (not_opened text) = (record w { place = waiting }, raise_reopen (set_error text c))
streamed e w c t (opened m) =
    let c' = record c { current_monitor = t.monitor; next_sink_check = check_at e.now c } in
    (
      record w { place = reading; mic = some m; had_stream = true },
      if w.had_stream then raise_reopen c' else c',
    )

pub did : Worker → Capture → Read → Worker × Capture
did w c (did_not_read text) =
    (record w { place = waiting; mic = none }, raise_reopen (set_error text c))
did w c (did_read buffer) = (
  record w { place = rechecking; buffer = buffer },
  record c { queue = (FrameQueue.push c.queue buffer).1 },
)

-- Whether the default sink is polled now.
abbrev pub is_check_due : Env → Capture → Bool
is_check_due e c =
    empty c.requested_sink && (ltb 0 c.sink_recheck_ms && leb c.next_sink_check e.now)

-- The stream is given up if the default sink has another monitor.
moved : Worker → Capture → Control × Option Target → Worker × Capture
moved w c (control, none) = (record w { place = at_top }, record c { control = control })
moved w c (control, some t) = (
  record w { place = at_top; mic = if same_bytes t.monitor c.current_monitor then w.mic else none },
  record c { control = control },
)

recheck : Env → Worker → Capture → Worker × Capture
unfolding moved
recheck e w c =
    if is_check_due e c
    then moved w (record c { next_sink_check = check_at e.later c })
        (resolve_target e.server [] c.control)
    else (record w { place = at_top }, c)

pub at : Place → Env → Worker → Capture → Worker × Capture
unfolding top resolved streamed did recheck
at at_top e w c = top w c
at resolving e w c = resolved w c (resolve_target e.server c.requested_sink c.control)
at (opening t) e w c = streamed e w c t (open_mic e.pa_simple_new t.monitor (mic_format c))
at reading e w c = elim w.mic [
  | none ↦ (record w { place = at_top }, c)
  | some m ↦ did w c (read e.pa_simple_read m w.buffer (frame_bytes c))
]
at rechecking e w c = recheck e w c
at waiting e w c = (record w { place = if c.stop_requested then exiting else at_top }, c)
at exiting e w c = (record w { place = exited }, record c { running = false })
at exited e w c = (w, c)

-- One step of the thread. The wait of `wait_for_stop` ends with the value that `stop_requested` has
-- then, be it because it became true or because the delay is over.
unfoldable pub step : Env → Worker × Capture → Worker × Capture
unfolding at
step e (w, c) = at w.place e w c

pub steps : List Env → Worker × Capture → Worker × Capture
steps [] s = s
steps (e ∷ es) s = steps es (step e s)
