-- ===== src/Api.antt =====
-- `weba_capture_start`, `weba_capture_stop` and `weba_capture_destroy` of src/capture.cpp. A null
-- handle, which they refuse or ignore, has no state and is left out.
pub mod Stopping
pub mod Restarting
pub mod Queries
pub mod Starting
pub mod Abandoned
mod Tests
use linux_web_audio_capture.Base.{
  Bool, true, false, not, if◌then◌else◌, Option, none, some, List, [], ◌∷◌,
}
use linux_web_audio_capture.CondVar.{Event, wait_for}
use linux_web_audio_capture.Format.{
  Status, ok, err_inval, err_nomem, err_pulse, err_format, err_state, Target,
}
use linux_web_audio_capture.FrameQueue
use linux_web_audio_capture.Control
use linux_web_audio_capture.Control.{
  Control, ContextState, Connect, Init, returned, process_terminated, Server, resolve_target,
}
use linux_web_audio_capture.Capture
use linux_web_audio_capture.Capture.{Capture, set_error, publish_format}

-- `start` returns a status, or assigns a thread over a joinable one, which ends the process.
pub data Started : Type 0 where
  started : Status → Capture → Started
  start_terminated : Started

abbrev pub is_ok : Status → Bool
is_ok ok = true
is_ok err_inval = false
is_ok err_nomem = false
is_ok err_pulse = false
is_ok err_format = false
is_ok err_state = false

-- From where the sink is resolved: a failure shuts the control down, otherwise the thread starts.
unfoldable pub with_target : List ContextState → Capture → Control × Option Target → Started
with_target ds c (control, none) =
    started err_pulse (set_error control.error (record c { control = Control.shutdown ds control }))
with_target ds c (control, some t) =
    if c.thread
    then start_terminated
    else started ok (record (publish_format t (record c { control = control })) {
      stop_requested = false;
      running = true;
      thread = true;
    })

unfoldable pub with_control : Server → List ContextState → Capture → Init → Started
unfolding with_target
with_control s ds c process_terminated = start_terminated
with_control s ds c (returned status control) =
    if is_ok status
    then with_target ds c (resolve_target s c.requested_sink control)
    else started status (set_error control.error (record c { control = control }))

-- `weba_capture_start`, with what libpulse does while it connects, what the server answers, and what
-- a disconnect reports.
unfoldable pub start : Connect → Server → List ContextState → Capture → Started
unfolding with_control
start e s ds c =
    if c.running then started err_state c else with_control s ds c (Control.init e c.control)

-- What the capture thread does while `stop` waits for it: it clears `running` at its end, or touches
-- what it shares with the consumer. The messages that it stores meanwhile, and the fields that it
-- alone uses, are left out.
pub data StopAct : Type 0 where
  thread_ends : StopAct
  shares : Capture.Act → StopAct

unfoldable pub stop_act : StopAct → Capture → Capture
stop_act thread_ends c = record c { running = false }
stop_act (shares a) c = Capture.act a c

-- The thread is joined, or abandoned if it still runs when the wait is over.
unfoldable pub leave_thread : Capture → Capture
leave_thread c =
    if c.running
    then record c { thread = false; thread_abandoned = true }
    else record c { thread = false }

-- What `stop` does to an abandoned thread's handle: nothing more.
unfoldable pub release : List ContextState → Capture → Capture
release ds c =
    if c.thread_abandoned
    then c
    else record c { control = Control.shutdown ds c.control; running = false }

abbrev pub asked : Capture → Capture
asked c = record c { stop_requested = true; queue = FrameQueue.close c.queue }

abbrev pub has_ended : Capture → Bool
has_ended c = not c.running

-- `weba_capture_stop`, over the schedule of its wait for the thread.
unfoldable pub stop : List (Event StopAct) → List ContextState → Capture → Capture
stop es ds c =
    let waited = leave_thread (wait_for has_ended stop_act es (asked c)).0 in
    release ds (if c.thread then waited else asked c)

-- `weba_capture_destroy` frees the handle, or leaks it.
pub data Destroyed : Type 0 where
  freed : Destroyed
  leaked : Capture → Destroyed

unfoldable pub destroy : List (Event StopAct) → List ContextState → Capture → Destroyed
destroy es ds c = let c' = stop es ds c in if c'.thread_abandoned then leaked c' else freed
