-- ===== src/Control.antt =====
-- src/pulse_control.h and src/pulse_control.cpp: the connection to the audio server. libpulse is not
-- part of the program: each call that is made of it takes an argument for what the server answers,
-- and a schedule for the callbacks that run while the caller waits.
pub mod Queries
pub mod Lifecycle
pub mod Lifetime
pub mod Resolving
mod Tests
use linux_web_audio_capture.Base.{
  ℕ, Bool, true, false, not, ◌&&◌, ◌||◌, if◌then◌else◌, Option, none, some, List, [], ◌∷◌, ◌++◌,
  Bytes, bytes, empty,
}
use linux_web_audio_capture.CondVar.{Event, wait_for}
use linux_web_audio_capture.Format.{Status, ok, err_pulse, Target}
use Queries.{Query, ServerReply, SinkReply, server_query, sink_query, Found, found, not_found}

-- `control_t`: which of `_mainloop` and `_ctx` are set, whether `_thread` is joinable, the flags that
-- the state callback writes, and `_error`.
pub record Control : Type 0 where
  pub mainloop : Bool
  pub ctx : Bool
  pub thread : Bool
  pub is_ready : Bool
  pub terminated : Bool
  pub failed : Bool
  pub error : Bytes

abbrev pub unconnected : Control
unconnected = record {
  mainloop = false;
  ctx = false;
  thread = false;
  is_ready = false;
  terminated = false;
  failed = false;
  error = [];
}

-- `pa_context_state_t`, with the states that the callback ignores as one.
pub data ContextState : Type 0 where
  context_ready context_failed context_terminated context_other : ContextState

-- `state_callback`
unfoldable pub state_callback : ContextState → Control → Control
state_callback context_ready c = record c { is_ready = true }
state_callback context_failed c = record c { failed = true }
state_callback context_terminated c = record c { terminated = true }
state_callback context_other c = c

-- The callbacks that a libpulse call makes before it returns.
unfoldable pub callbacks : List ContextState → Control → Control
callbacks [] c = c
callbacks (s ∷ ss) c = callbacks ss (state_callback s c)

-- `set_error`, `error` and `ready`
abbrev pub set_error : Bytes → Control → Control
set_error message c = record c { error = message }

unfoldable pub ready : Control → Bool
ready c = c.is_ready && (not c.failed && not c.terminated)

-- What libpulse does for `init`: whether a main loop and a context can be made, the error text of
-- `pa_context_connect` if it fails, and the state callbacks during that call and during the wait.
pub record Connect : Type 0 where
  pub new_mainloop : Bool
  pub new_context : Bool
  pub refused : Option Bytes
  pub during_connect : List ContextState
  pub during_wait : List (Event ContextState)

-- `init` returns a status, or assigns a thread over a joinable one, which ends the process.
pub data Init : Type 0 where
  returned : Status → Control → Init
  process_terminated : Init

-- What waits in `init`, and what it makes of the state in which the wait ends.
abbrev pub connecting_over : Control → Bool
connecting_over c = c.is_ready || c.failed

connected : Control → Init
connected c =
    if not (connecting_over c)
    then returned err_pulse (set_error (bytes "timed out connecting to the audio server") c)
    else if not c.is_ready
    then returned err_pulse (set_error (bytes "audio server connection failed") c)
    else returned ok c

-- From where the connection is under way: the main loop thread, and the wait.
run_mainloop : List (Event ContextState) → Control → Init
unfolding connected
run_mainloop es c =
    if c.thread
    then process_terminated
    else connected (wait_for connecting_over state_callback es (record c { thread = true })).0

connect : Connect → Control → Init
unfolding run_mainloop
connect e c = elim e.refused [
  | some text ↦
      returned err_pulse (set_error (bytes "pa_context_connect()" ++ (bytes " failed: " ++ text)) c)
  | none ↦ run_mainloop e.during_wait c
]

-- `init`. The pointers are overwritten before they are tested.
unfoldable pub init : Connect → Control → Init
unfolding connect
init e c =
    let c1 = record c { mainloop = e.new_mainloop } in
    let c2 = record c1 { ctx = e.new_context } in
    if not e.new_mainloop
    then returned err_pulse (set_error (bytes "pa_mainloop_new() failed") c1)
    else if not e.new_context
    then returned err_pulse (set_error (bytes "pa_context_new() failed") c2)
    else connect e (callbacks e.during_connect c2)

-- `shutdown`: the loop thread is joined first; `pa_context_disconnect` may report state changes.
unfoldable pub shutdown : List ContextState → Control → Control
shutdown during_disconnect c =
    let joined = record c { thread = false } in
    let released =
      if c.ctx then record (callbacks during_disconnect joined) { ctx = false } else joined in
    record released { mainloop = false; is_ready = false }

-- The body that `query_default_sink` and `query_monitor` share with their callers: the value, or the
-- message that goes to `set_error`.
reply : Found → Control → Control × Option Bytes
reply (found v) c = (c, some v)
reply (not_found message) c = (set_error message c, none)

unfoldable pub query_default_sink : Query ServerReply → Control → Control × Option Bytes
unfolding reply
query_default_sink q c = reply (server_query q) c

unfoldable pub query_monitor : Query SinkReply → Bytes → Control → Control × Option Bytes
unfolding reply
query_monitor q sink c = reply (sink_query sink q) c

-- `resolve_target`, in the order of the source: the sink, then its monitor.
with_monitor : Bytes → Control × Option Bytes → Control × Option Target
with_monitor sink (c, none) = (c, none)
with_monitor sink (c, some monitor) = (c, some (record { sink = sink; monitor = monitor }))

-- What the server answers to the two queries. The second is asked about a sink.
pub record Server : Type 0 where
  pub default_sink : Query ServerReply
  pub sink_info : Bytes → Query SinkReply

with_default : Server → Control × Option Bytes → Control × Option Target
unfolding with_monitor
with_default s (c, none) = (c, none)
with_default s (c, some sink) =
    if empty sink
    then (set_error (bytes "audio server reports an empty default sink") c, none)
    else with_monitor sink (query_monitor (s.sink_info sink) sink c)

unfoldable pub resolve_target : Server → Bytes → Control → Control × Option Target
unfolding with_monitor with_default
resolve_target s requested c =
    if not c.ctx || not (ready c)
    then (set_error (bytes "not connected to the audio server") c, none)
    else if empty requested
    then with_default s (query_default_sink s.default_sink c)
    else with_monitor requested (query_monitor (s.sink_info requested) requested c)
