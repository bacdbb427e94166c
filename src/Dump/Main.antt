-- ===== src/Dump/Main.antt =====
-- `main` of examples/webacap-dump.c, over the library that it calls.
pub mod Result
pub mod Ending
use linux_web_audio_capture.Base.{
  ℕ, zero, suc, Bool, true, false, if◌then◌else◌, Option, none, some, List, [], ◌∷◌, Bytes, bytes,
}
use linux_web_audio_capture.CondVar.{Event}
use linux_web_audio_capture.Format.{Status}
use linux_web_audio_capture.Control.{Connect, ContextState, Server}
use linux_web_audio_capture.Capture.{Capture, FormatInfo}
use linux_web_audio_capture.Capture.Create.{
  Config, config_defaults, Created, created, not_created, threw, create,
}
use linux_web_audio_capture.Api.{
  Started, started, start_terminated, is_ok, start, StopAct, Destroyed, destroy,
}
use linux_web_audio_capture.Api.Queries.{get_format}
use linux_web_audio_capture.Dump.{frame_bytes, Turn, Dump, dump}

-- The arguments behind the program's name, and the environment: what the allocator, the audio server and the
-- file system do, the turns of the loop that `atof` of the second argument and the clock leave time for, and
-- what happens during the stop.
pub record World : Type 0 where
  pub args : List Bytes
  pub room : ℕ → Bool
  pub has_handle : Bool
  pub connect : Connect
  pub server : Server
  pub failed_start : List ContextState
  pub malloc : ℕ → Option Bytes
  pub can_open : Bytes → Bool
  pub turns : Option Bytes → List Turn
  pub during_stop : List (Event StopAct)
  pub at_disconnect : List ContextState

-- `argv[n + 1]`, if there are as many.
abbrev pub argument : ℕ → List Bytes → Option Bytes
argument n [] = none
argument zero (a ∷ more) = some a
argument (suc n) (a ∷ more) = argument n more

abbrev pub path_or_default : Option Bytes → Bytes
path_or_default none = bytes "out.wav"
path_or_default (some a) = a

abbrev pub path : World → Bytes
path w = path_or_default (argument 0 w.args)

abbrev pub turns_of : World → List Turn
turns_of w = w.turns (argument 1 w.args)

abbrev pub sink_asked : World → Option Bytes
sink_asked w = argument 2 w.args

-- `main` exits with a status, the file that it wrote if it opened one, and what became of the handle if
-- there was one; or the process ends in the library, or stays in a call that does not come back.
pub data Exit : Type 0 where
  exits : ℕ → Option Bytes → Option Destroyed → Exit
  aborts stays : Exit

abbrev ends : World → ℕ → Option Bytes → Capture → Exit
ends w status file c = exits status file (some (destroy w.during_stop w.at_disconnect c))

with_buffer : World → Capture → FormatInfo → Option Bytes → Exit
with_buffer w c i none = ends w 1 none c
with_buffer w c i (some buffer) =
    if w.can_open (path w)
    then (let d = dump i (turns_of w) buffer c in
        if d.in_call then stays else ends w 0 (some d.out.content) d.capture)
    else ends w 1 none c

with_format : World → Capture → Status × Option FormatInfo → Exit
unfolding with_buffer
with_format w c (status, none) = ends w 1 none c
with_format w c (status, some i) =
    if is_ok status then with_buffer w c i (w.malloc (frame_bytes i)) else ends w 1 none c

with_started : World → Started → Exit
unfolding with_format
with_started w start_terminated = aborts
with_started w (started status c) =
    if is_ok status then with_format w c (get_format (some c) true) else ends w 1 none c

with_handle : World → Created → Exit
unfolding with_started
with_handle w threw = aborts
with_handle w (not_created status) = exits 1 none none
with_handle w (created c) = with_started w (start w.connect w.server w.failed_start c)

unfoldable pub main : World → Exit
unfolding with_handle
main w =
    with_handle w
      (create w.room w.has_handle true (some (record config_defaults { sink = sink_asked w })))
