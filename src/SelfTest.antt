-- ===== src/SelfTest.antt =====
-- tests/webaudio_selftest.cpp: the program that exercises the library against an audio server. What it prints
-- is left out, and what the destruction of a handle does. The comparison of its clock with the audio clock, in
-- `double`s, is an argument.
pub mod Reads
pub mod Streaming
pub mod Gaps
pub mod Handles
pub mod Passing
mod Tests
use Prim.Native.Nat.{bit_and}
use linux_web_audio_capture.Base.{
  ℕ, zero, suc, ◌+◌, ◌-◌, ◌*◌, Bool, true, false, not, ◌&&◌, ◌||◌, if◌then◌else◌, ◌==◌, Option,
  none, some, List, [], ◌∷◌, ◌++◌, Bytes, bytes, empty, same_bytes, ℤ, pos, negsuc, length, take,
  replicate, u64,
}
use linux_web_audio_capture.CondVar.{Event}
use linux_web_audio_capture.Format.{
  SampleFormat, f32le, s16le, s32le, other_format, Status, ok, err_inval, err_pulse, err_format,
  err_state,
}
use linux_web_audio_capture.Control.{Connect, ContextState, Server}
use linux_web_audio_capture.Capture.{Capture, FormatInfo, Act, silence, discontinuity}
use linux_web_audio_capture.Capture.Create.{
  Config, config_defaults, no_format, Created, created, not_created, threw, create,
}
use linux_web_audio_capture.Capture.Read.{
  FrameInfo, read_one, read_none, read_error, Round, Outcome, finished, unfinished, read_frame,
}
use linux_web_audio_capture.Capture.Read.Session.{Input, call, capture_after}
use linux_web_audio_capture.Api.{Started, started, start_terminated, is_ok, start, StopAct, stop}
use linux_web_audio_capture.Api.Queries.{
  get_format, is_running, last_error, version_string, code, strerror,
}
use linux_web_audio_capture.SelfTest.Reads.{Turn, Reading, read_frames, frame_buffer}

-- The environment: what the allocator and the audio server do for the handle under test and for the one with
-- an unknown sink, a turn for each of the 50 reads, what happens during the stop, and whether the clocks agree.
pub record World : Type 0 where
  pub room : ℕ → Bool
  pub connect : Connect
  pub server : Server
  pub failed_start : List ContextState
  pub bad_connect : Connect
  pub bad_server : Server
  pub bad_failed_start : List ContextState
  pub turns : List Turn
  pub in_time : Bool
  pub during_stop : List (Event StopAct)
  pub at_disconnect : List ContextState

abbrev pub same_int : ℤ → ℤ → Bool
same_int (pos m) (pos n) = m == n
same_int (pos m) (negsuc n) = false
same_int (negsuc m) (pos n) = false
same_int (negsuc m) (negsuc n) = m == n

unfoldable pub same_status : Status → Status → Bool
same_status s t = same_int (code s) (code t)

-- The exit status, from what was checked: each failure is counted.
abbrev pub failures : List Bool → ℕ
failures [] = 0
failures (b ∷ more) = if b then failures more else suc (failures more)

abbrev pub exit_status : List Bool → ℕ
exit_status checks = if failures checks == 0 then 0 else 1

-- `read_channel_count_with`, and the check of its status. An exception ends the process.
abbrev pub with_channels : World → ℕ → Created
with_channels w n = create w.room true true (some (record config_defaults { channels = n }))

abbrev pub has_status : Status → Created → Bool
has_status s (created c) = same_status s ok
has_status s (not_created t) = same_status t s
has_status s threw = false

abbrev pub is_thrown : Created → Bool
is_thrown threw = true
is_thrown (created c) = false
is_thrown (not_created s) = false

abbrev pub thrown : World → Bool
thrown w =
    is_thrown (with_channels w 1)
    || is_thrown (with_channels w 2)
    || is_thrown (with_channels w 6)
    || is_thrown (with_channels w 8)
    || is_thrown (with_channels w 3)

abbrev pub is_f32le : SampleFormat → Bool
is_f32le f32le = true
is_f32le s16le = false
is_f32le s32le = false
is_f32le (other_format n) = false

-- The checks that need no handle.
unfoldable pub early_checks : World → List Bool
early_checks w =
    not (empty version_string)
    ∷ same_bytes (strerror (code ok)) (bytes "success")
    ∷ has_status ok (with_channels w 1)
    ∷ has_status ok (with_channels w 2)
    ∷ has_status ok (with_channels w 6)
    ∷ has_status ok (with_channels w 8)
    ∷ has_status err_format (with_channels w 3)
    ∷ (config_defaults.sample_rate == 48000)
    ∷ (config_defaults.channels == 2)
    ∷ is_f32le config_defaults.format
    ∷ (config_defaults.frame_samples == 960)
    ∷ same_int config_defaults.fixed_rate (pos 1)
    ∷ []

-- A buffer of one frame, as the defaults have it.
unfoldable pub scratch : Bytes
scratch = replicate (config_defaults.frame_samples * config_defaults.channels * 4) 0

abbrev pub failed_with : Status → Outcome → Bool
failed_with s (finished (read_error t) dst info c) = same_status t s
failed_with s (finished read_one dst info c) = false
failed_with s (finished read_none dst info c) = false
failed_with s (unfinished c) = false

-- A read into `scratch` with room for so many frames, which returns at once.
abbrev pub read_scratch : ℕ → Capture → Outcome
read_scratch room c = read_frame c (some scratch) room false (pos 0) 0 []

-- The checks of a handle that was created, before it is started.
unfoldable pub fresh_checks : Capture → List Bool
fresh_checks c =
    true
    ∷ true
    ∷ (is_running (some c) == 0)
    ∷ failed_with err_state (read_scratch config_defaults.frame_samples c)
    ∷ []

-- The handle whose sink does not exist: its two checks, unless the process ends.
abbrev pub unknown_sink : Bytes
unknown_sink = bytes "no-such-sink-webaudio-selftest"

abbrev pub after_bad_start : Started → Option (List Bool)
after_bad_start start_terminated = none
after_bad_start (started s c) =
    some (same_status s err_pulse ∷ not (empty (last_error (some c))) ∷ [])

abbrev pub after_bad_create : World → Created → Option (List Bool)
after_bad_create w threw = none
after_bad_create w (not_created s) = some (false ∷ false ∷ [])
after_bad_create w (created c) =
    after_bad_start (start w.bad_connect w.bad_server w.bad_failed_start c)

unfoldable pub bad_checks : World → Option (List Bool)
bad_checks w =
    after_bad_create w
      (create w.room true true (some (record config_defaults { sink = some unknown_sink })))

-- `std::strstr`, as a test.
abbrev pub starts_with : Bytes → Bytes → Bool
starts_with [] text = true
starts_with (p ∷ ps) [] = false
starts_with (p ∷ ps) (b ∷ bs) = p == b && starts_with ps bs

abbrev pub contains : Bytes → Bytes → Bool
contains part [] = starts_with part []
contains part (b ∷ bs) = starts_with part (b ∷ bs) || contains part bs

-- The format that `weba_capture_get_format` leaves in a zeroed structure, and its checks.
abbrev pub format_or_zero : Option FormatInfo → FormatInfo
format_or_zero none = no_format
format_or_zero (some i) = i

abbrev pub format_of : Capture → FormatInfo
format_of c = format_or_zero (get_format (some c) true).1

unfoldable pub format_checks : Capture → List Bool
format_checks c =
    same_status (get_format (some c) true).0 ok
    ∷ ((format_of c).sample_rate == config_defaults.sample_rate)
    ∷ ((format_of c).channels == config_defaults.channels)
    ∷ ((format_of c).frame_samples == config_defaults.frame_samples)
    ∷ not (empty (format_of c).monitor_name)
    ∷ contains (bytes ".monitor") (format_of c).monitor_name
    ∷ failed_with err_inval (read_scratch (config_defaults.frame_samples - 1) c)
    ∷ []

abbrev pub not_read : Capture → Reading
not_read c = record {
  capture = c;
  buffer = frame_buffer (format_of c);
  frames = 0;
  silent = 0;
  gaps = 0;
  failed = false;
  in_call = false;
}

unfoldable pub reading : World → Capture → Reading
reading w c = read_frames (format_of c) w.turns (not_read c)

-- The checks from the reads on. A second stop finds no thread to wait for.
unfoldable pub last_checks : World → Reading → List Bool
last_checks w d =
    let c = stop w.during_stop w.at_disconnect d.capture in
    not d.failed
    ∷ (d.frames == 50)
    ∷ w.in_time
    ∷ (d.gaps == 0)
    ∷ (is_running (some c) == 0)
    ∷ (is_running (some (stop [] [] c)) == 0)
    ∷ []

-- `main`, from where the handle runs: its exit status, or none where the process ends otherwise or a call does
-- not come back.
abbrev pub with_bad_checks : World → List Bool → Capture → Option (List Bool) → Option ℕ
with_bad_checks w checks c none = none
with_bad_checks w checks c (some more) =
    let d = reading w c in
    if d.in_call
    then none
    else some (exit_status (checks ++ (more ++ (format_checks c ++ last_checks w d))))

abbrev pub after_start : World → List Bool → Started → Option ℕ
after_start w checks start_terminated = none
after_start w checks (started s c) =
    if is_ok s
    then with_bad_checks w (checks ++ ((is_running (some c) == 1) ∷ [])) c (bad_checks w)
    else some 1

-- Without a handle the start fails.
abbrev pub after_create : World → Created → Option ℕ
after_create w threw = none
after_create w (not_created s) = some 1
after_create w (created c) = after_start w (early_checks w ++ fresh_checks c) (
    start w.connect w.server w.failed_start
      (capture_after (read_scratch config_defaults.frame_samples c)))

unfoldable pub main : World → Option ℕ
main w = if thrown w then none else after_create w (create w.room true true (some config_defaults))
