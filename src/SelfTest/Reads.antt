-- ===== src/SelfTest/Reads.antt =====
-- `read_frames` of tests/webaudio_selftest.cpp. What it prints is left out.
use Prim.Native.Nat.{bit_and}
use linux_web_audio_capture.Base.{
  ℕ, suc, ◌+◌, ◌*◌, Bool, true, if◌then◌else◌, ◌==◌, Option, none, some, List, [], ◌∷◌, Bytes, pos,
  replicate, u64,
}
use linux_web_audio_capture.Format.{SampleFormat, f32le, s16le, s32le, other_format}
use linux_web_audio_capture.Capture.{Capture, FormatInfo, Act, silence, discontinuity}
use linux_web_audio_capture.Capture.Read.{
  FrameInfo, read_one, read_none, read_error, Round, Outcome, finished, unfinished,
}
use linux_web_audio_capture.Capture.Read.Session.{Input, call}

-- A turn of the loop of `read_frames`: what other threads do before its call, the clock at the call and the
-- rounds of the call.
pub record Turn : Type 0 where
  pub before : List Act
  pub entered : ℕ
  pub rounds : List Round

-- `read_frames`: the capture, the buffer, the three counts, whether a call failed, and whether a call has not
-- come back.
pub record Reading : Type 0 where
  pub capture : Capture
  pub buffer : Bytes
  pub frames : ℕ
  pub silent : ℕ
  pub gaps : ℕ
  pub failed : Bool
  pub in_call : Bool

abbrev pub count_if : ℕ → ℕ → ℕ → ℕ
count_if flag flags n = if bit_and flags flag == 0 then n else u64 (n + 1)

abbrev pub flags_of : Option FrameInfo → ℕ
flags_of none = 0
flags_of (some i) = i.flags

abbrev pub input_of : FormatInfo → Turn → Bytes → Input
input_of i t buffer = record {
  before = t.before;
  dst = some buffer;
  dst_capacity_frames = i.frame_samples;
  wants_info = true;
  timeout_ms = pos 1000;
  entered = t.entered;
  rounds = t.rounds;
}

abbrev pub after_call : Reading → Outcome → (Reading → Reading) → Reading
after_call d (finished read_one buffer info c) more = more (record {
  capture = c;
  buffer = buffer;
  frames = suc d.frames;
  silent = count_if silence (flags_of info) d.silent;
  gaps = count_if discontinuity (flags_of info) d.gaps;
  failed = d.failed;
  in_call = d.in_call;
})
after_call d (finished read_none buffer info c) more = record d {
  capture = c;
  buffer = buffer;
  failed = true;
}
after_call d (finished (read_error s) buffer info c) more = record d {
  capture = c;
  buffer = buffer;
  failed = true;
}
after_call d (unfinished c) more = record d { capture = c; in_call = true }

-- The loop, with a turn for each call.
unfoldable pub read_frames : FormatInfo → List Turn → Reading → Reading
read_frames i [] d = d
read_frames i (t ∷ ts) d = after_call d (call (input_of i t d.buffer) d.capture) (read_frames i ts)

abbrev pub bytes_per_sample : SampleFormat → ℕ
bytes_per_sample s16le = 2
bytes_per_sample f32le = 4
bytes_per_sample s32le = 4
bytes_per_sample (other_format n) = 4

unfoldable pub frame_buffer : FormatInfo → Bytes
frame_buffer i = replicate (u64 (u64 (i.frame_samples * i.channels) * bytes_per_sample i.format)) 0
