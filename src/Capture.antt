-- ===== src/Capture.antt =====
-- `struct weba_capture` of src/capture.cpp and its methods. The clock is read in nanoseconds, as
-- `std::chrono::steady_clock` counts them; durations are microseconds where the source has
-- `std::chrono::microseconds`.
pub mod Create
pub mod Read
pub mod Flags
pub mod Period
mod Tests
use Prim.Native.Nat.{bit_or}
use linux_web_audio_capture.Base.{
  ℕ, ◌+◌, ◌*◌, ◌/◌, ◌^◌, Bool, true, false, List, [], ◌∷◌, Bytes, take, u64,
}
use linux_web_audio_capture.Format.{SampleFormat, f32le, s16le, s32le, other_format, Target}
use linux_web_audio_capture.FrameQueue.{FrameQueue}
use linux_web_audio_capture.FrameQueue
use linux_web_audio_capture.Control.{Control}

-- The flags of `weba_frame_info`.
abbrev pub discontinuity : ℕ
discontinuity = 1

abbrev pub silence : ℕ
silence = 2

abbrev pub underrun : ℕ
underrun = 4

abbrev pub reinit : ℕ
reinit = 8

-- `weba_format_info`, with its two character arrays up to their terminating NUL.
pub record FormatInfo : Type 0 where
  pub sample_rate : ℕ
  pub channels : ℕ
  pub frame_samples : ℕ
  pub format : SampleFormat
  pub sink_name : Bytes
  pub monitor_name : Bytes

-- `weba_capture`. `thread` says whether the thread object is joinable.
pub record Capture : Type 0 where
  pub sample_rate : ℕ
  pub channels : ℕ
  pub frame_samples : ℕ
  pub format : SampleFormat
  pub requested_sink : Bytes
  pub queue_frames : ℕ
  pub fixed_rate : Bool
  pub sink_recheck_ms : ℕ
  pub current_monitor : Bytes
  pub next_sink_check : ℕ
  pub control : Control
  pub queue : FrameQueue
  pub thread : Bool
  pub running : Bool
  pub stop_requested : Bool
  pub pending_flags : ℕ
  pub format_info : FormatInfo
  pub error : Bytes
  pub next_deadline : ℕ
  pub deadline_valid : Bool
  pub thread_abandoned : Bool

-- `frame_period`, in microseconds. The product fits an `int64_t`.
unfoldable pub frame_period : ℕ → ℕ → ℕ
frame_period frame_samples sample_rate = frame_samples * 1_000_000 / sample_rate

-- A duration of `us` microseconds, in nanoseconds.
abbrev pub ns : ℕ → ℕ
ns us = us * 1000

-- The period of a capture's frames, in nanoseconds.
abbrev pub period_ns : Capture → ℕ
period_ns c = ns (frame_period c.frame_samples c.sample_rate)

abbrev sample_bytes : SampleFormat → ℕ
sample_bytes f32le = 4
sample_bytes s16le = 2
sample_bytes s32le = 4
sample_bytes (other_format n) = 0

-- `weba_capture::frame_bytes`, in `size_t`.
unfoldable pub frame_bytes : Capture → ℕ
frame_bytes c = u64 (u64 (c.frame_samples * c.channels) * sample_bytes c.format)

-- `set_error`, without the log line.
abbrev pub set_error : Bytes → Capture → Capture
set_error message c = record c { error = message }

-- What `snprintf(name, sizeof(name), "%s", text)` leaves in an array of 256 characters.
abbrev pub array_text : Bytes → Bytes
array_text text = take 255 text

-- `publish_format`
unfoldable pub publish_format : Target → Capture → Capture
publish_format t c = record c {
  format_info = record {
    sample_rate = c.sample_rate;
    channels = c.channels;
    frame_samples = c.frame_samples;
    format = c.format;
    sink_name = array_text t.sink;
    monitor_name = array_text t.monitor;
  };
}

-- `pending_flags.fetch_or`
abbrev pub raise_flags : ℕ → Capture → Capture
raise_flags flags c = record c { pending_flags = bit_or c.pending_flags flags }

-- What the other threads do to the state that the consumer shares with them: the capture thread
-- pushes a frame, raises the flags of a reopen, or clears `running` at its end, and
-- `weba_capture_stop` asks for the stop and closes the queue.
pub data Act : Type 0 where
  pushes : Bytes → Act
  reopens : Act
  requests_stop : Act
  closes : Act
  ends : Act

unfoldable pub act : Act → Capture → Capture
act (pushes frame) c = record c { queue = (FrameQueue.push c.queue frame).1 }
act reopens c = raise_flags (bit_or reinit discontinuity) c
act requests_stop c = record c { stop_requested = true }
act closes c = record c { queue = FrameQueue.close c.queue }
act ends c = record c { running = false }

unfoldable pub acts : List Act → Capture → Capture
unfolding act
acts [] c = c
acts (a ∷ more) c = acts more (act a c)
