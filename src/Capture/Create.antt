-- ===== src/Capture/Create.antt =====
-- `weba_config`, `weba_config_defaults` and `weba_capture_create` of src/capture.cpp.
pub mod Accepting
use linux_web_audio_capture.Base.{
  ℕ, zero, suc, ◌+◌, ◌*◌, ◌^◌, ◌≤◌, ◌<◌, max, Bool, true, false, not, ◌||◌, ◌≡◌, refl, ◌≢◌, ◌⊎◌,
  inl, inr, arith, Option, none, some, List, [], Bytes, ℤ, pos, negsuc, if◌then◌else◌, ◌==◌, ltb,
  length, u64,
}
use linux_web_audio_capture.Format.{
  SampleFormat, f32le, s16le, s32le, other_format, Status, err_inval, err_nomem, err_format,
}
use linux_web_audio_capture.FrameQueue.{FrameQueue, unset, Init, returned, threw_length_error}
use linux_web_audio_capture.FrameQueue
use linux_web_audio_capture.Control.{unconnected}
use linux_web_audio_capture.Mic.{channels_supported}
use linux_web_audio_capture.Capture.{Capture, FormatInfo, frame_bytes}

-- `weba_config`
pub record Config : Type 0 where
  pub sample_rate : ℕ
  pub channels : ℕ
  pub format : SampleFormat
  pub frame_samples : ℕ
  pub sink : Option Bytes
  pub ring_frames : ℕ
  pub fixed_rate : ℤ
  pub sink_recheck_ms : ℕ

abbrev pub default_sample_rate : ℕ
default_sample_rate = 48000

abbrev pub default_channels : ℕ
default_channels = 2

abbrev pub default_frame_samples : ℕ
default_frame_samples = 960

abbrev pub default_queue_frames : ℕ
default_queue_frames = 100

abbrev pub default_sink_recheck_ms : ℕ
default_sink_recheck_ms = 1000

-- What `weba_config_defaults` writes.
unfoldable pub config_defaults : Config
config_defaults = record {
  sample_rate = default_sample_rate;
  channels = default_channels;
  format = f32le;
  frame_samples = default_frame_samples;
  sink = none;
  ring_frames = default_queue_frames;
  fixed_rate = pos 1;
  sink_recheck_ms = default_sink_recheck_ms;
}

abbrev pub no_format : FormatInfo
no_format = record {
  sample_rate = 0;
  channels = 0;
  frame_samples = 0;
  format = f32le;
  sink_name = [];
  monitor_name = [];
}

-- `new weba_capture {}`
unfoldable pub fresh : Capture
fresh = record {
  sample_rate = default_sample_rate;
  channels = default_channels;
  frame_samples = default_frame_samples;
  format = f32le;
  requested_sink = [];
  queue_frames = default_queue_frames;
  fixed_rate = true;
  sink_recheck_ms = default_sink_recheck_ms;
  current_monitor = [];
  next_sink_check = 0;
  control = unconnected;
  queue = unset;
  thread = false;
  running = false;
  stop_requested = false;
  pending_flags = 0;
  format_info = no_format;
  error = [];
  next_deadline = 0;
  deadline_valid = false;
  thread_abandoned = false;
}

-- `cfg->x ? cfg->x : default`
abbrev pub or_default : ℕ → ℕ → ℕ
or_default n d = if n == 0 then d else n

abbrev sink_name : Option Bytes → Bytes
sink_name none = []
sink_name (some s) = s

abbrev is_nonzero : ℤ → Bool
is_nonzero (pos zero) = false
is_nonzero (pos (suc n)) = true
is_nonzero (negsuc n) = true

unfoldable pub configure : Option Config → Capture → Capture
configure none c = c
configure (some g) c = record c {
  sample_rate = or_default g.sample_rate default_sample_rate;
  channels = or_default g.channels default_channels;
  frame_samples = or_default g.frame_samples default_frame_samples;
  format = g.format;
  requested_sink = sink_name g.sink;
  queue_frames = or_default g.ring_frames default_queue_frames;
  fixed_rate = is_nonzero g.fixed_rate;
  sink_recheck_ms = or_default g.sink_recheck_ms default_sink_recheck_ms;
}

abbrev pub is_known : SampleFormat → Bool
is_known f32le = true
is_known s16le = true
is_known s32le = true
is_known (other_format n) = false

-- A handle, a status, or an exception that leaves the C function.
pub data Created : Type 0 where
  created : Capture → Created
  not_created : Status → Created
  threw : Created

with_queue : Capture → Init → Created
with_queue c (returned true q) = created (record c { queue = q })
with_queue c (returned false q) = not_created err_nomem
with_queue c threw_length_error = threw

validated : (ℕ → Bool) → Capture → Created
unfolding with_queue
validated room c =
    if c.sample_rate == 0 || c.frame_samples == 0 || c.channels == 0
    then not_created err_inval
    else if not (channels_supported c.channels)
    then not_created err_format
    else if not (is_known c.format)
    then not_created err_format
    else with_queue c (FrameQueue.init room c.queue (frame_bytes c) c.queue_frames)

-- `weba_capture_create`. `has_out` says that `out` is not null, `has_handle` that `new` gives a handle,
-- and `room` which sizes the allocator can give the queue.
unfoldable pub create : (ℕ → Bool) → Bool → Bool → Option Config → Created
unfolding validated
create room has_handle has_out cfg =
    if not has_out
    then not_created err_inval
    else if not has_handle
    then not_created err_nomem
    else validated room (configure cfg fresh)
