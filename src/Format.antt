-- ===== src/Format.antt =====
-- The types that the parts of the library share: sample formats and status codes of
-- include/webacapture.h, and `target_t` of src/pulse_control.h.
use linux_web_audio_capture.Base.{ℕ, Bytes}

-- `weba_sample_format`. An enumeration of a C interface: a caller can pass any other value.
pub data SampleFormat : Type 0 where
  f32le s16le s32le : SampleFormat
  other_format : ℕ → SampleFormat

-- `weba_status`
pub data Status : Type 0 where
  ok err_inval err_nomem err_pulse err_format err_state : Status

-- `target_t`: a sink and its monitor source.
pub record Target : Type 0 where
  pub sink : Bytes
  pub monitor : Bytes
