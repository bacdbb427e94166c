-- ===== src/Api/Queries.antt =====
-- The calls of src/capture.cpp that only report: `weba_capture_get_format`, `weba_capture_is_running`,
-- `weba_capture_last_error`, `weba_strerror` and `weba_version_string`. A null handle is `none`.
use linux_web_audio_capture.Base.{
  ℕ, zero, suc, Bool, Option, none, some, [], Bytes, bytes, ℤ, pos, negsuc, if◌then◌else◌,
}
use linux_web_audio_capture.Format.{
  Status, ok, err_inval, err_nomem, err_pulse, err_format, err_state,
}
use linux_web_audio_capture.Capture.{Capture, FormatInfo}

-- The values of `weba_status`.
unfoldable pub code : Status → ℤ
code ok = pos 0
code err_inval = negsuc 0
code err_nomem = negsuc 1
code err_pulse = negsuc 2
code err_format = negsuc 3
code err_state = negsuc 4

-- `weba_strerror`
unfoldable pub strerror : ℤ → Bytes
strerror (pos zero) = bytes "success"
strerror (pos (suc n)) = bytes "unknown error"
strerror (negsuc zero) = bytes "invalid argument"
strerror (negsuc (suc zero)) = bytes "out of memory"
strerror (negsuc (suc (suc zero))) = bytes "audio server error"
strerror (negsuc (suc (suc (suc zero)))) = bytes "unsupported audio format"
strerror (negsuc (suc (suc (suc (suc zero))))) = bytes "invalid state for this operation"
strerror (negsuc (suc (suc (suc (suc (suc n)))))) = bytes "unknown error"

-- `weba_capture_get_format`; `has_out` says that `out` is not null.
unfoldable pub get_format : Option Capture → Bool → Status × Option FormatInfo
get_format none has_out = (err_inval, none)
get_format (some c) has_out = if has_out then (ok, some c.format_info) else (err_inval, none)

-- `weba_capture_is_running`
unfoldable pub is_running : Option Capture → ℕ
is_running none = 0
is_running (some c) = if c.running then 1 else 0

-- `weba_capture_last_error`
unfoldable pub last_error : Option Capture → Bytes
last_error none = []
last_error (some c) = c.error

abbrev pub version_string : Bytes
version_string = bytes "1.0.0"
