-- ===== src/Mic.antt =====
-- src/pulse_mic.h and src/pulse_mic.cpp: the recording stream. libpulse-simple is not part of the
-- program: what `pa_simple_new` and `pa_simple_read` answer is an argument of `open` and `read`.
pub mod Layout
pub mod Size
pub mod Opening
mod Tests
use linux_web_audio_capture.Base.{
  ℕ, ◌*◌, ◌-◌, ◌^◌, ◌%◌, Bool, true, false, not, ◌||◌, ◌==◌, if◌then◌else◌, Option, none, some,
  List, [], ◌∷◌, ◌++◌, Bytes, bytes, empty, to_string, overwrite, u32, u64,
}
use linux_web_audio_capture.Format.{SampleFormat, f32le, s16le, s32le, other_format}

-- `pa_channel_position_t` and `pa_sample_format_t`, as far as the source names them.
pub data Position : Type 0 where
  mono front_left front_right front_center lfe rear_left rear_right side_left side_right : Position

pub data PaFormat : Type 0 where
  pa_float32le pa_s16le pa_s32le : PaFormat

-- `mic_format_t`
pub record MicFormat : Type 0 where
  pub sample_rate : ℕ
  pub channels : ℕ
  pub format : SampleFormat
  pub frame_samples : ℕ

-- `pa_channel_map`, with the positions that are set.
pub record ChannelMap : Type 0 where
  pub channels : ℕ
  pub positions : List Position

abbrev pub stereo_map : List Position
stereo_map = front_left ∷ front_right ∷ []

abbrev pub surround51_map : List Position
surround51_map = front_left ∷ front_right ∷ front_center ∷ lfe ∷ rear_left ∷ rear_right ∷ []

abbrev pub surround71_map : List Position
surround71_map =
    front_left ∷ front_right ∷ front_center ∷ lfe ∷ rear_left ∷ rear_right ∷ side_left ∷ side_right
    ∷ []

-- `build_channel_map`. `map.channels` is a `uint8_t`.
unfoldable pub build_channel_map : ℕ → Option ChannelMap
build_channel_map channels =
    if channels == 1
    then some (record { channels = 1; positions = mono ∷ [] })
    else if channels == 2
    then some (record { channels = channels % 2 ^ 8; positions = stereo_map })
    else if channels == 6
    then some (record { channels = channels % 2 ^ 8; positions = surround51_map })
    else if channels == 8
    then some (record { channels = channels % 2 ^ 8; positions = surround71_map })
    else none

-- `map_sample_format`: PulseAudio's format and the bytes of a sample.
unfoldable pub map_sample_format : SampleFormat → Option (PaFormat × ℕ)
map_sample_format f32le = some (pa_float32le, 4)
map_sample_format s16le = some (pa_s16le, 2)
map_sample_format s32le = some (pa_s32le, 4)
map_sample_format (other_format n) = none

-- `bytes_per_sample_of`
unfoldable pub bytes_per_sample_of : SampleFormat → ℕ
bytes_per_sample_of f32le = 4
bytes_per_sample_of s16le = 2
bytes_per_sample_of s32le = 4
bytes_per_sample_of (other_format n) = 0

-- `channels_supported`
unfoldable pub channels_supported : ℕ → Bool
channels_supported channels = channels == 1 || channels == 2 || channels == 6 || channels == 8

-- `mic_t::frame_bytes`, in `size_t`.
unfoldable pub frame_bytes : MicFormat → ℕ
frame_bytes f = u64 (u64 (f.frame_samples * f.channels) * bytes_per_sample_of f.format)

-- What is passed to `pa_simple_new`: the device, the sample specification, the channel map and the
-- buffer attributes.
pub record Request : Type 0 where
  pub device : Bytes
  pub spec_format : PaFormat
  pub spec_rate : ℕ
  pub spec_channels : ℕ
  pub channel_map : ChannelMap
  pub maxlength : ℕ
  pub tlength : ℕ
  pub prebuf : ℕ
  pub minreq : ℕ
  pub fragsize : ℕ

-- Its answer: a stream, or the text of `pa_strerror` for the status.
pub data NewAnswer : Type 0 where
  new_stream : ℕ → NewAnswer
  new_failed : Bytes → NewAnswer

-- `mic_t`
pub record Mic : Type 0 where
  pub stream : Option ℕ

-- `mic_t::open` gives a stream, or no stream and the reason in `error`.
pub data Open : Type 0 where
  opened : Mic → Open
  not_opened : Bytes → Open

-- `static_cast<uint32_t>(-1)`
abbrev pub unset_length : ℕ
unset_length = 2 ^ 32 - 1

-- The product is a `uint32_t`.
unfoldable pub fragment_size : MicFormat → ℕ → ℕ
fragment_size f per_sample = u32 (u32 (f.frame_samples * f.channels) * per_sample)

abbrev pub request : Bytes → MicFormat → PaFormat → ℕ → ChannelMap → Request
request monitor f pa_format per_sample channel_map = record {
  device = monitor;
  spec_format = pa_format;
  spec_rate = f.sample_rate;
  spec_channels = f.channels % 2 ^ 8;
  channel_map = channel_map;
  maxlength = unset_length;
  tlength = unset_length;
  prebuf = unset_length;
  minreq = unset_length;
  fragsize = fragment_size f per_sample;
}

unfoldable pub finish_open : NewAnswer → Open
finish_open (new_stream s) = opened (record { stream = some s })
finish_open (new_failed text) = not_opened (bytes "pa_simple_new() failed: " ++ text)

open_mapped : (Request → NewAnswer) → Bytes → MicFormat → PaFormat × ℕ → Option ChannelMap → Open
open_mapped pa_simple_new monitor f (pa_format, per_sample) none =
    not_opened (bytes "no channel map for " ++ (to_string f.channels ++ bytes " channels"))
open_mapped pa_simple_new monitor f (pa_format, per_sample) (some channel_map) =
    finish_open (pa_simple_new (request monitor f pa_format per_sample channel_map))

open_format : (Request → NewAnswer) → Bytes → MicFormat → Option (PaFormat × ℕ) → Open
open_format pa_simple_new monitor f none = not_opened (bytes "unsupported sample format")
open_format pa_simple_new monitor f (some m) =
    open_mapped pa_simple_new monitor f m (build_channel_map f.channels)

-- `mic_t::open`
unfoldable pub open_mic : (Request → NewAnswer) → Bytes → MicFormat → Open
unfolding open_format open_mapped
open_mic pa_simple_new monitor f =
    if empty monitor
    then not_opened (bytes "empty monitor source name")
    else if not (channels_supported f.channels)
    then not_opened (
        bytes "unsupported channel count "
        ++ (to_string f.channels ++ bytes " (expected 1, 2, 6 or 8)"))
    else if f.frame_samples == 0
    then not_opened (bytes "frame size must not be zero")
    else open_format pa_simple_new monitor f (map_sample_format f.format)

-- What `pa_simple_read` does: it fills the buffer, or fails with the text of `pa_strerror`.
pub data ReadAnswer : Type 0 where
  read_bytes : Bytes → ReadAnswer
  read_failed : Bytes → ReadAnswer

-- `mic_t::read` gives the buffer as it leaves it, or the reason in `error`.
pub data Read : Type 0 where
  did_read : Bytes → Read
  did_not_read : Bytes → Read

read_stream : ReadAnswer → Bytes → Read
read_stream (read_bytes bs) dst = did_read (overwrite dst 0 bs)
read_stream (read_failed text) dst = did_not_read (bytes "pa_simple_read() failed: " ++ text)

-- `pa_simple_read` is called with the stream and the number of bytes.
unfoldable pub read : (ℕ → ℕ → ReadAnswer) → Mic → Bytes → ℕ → Read
unfolding read_stream
read pa_simple_read m dst n = elim m.stream [
  | none ↦ did_not_read (bytes "recording stream is not open")
  | some s ↦ read_stream (pa_simple_read s n) dst
]
