-- ===== src/Mic/Tests.antt =====
-- The recording stream of src/pulse_mic.cpp in a stereo format.
use linux_web_audio_capture.Base.{
  ℕ, ◌<◌, ◌^◌, true, false, ◌≡◌, refl, ◌⊎◌, ◌↔◌, arith, none, some, Bytes, length, bytes, u32,
}
use linux_web_audio_capture.Format.{f32le}
use linux_web_audio_capture.Mic.{
  MicFormat, ChannelMap, Request, NewAnswer, new_stream, build_channel_map, channels_supported,
  map_sample_format, bytes_per_sample_of, fragment_size, frame_bytes, open_mic, finish_open,
}
use linux_web_audio_capture.Mic.Layout.{Distinct, channel_map_of_supported}
use linux_web_audio_capture.Mic.Size.{fragment_size_lem}
use linux_web_audio_capture.Mic.Opening.{Describes, open_mic_sound}

abbrev stereo : MicFormat
stereo = record { sample_rate = 48000; channels = 2; format = f32le; frame_samples = 960 }

abbrev granted : Request → NewAnswer
granted r = new_stream 7

abbrev monitor : Bytes
monitor = bytes "speakers.monitor"

open_mic_sound_example :
    (r : Request) × Describes r monitor stereo
    × ((s : ℕ) × (granted r ≡ new_stream s) × (some 7 ≡ some s))
unfolding open_mic channels_supported map_sample_format build_channel_map finish_open
open_mic_sound_example =
    open_mic_sound granted monitor stereo {mic = record { stream = some 7 }} (omega arith) refl

channel_map_of_supported_example :
    ((channels_supported 6 ≡ false) × (build_channel_map 6 ≡ none))
    ⊎ ((channels_supported 6 ≡ true)
        × ((m : ChannelMap) × (build_channel_map 6 ≡ some m)
            × (m.channels ≡ 6)
            × (length m.positions ≡ 6)
            × Distinct m.positions))
channel_map_of_supported_example = channel_map_of_supported 6

fragment_size_lem_example :
    (fragment_size stereo (bytes_per_sample_of f32le) ≡ u32 (frame_bytes stereo))
    × ((fragment_size stereo (bytes_per_sample_of f32le) ≡ frame_bytes stereo)
        ↔ (frame_bytes stereo < 2 ^ 32))
fragment_size_lem_example = fragment_size_lem stereo (omega arith) (omega arith)
