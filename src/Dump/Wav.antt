-- ===== src/Dump/Wav.antt =====
-- The file that examples/webacap-dump.c leaves, as a reader of WAV files sees it.
pub mod Header
pub mod Recording
use linux_web_audio_capture.Base.{
  ℕ, zero, suc, ◌+◌, ◌-◌, ◌*◌, ◌/◌, ◌%◌, ◌^◌, ◌≤◌, ◌<◌, Bool, true, false, ◌&&◌, if◌then◌else◌,
  ◌==◌, ◌≡◌, refl, sym, ap, ap₂, ◌∙◌, arith, Option, none, some, List, [], ◌∷◌, ◌++◌, append-nil,
  append_assoc, Bytes, bytes, length, length-append, take, drop, slice, take_all, same_bytes, u32,
  pos,
}
use linux_web_audio_capture.Format.{SampleFormat, f32le, s16le, s32le, other_format}
use linux_web_audio_capture.Capture.{Capture, FormatInfo, acts}
use linux_web_audio_capture.Capture.Read.{
  read_one, read_none, read_error, Outcome, finished, unfinished, read_frame,
}
use linux_web_audio_capture.Dump.{
  File, new_file, fwrite, put_u32le, put_u16le, sample_bytes, wav_format_code, frame_bytes,
  put_header, Dump, put_frame, Turn, after_read, record_frames, put_sizes, dump,
}

-- A number from its bytes, the lowest first.
abbrev pub le : Bytes → ℕ
le [] = 0
le (b ∷ bs) = b + 256 * le bs

-- The content of a WAV file of one `fmt ` and one `data` chunk.
pub record Wav : Type 0 where
  pub format_code : ℕ
  pub channels : ℕ
  pub sample_rate : ℕ
  pub byte_rate : ℕ
  pub block_align : ℕ
  pub bits : ℕ
  pub samples : Bytes

-- The tags stand where they should, and each size is that of what follows it.
abbrev pub well_formed : Bytes → Bool
well_formed bs =
    same_bytes (slice 0 4 bs) (bytes "RIFF")
    && (le (slice 4 4 bs) == length bs - 8
        && (same_bytes (slice 8 8 bs) (bytes "WAVEfmt ")
            && (le (slice 16 4 bs) == 16
                && (same_bytes (slice 36 4 bs) (bytes "data")
                    && le (slice 40 4 bs) == length bs - 44))))

unfoldable pub read_wav : Bytes → Option Wav
read_wav bs =
    if well_formed bs
    then some (record {
      format_code = le (slice 20 2 bs);
      channels = le (slice 22 2 bs);
      sample_rate = le (slice 24 4 bs);
      byte_rate = le (slice 28 4 bs);
      block_align = le (slice 32 2 bs);
      bits = le (slice 34 2 bs);
      samples = drop 44 bs;
    })
    else none

-- What a reader makes of a format.
abbrev pub wav_of : FormatInfo → Bytes → Wav
wav_of i samples = record {
  format_code = wav_format_code i.format;
  channels = i.channels;
  sample_rate = i.sample_rate;
  byte_rate = i.sample_rate * i.channels * sample_bytes i.format;
  block_align = i.channels * sample_bytes i.format;
  bits = 8 * sample_bytes i.format;
  samples = samples;
}

-- A format whose numbers fit the fields of the header.
pub record Fits (i : FormatInfo) : Type 0 where
  pub channels : i.channels ≤ 8
  pub sample_rate : i.sample_rate < 2 ^ 32
  pub byte_rate : i.sample_rate * i.channels * sample_bytes i.format < 2 ^ 32

-- The frames that the calls of a recording give, one after the other.
pub frames_after : FormatInfo → Outcome → (Bytes → Capture → Bytes) → Bytes
frames_after i (finished read_one buffer frame c) more =
    take (frame_bytes i) buffer ++ more buffer c
frames_after i (finished read_none buffer frame c) more = more buffer c
frames_after i (finished (read_error s) buffer frame c) more = []
frames_after i (unfinished c) more = []

unfoldable pub frames_read : FormatInfo → List Turn → Bytes → Capture → Bytes
unfolding frames_after
frames_read i [] buffer c = []
frames_read i (t ∷ ts) buffer c =
    frames_after i
      (read_frame (acts t.before c) (some buffer) i.frame_samples true (pos 1000) t.entered
        t.rounds)
      (frames_read i ts)
