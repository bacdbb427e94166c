-- ===== src/Dump.antt =====
-- examples/webacap-dump.c: a client that records frames to a WAV file. Files are those of stdio, as long
-- as every write has room; what the program prints is left out.
pub mod Wav
pub mod Ending
pub mod Main
mod Tests
use Prim.Native.Nat.{bit_and}
use linux_web_audio_capture.Base.{
  ℕ, ◌+◌, ◌-◌, ◌*◌, ◌/◌, ◌%◌, ◌^◌, Bool, true, false, if◌then◌else◌, ltb, ◌==◌, Option, none, some,
  List, [], ◌∷◌, ◌++◌, Bytes, bytes, length, take, drop, pos, u32, u64,
}
use linux_web_audio_capture.Format.{SampleFormat, f32le, s16le, s32le, other_format}
use linux_web_audio_capture.Capture.{
  Capture, FormatInfo, Act, acts, discontinuity, silence, underrun, reinit,
}
use linux_web_audio_capture.Capture.Read.{
  FrameInfo, ReadStatus, read_one, read_none, read_error, Round, Outcome, finished, unfinished,
  read_frame,
}

-- A file opened for writing: its bytes, and the position.
pub record File : Type 0 where
  pub content : Bytes
  pub position : ℕ

abbrev pub new_file : File
new_file = record { content = []; position = 0 }

-- `fwrite` of a block of bytes, `fseek` from the start; `ftell` is the position.
unfoldable pub fwrite : Bytes → File → File
fwrite bs f = record {
  content = take f.position f.content ++ (bs ++ drop (f.position + length bs) f.content);
  position = f.position + length bs;
}

abbrev pub fputc : ℕ → File → File
fputc c f = fwrite (c ∷ []) f

abbrev pub fseek : ℕ → File → File
fseek i f = record f { position = i }

-- `put_u32le` and `put_u16le`: a shift by eight bits is a division, the mask a remainder.
unfoldable pub put_u32le : ℕ → File → File
put_u32le value f =
    fputc (value / 2 ^ 24 % 256)
      (fputc (value / 2 ^ 16 % 256) (fputc (value / 2 ^ 8 % 256) (fputc (value % 256) f)))

unfoldable pub put_u16le : ℕ → File → File
put_u16le value f = fputc (value / 2 ^ 8 % 256) (fputc (value % 256) f)

-- `sample_bytes` and `wav_format_code`
abbrev pub sample_bytes : SampleFormat → ℕ
sample_bytes s16le = 2
sample_bytes f32le = 4
sample_bytes s32le = 4
sample_bytes (other_format n) = 4

abbrev pub wav_format_code : SampleFormat → ℕ
wav_format_code f32le = 3
wav_format_code s16le = 1
wav_format_code s32le = 1
wav_format_code (other_format n) = 1

-- `flag_names`: `strncat` never writes past the `size` bytes of the buffer, its NUL included.
abbrev pub strncat : ℕ → Bytes → Bytes → Bytes
strncat size text buffer = buffer ++ take (size - length buffer - 1) text

abbrev pub name_if : ℕ → ℕ → Bytes → ℕ → Bytes → Bytes
name_if flag flags text size buffer =
    if bit_and flags flag == 0 then buffer else strncat size text buffer

unfoldable pub flag_names : ℕ → ℕ → Bytes
flag_names flags size = name_if reinit flags (bytes "reinit ") size (
    name_if underrun flags (bytes "underrun ") size (
      name_if silence flags (bytes "silence ") size
        (name_if discontinuity flags (bytes "discontinuity ") size [])))

-- The size of a frame, in `size_t`.
abbrev pub frame_bytes : FormatInfo → ℕ
frame_bytes i = u64 (u64 (i.frame_samples * i.channels) * sample_bytes i.format)

-- The header with sizes that are filled in later. `channels` and `bits` are `uint16_t`.
unfoldable pub put_header : FormatInfo → File → File
put_header i f =
    let channels = i.channels % 2 ^ 16 in
    let bits = sample_bytes i.format * 8 in
    let riff = fwrite (bytes "WAVEfmt ") (put_u32le 0 (fwrite (bytes "RIFF") f)) in
    let kind = put_u16le channels (put_u16le (wav_format_code i.format) (put_u32le 16 riff)) in
    let rate =
      put_u32le (u32 (u32 (i.sample_rate * channels) * sample_bytes i.format))
        (put_u32le i.sample_rate kind) in
    let block = put_u16le bits (put_u16le (channels * sample_bytes i.format % 2 ^ 16) rate) in
    put_u32le 0 (fwrite (bytes "data") block)

-- The locals of the loop: the capture, the buffer, the file and the four counters; and whether a call
-- that has not come back is still running.
pub record Dump : Type 0 where
  pub capture : Capture
  pub buffer : Bytes
  pub out : File
  pub frames : ℕ
  pub silent : ℕ
  pub gaps : ℕ
  pub dropped : ℕ
  pub in_call : Bool

abbrev pub count_if : ℕ → ℕ → ℕ → ℕ
count_if flag flags n = if bit_and flags flag == 0 then n else u64 (n + 1)

-- A frame that was read is written and counted. The call always asks for the info.
unfoldable pub put_frame : FormatInfo → Bytes → FrameInfo → Capture → Dump → Dump
put_frame i buffer frame c d = record {
  capture = c;
  buffer = buffer;
  out = fwrite (take (frame_bytes i) buffer) d.out;
  frames = u64 (d.frames + 1);
  silent = count_if silence frame.flags d.silent;
  gaps = count_if discontinuity frame.flags d.gaps;
  dropped = u64 (d.dropped + frame.dropped_frames);
  in_call = false;
}

abbrev pub no_frame_info : FrameInfo
no_frame_info = record { timestamp_ns = 0; flags = 0; dropped_frames = 0 }

abbrev pub info_of : Option FrameInfo → FrameInfo
info_of none = no_frame_info
info_of (some frame) = frame

-- A turn of the loop while its deadline is ahead: what other threads do before it, the clock at the call
-- and the rounds of the call.
pub record Turn : Type 0 where
  pub before : List Act
  pub entered : ℕ
  pub rounds : List Round

-- The loop leaves with a failed read, and stays where the call does not come back.
after_read : FormatInfo → Dump → Outcome → (Dump → Dump) → Dump
after_read i d (finished read_one buffer frame c) more =
    more (put_frame i buffer (info_of frame) c d)
after_read i d (finished read_none buffer frame c) more =
    more (record d { capture = c; buffer = buffer })
after_read i d (finished (read_error s) buffer frame c) more = record d {
  capture = c;
  buffer = buffer;
}
after_read i d (unfinished c) more = record d { capture = c; in_call = true }

-- The loop, over the turns for which there is time.
unfoldable pub record_frames : FormatInfo → List Turn → Dump → Dump
unfolding after_read
record_frames i [] d = d
record_frames i (t ∷ ts) d =
    after_read i d
      (read_frame (acts t.before d.capture) (some d.buffer) i.frame_samples true (pos 1000)
        t.entered t.rounds)
      (record_frames i ts)

-- The sizes are filled in when the length is known. Positions are `long`s.
unfoldable pub put_sizes : ℕ → File → File
put_sizes data_offset f =
    let data_bytes = u32 (f.position - data_offset) in
    put_u32le data_bytes (fseek (data_offset - 4) (put_u32le (u32 (36 + data_bytes)) (fseek 4 f)))

-- The loop's start, when the header is written.
abbrev pub opened : FormatInfo → Bytes → Capture → Dump
opened i buffer c = record {
  capture = c;
  buffer = buffer;
  out = put_header i new_file;
  frames = 0;
  silent = 0;
  gaps = 0;
  dropped = 0;
  in_call = false;
}

-- From the opened file to the closed one, or to a call that does not come back.
unfoldable pub dump : FormatInfo → List Turn → Bytes → Capture → Dump
dump i ts buffer c =
    let d = record_frames i ts (opened i buffer c) in
    if d.in_call then d else record d { out = put_sizes (opened i buffer c).out.position d.out }
