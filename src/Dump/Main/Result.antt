-- ===== src/Dump/Main/Result.antt =====
-- What a successful run of examples/webacap-dump.c leaves.
use linux_web_audio_capture.Base.{
  ◌^◌, ◌<◌, true, false, Bool-cases, ◌≡◌, refl, sym, ap, ◌∙◌, subst, inl, inr, arith, Option, none,
  some, Bytes, length,
}
use linux_web_audio_capture.Format.{
  Status, ok, err_inval, err_nomem, err_pulse, err_format, err_state, f32le, Target,
}
use linux_web_audio_capture.FrameQueue.{FrameQueue}
use linux_web_audio_capture.Control.{Server}
use linux_web_audio_capture.Capture.{Capture, FormatInfo, publish_format}
use linux_web_audio_capture.Capture.Create.{
  config_defaults, Created, created, not_created, threw, create, configure, fresh,
}
use linux_web_audio_capture.Capture.Create.Accepting.{create-configured}
use linux_web_audio_capture.Api.{Started, started, start_terminated, is_ok, start, Destroyed}
use linux_web_audio_capture.Api.Queries.{get_format}
use linux_web_audio_capture.Api.Starting.{Running, start_lem}
use linux_web_audio_capture.Dump.{dump, frame_bytes, sample_bytes, wav_format_code}
use linux_web_audio_capture.Dump.Wav.{Wav, read_wav, wav_of, Fits, frames_read}
use linux_web_audio_capture.Dump.Wav.Recording.{read_wav-dump, length-dump}
use linux_web_audio_capture.Dump.Main.{
  argument, path, sink_asked, turns_of, World, exits, with_buffer, with_format, with_started,
  with_handle, main,
}

-- The recording that a run with a file has made.
record Recorded (w : World) (file : Bytes) : Type 0 where
  handle : Capture
  capture : Capture
  buffer : Bytes
  created_as :
      create w.room w.has_handle true (some (record config_defaults { sink = sink_asked w }))
      ≡ created handle
  allocated : w.malloc (frame_bytes capture.format_info) ≡ some buffer
  started_as : start w.connect w.server w.failed_start handle ≡ started ok capture
  over : (dump capture.format_info (turns_of w) buffer capture).in_call ≡ false
  written : file ≡ (dump capture.format_info (turns_of w) buffer capture).out.content

with_buffer-file :
    (w : World) (c : Capture) (i : FormatInfo) (o : Option Bytes) {file : Bytes}
    {d : Option Destroyed}
    → with_buffer w c i o ≡ exits 0 (some file) d
    → (buffer : Bytes) × (o ≡ some buffer)
      × ((dump i (turns_of w) buffer c).in_call ≡ false)
      × (file ≡ (dump i (turns_of w) buffer c).out.content)
unfolding with_buffer
with_buffer-file w c i none h = cc
with_buffer-file w c i (some buffer) h = elim (Bool-cases (w.can_open (path w))) [
  | inl e ↦ (buffer, refl, ground (arith, h, e), ground (arith, h, e))
  | inr e ↦ ground (arith, h, e)
]

is_ok-eq : (s : Status) → is_ok s ≡ true → s ≡ ok
is_ok-eq ok h = refl
is_ok-eq err_inval h = cc
is_ok-eq err_nomem h = cc
is_ok-eq err_pulse h = cc
is_ok-eq err_format h = cc
is_ok-eq err_state h = cc

with_started-file :
    (w : World) (st : Started) {file : Bytes} {d : Option Destroyed}
    → with_started w st ≡ exits 0 (some file) d
    → (c : Capture) × (st ≡ started ok c)
      × ((buffer : Bytes) × (w.malloc (frame_bytes c.format_info) ≡ some buffer)
          × ((dump c.format_info (turns_of w) buffer c).in_call ≡ false)
          × (file ≡ (dump c.format_info (turns_of w) buffer c).out.content))
unfolding with_started with_format get_format
with_started-file w start_terminated h = cc
with_started-file w (started status c) h = elim (Bool-cases (is_ok status)) [
  | inl e ↦ (
    c,
    ap (λ s. started s c) (is_ok-eq status e),
    with_buffer-file w c c.format_info (w.malloc (frame_bytes c.format_info)) (rw e at h),
  )
  | inr e ↦ cc (rw e at h)
]

with_handle-file :
    (w : World) (m : Created) {file : Bytes} {d : Option Destroyed}
    → with_handle w m ≡ exits 0 (some file) d
    → (c : Capture) × (m ≡ created c)
      × (with_started w (start w.connect w.server w.failed_start c) ≡ exits 0 (some file) d)
unfolding with_handle
with_handle-file w threw h = cc
with_handle-file w (not_created s) h = cc
with_handle-file w (created c) h = (c, refl, h)

main-Recorded :
    (w : World) {file : Bytes} {d : Option Destroyed}
    → main w ≡ exits 0 (some file) d
    → Recorded w file
unfolding main
main-Recorded w h =
    let (c0, made, h') = with_handle-file w _ h in
    let (c, st, (buffer, allocated, over, written)) = with_started-file w _ h' in
    record {
      handle = c0;
      capture = c;
      buffer = buffer;
      created_as = made;
      allocated = allocated;
      started_as = st;
      over = over;
      written = written;
    }

-- The default format.
abbrev IsDefault : FormatInfo → Type 0
IsDefault i = (i.sample_rate ≡ 48000) × (i.channels ≡ 2) × (i.format ≡ f32le)

published-IsDefault :
    (sink : Option Bytes) (q : FrameQueue) (t : Target)
    → let c = configure (some (record config_defaults { sink = sink })) fresh in
      IsDefault (publish_format t (record c { queue = q })).format_info
unfolding publish_format configure config_defaults
published-IsDefault sink q t = (refl, refl, refl)

Running-format :
    (s : Server) (c d : Capture)
    → (r : Running s c d) → (publish_format r.target c).format_info ≡ d.format_info
unfolding get_format publish_format
Running-format s c d r = cc (r.format)

Recorded-IsDefault :
    (w : World) {file : Bytes} → (r : Recorded w file) → IsDefault r.capture.format_info
Recorded-IsDefault w r = elim (start_lem w.connect w.server w.failed_start r.handle r.started_as) [
  | inl (_, running) ↦
      let (q, e) =
        create-configured w.room w.has_handle true
          (some (record config_defaults { sink = sink_asked w })) r.created_as in
      subst IsDefault (Running-format w.server r.handle r.capture running) (
        subst (λ c. IsDefault (publish_format running.target c).format_info) (sym e)
          (published-IsDefault (sink_asked w) q running.target))
  | inr (failed, _, _, _) ↦ cc (failed)
]

IsDefault-Fits : (i : FormatInfo) → IsDefault i → Fits i
IsDefault-Fits i (rate, channels, format) =
    let code : sample_bytes i.format ≡ 4 = ap sample_bytes format in
    record {
      channels = omega (arith, channels);
      sample_rate = omega (arith, rate);
      byte_rate = rw (rate, channels, code) (omega arith);
    }

-- What a reader finds in the file of a recording in the default format.
abbrev pub default_wav : Bytes → Wav
default_wav samples = record {
  format_code = 3;
  channels = 2;
  sample_rate = 48000;
  byte_rate = 384000;
  block_align = 8;
  bits = 32;
  samples = samples;
}

IsDefault-wav :
    (i : FormatInfo) (samples : Bytes) → IsDefault i → wav_of i samples ≡ default_wav samples
IsDefault-wav i samples (rate, channels, format) =
    let size : sample_bytes i.format ≡ 4 = ap sample_bytes format in
    let kind : wav_format_code i.format ≡ 3 = ap wav_format_code format in
    rw (rate, channels, size, kind)

-- A run of examples/webacap-dump.c that exits with 0 and leaves a file of fewer than 2 ^ 32 bytes
-- has created a handle with the default configuration and its third argument as the sink, if there
-- is one, has started it with success, and has recorded the started capture through a buffer that
-- `malloc` gave for one frame of its format. A reader of WAV files finds 32 bit float samples in
-- two channels at 48 kHz in the file, with its sizes right, and as samples exactly the frames that
-- `weba_capture_read_frame` gave, in order.
pub main_lem :
    (w : World) {file : Bytes} {d : Option Destroyed}
    → main w ≡ exits 0 (some file) d
    → length file < 2 ^ 32
    → (handle : Capture) × (c : Capture) × (buffer : Bytes) × (create w.room w.has_handle true
          (some (record config_defaults { sink = argument 2 w.args }))
        ≡ created handle)
      × (start w.connect w.server w.failed_start handle ≡ started ok c)
      × (w.malloc (frame_bytes c.format_info) ≡ some buffer)
      × (read_wav file ≡ some (default_wav (frames_read c.format_info (turns_of w) buffer c)))
main_lem w {file} h small =
    let r = main-Recorded w h in
    let i = r.capture.format_info in
    let default = Recorded-IsDefault w r in
    let samples = frames_read i (turns_of w) r.buffer r.capture in
    let size = length-dump i (turns_of w) r.buffer r.capture r.over in
    (
      r.handle,
      r.capture,
      r.buffer,
      r.created_as,
      r.started_as,
      r.allocated,
      ap read_wav r.written
          ∙ read_wav-dump i (turns_of w) r.buffer r.capture (IsDefault-Fits i default) r.over
              (omega (arith, ap length r.written, size, small))
          ∙ ap some (IsDefault-wav i samples default),
    )
