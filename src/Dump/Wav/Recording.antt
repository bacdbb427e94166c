-- ===== src/Dump/Wav/Recording.antt =====
-- The file that a recording of examples/webacap-dump.c leaves, read back.
use linux_web_audio_capture.Base.{
  ℕ, zero, suc, ◌+◌, ◌-◌, ◌^◌, ◌≤◌, ◌<◌, false, ◌≡◌, refl, sym, ap, ap₂, ◌∙◌, arith, some, List, [],
  ◌∷◌, ◌++◌, append-nil, append_assoc, Bytes, length, length-append, take, drop, take_all, u32,
}
use linux_web_audio_capture.Capture.{Capture, FormatInfo}
use linux_web_audio_capture.Capture.Read.{
  read_one, read_none, read_error, Outcome, finished, unfinished,
}
use linux_web_audio_capture.Dump.Wav.{read_wav, wav_of, Fits, frames_after, frames_read}
use linux_web_audio_capture.Dump.Wav.Header.{
  header, put_header-header, put_sizes-header, read_wav-header,
}
use linux_web_audio_capture.Dump.{
  File, fwrite, frame_bytes, Dump, put_frame, Turn, after_read, record_frames, put_sizes, dump,
}

-- A write at the end of a file appends.
drop_all {ℓ} : {A : Type ℓ} (n : ℕ) (xs : List A) → length xs ≤ n → drop n xs ≡ []
drop_all zero [] h = refl
drop_all zero (x ∷ xs) h = absurd (omega arith)
drop_all (suc n) [] h = refl
drop_all (suc n) (x ∷ xs) h = drop_all n xs (omega arith)

fwrite-end :
    (bs : Bytes) (f : File)
    → f.position ≡ length f.content
    → ((fwrite bs f).content ≡ f.content ++ bs)
      × ((fwrite bs f).position ≡ length (fwrite bs f).content)
unfolding fwrite
fwrite-end bs f h =
    let kept = take_all f.position f.content (omega (arith, h)) in
    let none_behind = drop_all (f.position + length bs) f.content (omega (arith, h)) in
    let e =
      ap₂ (λ a b. a ++ (bs ++ b)) kept none_behind ∙ ap (λ b. f.content ++ b) (append-nil bs) in
    (e, ap (λ n. n + length bs) h ∙ sym (ap length e ∙ length-append f.content bs))

-- What the loop adds to the file, from its position at the end.
Records : File → Bytes → File → Type 0
Records f bs g = (g.content ≡ f.content ++ bs) × (g.position ≡ length g.content)

after_read-Records :
    (i : FormatInfo) (d : Dump) (o : Outcome) (more : Dump → Dump) (given : Bytes → Capture → Bytes)
    → d.out.position ≡ length d.out.content
    → ((e : Dump)
        → e.out.position ≡ length e.out.content
        → Records e.out (given e.buffer e.capture) (more e).out)
    → Records d.out (frames_after i o given) (after_read i d o more).out
unfolding after_read put_frame frames_after Records
after_read-Records i d (finished read_one buffer frame c) more given h rest =
    let w = fwrite-end (take (frame_bytes i) buffer) d.out h in
    let r = rest _ w.1 in
    (r.0 ∙ ap (λ b. b ++ given buffer c) w.0 ∙ append_assoc d.out.content _ (given buffer c), r.1)
after_read-Records i d (finished read_none buffer frame c) more given h rest = rest _ h
after_read-Records i d (finished (read_error s) buffer frame c) more given h rest =
    (sym (append-nil d.out.content), h)
after_read-Records i d (unfinished c) more given h rest = (sym (append-nil d.out.content), h)

record_frames-Records :
    (i : FormatInfo) (ts : List Turn) (d : Dump)
    → d.out.position ≡ length d.out.content
    → Records d.out (frames_read i ts d.buffer d.capture) (record_frames i ts d).out
unfolding record_frames frames_read
record_frames-Records i [] d h = unfold Records in (sym (append-nil d.out.content), h)
record_frames-Records i (t ∷ ts) d h =
    after_read-Records i d _ (record_frames i ts) (frames_read i ts) h (record_frames-Records i ts)

put_sizes-content :
    (i : FormatInfo) (samples : Bytes) (f : File)
    → f.content ≡ header i 0 0 samples
    → let n = u32 (f.position - 44) in (put_sizes 44 f).content ≡ header i (u32 (36 + n)) n samples
put_sizes-content i samples f e =
    ap (λ bs. (put_sizes 44 (record { content = bs; position = f.position })).content) e
    ∙ put_sizes-header i samples f.position

put_sizes-lengths :
    (i : FormatInfo) (samples : Bytes) (f : File)
    → f.content ≡ header i 0 0 samples
    → f.position ≡ length f.content
    → 36 + length samples < 2 ^ 32
    → (put_sizes 44 f).content ≡ header i (36 + length samples) (length samples) samples
put_sizes-lengths i samples f e at h =
    let n : u32 (f.position - 44) ≡ length samples = omega (arith, at, ap length e, h) in
    put_sizes-content i samples f e
    ∙ ap (λ k. header i (u32 (36 + k)) k samples) n
    ∙ ap (λ k. header i k (length samples) samples) (omega arith)

-- The loop's state when the header is written.
abbrev opened_dump : FormatInfo → Bytes → Capture → Dump
opened_dump i buffer c = record {
  capture = c;
  buffer = buffer;
  out = record { content = header i 0 0 []; position = 44 };
  frames = 0;
  silent = 0;
  gaps = 0;
  dropped = 0;
  in_call = false;
}

over_records :
    (i : FormatInfo) (ts : List Turn) (buffer : Bytes) (c : Capture)
    → (dump i ts buffer c).in_call ≡ false
    → (record_frames i ts (opened_dump i buffer c)).in_call ≡ false
unfolding dump
over_records i ts buffer c h = ground (arith, rw (put_header-header i) at h)

-- The file of a recording whose loop is over, whatever its turns were: a reader finds the format of
-- the capture, and as samples the frames that the calls gave, if the numbers of the format fit
-- their fields and the file is shorter than 2 ^ 32 bytes by the eight that its size leaves out.
pub read_wav-dump :
    (i : FormatInfo) (ts : List Turn) (buffer : Bytes) (c : Capture)
    → Fits i
    → (dump i ts buffer c).in_call ≡ false
    → 36 + length (frames_read i ts buffer c) < 2 ^ 32
    → read_wav (dump i ts buffer c).out.content ≡ some (wav_of i (frames_read i ts buffer c))
unfolding dump Records
read_wav-dump i ts buffer c fits over h =
    rw (put_header-header i, over_records i ts buffer c over)
      (let samples = frames_read i ts buffer c in
        let r = record_frames-Records i ts (opened_dump i buffer c) refl in
        ap read_wav
          (put_sizes-lengths i samples (record_frames i ts (opened_dump i buffer c)).out r.0 r.1 h)
        ∙ read_wav-header i samples fits h)

-- The length of the file.
pub length-dump :
    (i : FormatInfo) (ts : List Turn) (buffer : Bytes) (c : Capture)
    → (dump i ts buffer c).in_call ≡ false
    → length (dump i ts buffer c).out.content ≡ 44 + length (frames_read i ts buffer c)
unfolding dump Records
length-dump i ts buffer c over =
    rw (put_header-header i, over_records i ts buffer c over)
      (let r = record_frames-Records i ts (opened_dump i buffer c) refl in
        ap length (
          put_sizes-content i (frames_read i ts buffer c)
            (record_frames i ts (opened_dump i buffer c)).out r.0)
        ∙ omega arith)
