-- ===== src/SelfTest/Streaming.antt =====
-- The loop of `read_frames` in tests/webaudio_selftest.cpp, where the sleeps of the library last as long as it
-- asks for.
use linux_web_audio_capture.Base.{
  ℕ, ◌+◌, ◌≤◌, suc, true, false, ◌≡◌, refl, ◌∙◌, sym, subst, arith, some, List, [], ◌∷◌, Bytes,
  length, pos,
}
use linux_web_audio_capture.Capture.{Capture, FormatInfo, acts, period_ns, silence, discontinuity}
use linux_web_audio_capture.Capture.Read.First.{paced, paced-Paces, call-paced}
use linux_web_audio_capture.Capture.Read.{
  read_one, read_none, read_error, Round, Outcome, finished, unfinished, next_deadline_after,
}
use linux_web_audio_capture.Capture.Read.Cadence.{Paces}
use linux_web_audio_capture.Capture.Read.Ending.{call_of}
use linux_web_audio_capture.Capture.Read.Session.{call, capture_after}
use linux_web_audio_capture.Capture.Read.Open.{StaysOpen, Flows}
use linux_web_audio_capture.Capture.Read.Steady.{Fixed, Steady, acts-Fixed, read_frame-Steady}
use linux_web_audio_capture.Capture.Read.Stream.{Patient}
use linux_web_audio_capture.Capture.Read.Gives.{Gives}
use linux_web_audio_capture.Capture.Read.Giving.{TwoRounds, TwoRounds-Comes, giving, call-GivesAt}
use linux_web_audio_capture.SelfTest.Reads.{
  Turn, Reading, input_of, after_call, read_frames, count_if, flags_of,
}

-- The deadline that a call for a frame due at `d` leaves, with period `p`.
abbrev pub next_of : ℕ → ℕ → List Round → ℕ
next_of d p [] = d
next_of d p (r ∷ []) = d
next_of d p (r ∷ r' ∷ rs) = next_deadline_after d p (giving d r r').after

-- Turns in which each call has two rounds and its sleep lasts as long as it asks for, begins before its frame
-- is late by more than its timeout, and nobody closes the queue.
unfoldable pub InTime : ℕ → ℕ → List Turn → Type 0
InTime d p [] = Unit {0}
InTime d p (t ∷ ts) =
    StaysOpen t.before
    × (d + 1_000_000 ≤ t.entered + 1_000_000_000)
    × TwoRounds (call_of true t.entered (pos 1000)) d t.rounds
    × InTime (next_of d p t.rounds) p ts

-- What a capture is like between the calls.
pub record Streams (d p n : ℕ) (c : Capture) : Type 0 where
  pub paces : Paces d p c
  pub flows : Flows c
  pub fixed : Fixed false n c

after-Fixed : (n : ℕ) (o : Outcome) → Steady false n o → Fixed false n (capture_after o)
after-Fixed n (finished s dst info c) h = h
after-Fixed n (unfinished c) h = h

Gives-Flows : (o : Outcome) → Gives o → Flows (capture_after o)
Gives-Flows (finished read_one dst info c) h = h
Gives-Flows (finished read_none dst info c) h = absurd h
Gives-Flows (finished (read_error s) dst info c) h = absurd h
Gives-Flows (unfinished c) h = absurd h

turn-Patient :
    {d p : ℕ} (i : FormatInfo) (t : Turn) (rs : List Round) (buffer : Bytes) (c : Capture)
    → t.rounds ≡ rs
    → Streams d p i.frame_samples c
    → StaysOpen t.before
    → d + 1_000_000 ≤ t.entered + 1_000_000_000
    → TwoRounds (call_of true t.entered (pos 1000)) d rs
    → Patient c (input_of i t buffer)
turn-Patient {d} i t rs buffer c e s o time two = record {
  buffer = buffer;
  dst = refl;
  room = omega (arith, s.fixed.1);
  before = o;
  time = omega (arith, time, s.paces.deadline);
  rounds =
      rw (e, s.paces.deadline)
        (TwoRounds-Comes (call_of true t.entered (pos 1000)) d rs (omega (arith, time)) two);
}

call-Streams :
    {d p : ℕ} (i : FormatInfo) (t : Turn) (rs : List Round) (buffer : Bytes) (c : Capture)
    → t.rounds ≡ rs
    → Streams d p i.frame_samples c
    → StaysOpen t.before
    → d + 1_000_000 ≤ t.entered + 1_000_000_000
    → TwoRounds (call_of true t.entered (pos 1000)) d rs
    → Gives (call (input_of i t buffer) c)
      × Streams (next_of d p rs) p i.frame_samples (capture_after (call (input_of i t buffer) c))
call-Streams i t [] buffer c e s o time two = absurd two
call-Streams i t (r ∷ []) buffer c e s o time two = absurd two
call-Streams {d} {p} i t (r ∷ r' ∷ rs) buffer c e s o time two =
    let patient = turn-Patient i t (r ∷ r' ∷ rs) buffer c e s o time two in
    let (due, gives, paces) =
      call-GivesAt (input_of i t buffer) r r' rs c e two patient s.paces s.flows in
    (
      gives,
      record {
        paces = paces;
        flows = Gives-Flows (call (input_of i t buffer) c) gives;
        fixed = after-Fixed i.frame_samples (call (input_of i t buffer) c) (
            read_frame-Steady false i.frame_samples (acts t.before c) (some buffer) i.frame_samples
              true (pos 1000) t.entered t.rounds
              (acts-Fixed false i.frame_samples t.before c s.fixed));
      },
    )

-- The reading behind a call that gave a frame.
abbrev given : Reading → Outcome → Reading
given d (finished s buffer info c) = record {
  capture = c;
  buffer = buffer;
  frames = suc d.frames;
  silent = count_if silence (flags_of info) d.silent;
  gaps = count_if discontinuity (flags_of info) d.gaps;
  failed = d.failed;
  in_call = d.in_call;
}
given d (unfinished c) = d

after_call-given :
    (d : Reading) (o : Outcome) (more : Reading → Reading)
    → Gives o
    → after_call d o more ≡ more (given d o)
after_call-given d (finished read_one buffer info c) more g = refl
after_call-given d (finished read_none buffer info c) more g = absurd g
after_call-given d (finished (read_error s) buffer info c) more g = absurd g
after_call-given d (unfinished c) more g = absurd g

-- What is counted behind a call, and the capture there.
given-counts :
    (d : Reading) (o : Outcome)
    → Gives o
    → ((given d o).frames ≡ suc d.frames)
      × ((given d o).failed ≡ d.failed)
      × ((given d o).in_call ≡ d.in_call)
      × ((given d o).capture ≡ capture_after o)
given-counts d (finished s buffer info c) g = (refl, refl, refl, refl)
given-counts d (unfinished c) g = absurd g

-- All the calls gave a frame, and the thread was not abandoned.
pub record AllRead (n : ℕ) (d e : Reading) : Type 0 where
  pub frames : e.frames ≡ d.frames + n
  pub failed : e.failed ≡ d.failed
  pub in_call : e.in_call ≡ d.in_call
  pub kept : e.capture.thread_abandoned ≡ false

AllRead-given :
    (n : ℕ) (d e : Reading) (o : Outcome) → Gives o → AllRead n (given d o) e → AllRead (suc n) d e
AllRead-given n d e o g h =
    let (frames, failed, in_call, _) = given-counts d o g in
    record {
      frames = omega (arith, h.frames, frames);
      failed = h.failed ∙ failed;
      in_call = h.in_call ∙ in_call;
      kept = h.kept;
    }

read_frames-AllRead :
    (ts : List Turn) (d p : ℕ) (i : FormatInfo) (x : Reading)
    → Streams d p i.frame_samples x.capture
    → InTime d p ts
    → AllRead (length ts) x (read_frames i ts x)
unfolding read_frames InTime
read_frames-AllRead [] d p i x s h = record {
  frames = omega arith;
  failed = refl;
  in_call = refl;
  kept = s.fixed.2;
}
read_frames-AllRead (t ∷ ts) d p i x s (o, time, two, more) =
    let out = call (input_of i t x.buffer) x.capture in
    let (gives, next) = call-Streams i t t.rounds x.buffer x.capture refl s o time two in
    let same = (given-counts x out gives).3 in
    rw (after_call-given x out (read_frames i ts) gives) (
      AllRead-given (length ts) x (read_frames i ts (given x out)) out gives (
        read_frames-AllRead ts (next_of d p t.rounds) p i (given x out)
          (subst (Streams (next_of d p t.rounds) p i.frame_samples) (sym same) next) more))

-- The first call sets the deadline of its frame one period after its first round.
pub first-AllRead :
    (i : FormatInfo) (t : Turn) (r : Round) (rs : List Round) (ts : List Turn) (x : Reading)
    → t.rounds ≡ r ∷ rs
    → Fixed false i.frame_samples x.capture
    → Flows x.capture
    → x.capture.deadline_valid ≡ false
    → InTime (r.now + period_ns x.capture) (period_ns x.capture) (t ∷ ts)
    → AllRead (length (t ∷ ts)) x (read_frames i (t ∷ ts) x)
unfolding read_frames InTime
first-AllRead i t r rs ts x e fixed flows unset (o, time, two, more) =
    let p = period_ns x.capture in
    let d = r.now + p in
    let c = paced r.now x.capture in
    let s : Streams d p i.frame_samples c = record {
      paces = paced-Paces r.now x.capture fixed.0;
      flows = flows;
      fixed = fixed;
    } in
    let out = call (input_of i t x.buffer) c in
    let (gives, next) = call-Streams i t t.rounds x.buffer c refl s o time two in
    let patient = turn-Patient i t t.rounds x.buffer c refl s o time two in
    let begins = call-paced (input_of i t x.buffer) r rs x.capture e fixed.0 unset flows patient in
    let same = (given-counts x out gives).3 in
    rw (begins, after_call-given x out (read_frames i ts) gives)
      (AllRead-given (length ts) x (read_frames i ts (given x out)) out gives (
        read_frames-AllRead ts (next_of d p t.rounds) p i (given x out)
          (subst (Streams (next_of d p t.rounds) p i.frame_samples) (sym same) next) more))
