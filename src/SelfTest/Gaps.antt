-- ===== src/SelfTest/Gaps.antt =====
-- The discontinuities that `read_frames` of tests/webaudio_selftest.cpp counts.
use linux_web_audio_capture.Base.{
  ℕ, ◌+◌, true, ◌≡◌, refl, ◌∙◌, Option, none, some, List, [], ◌∷◌, pos,
}
use linux_web_audio_capture.Capture.{FormatInfo, acts, discontinuity}
use linux_web_audio_capture.Capture.Read.{
  FrameInfo, read_one, read_none, read_error, Outcome, finished, unfinished,
}
use linux_web_audio_capture.Capture.Read.Session.{call}
use linux_web_audio_capture.Capture.Read.Calm.{
  Calm, CalmEnd, Unflagged, Unbroken, AllUnbroken, pushed, rounds_pushed, acts-Calm,
  read_frame-Calm,
}
use linux_web_audio_capture.SelfTest.Reads.{
  Turn, Reading, input_of, after_call, read_frames, count_if, flags_of,
}

-- The frames that are pushed during the turns, and that no stream is reopened.
abbrev pub turns_pushed : List Turn → ℕ
turns_pushed [] = 0
turns_pushed (t ∷ ts) = pushed t.before + (rounds_pushed t.rounds + turns_pushed ts)

abbrev pub TurnsUnbroken : List Turn → Type 0
TurnsUnbroken [] = Unit {0}
TurnsUnbroken (t ∷ ts) = Unbroken t.before × AllUnbroken t.rounds × TurnsUnbroken ts

count_if-Unflagged :
    (info : Option FrameInfo) (n : ℕ)
    → Unflagged info
    → count_if discontinuity (flags_of info) n ≡ n
count_if-Unflagged none n h = refl
count_if-Unflagged (some i) n h = rw h refl

after_call-gaps :
    (m : ℕ) (x : Reading) (o : Outcome) (more : Reading → Reading)
    → CalmEnd m o
    → ((y : Reading) → y.gaps ≡ x.gaps → Calm m y.capture → (more y).gaps ≡ x.gaps)
    → (after_call x o more).gaps ≡ x.gaps
after_call-gaps m x (finished read_one buffer info c) more (h, calm) go =
    go _ (count_if-Unflagged info x.gaps h) calm
after_call-gaps m x (finished read_none buffer info c) more h go = refl
after_call-gaps m x (finished (read_error s) buffer info c) more h go = refl
after_call-gaps m x (unfinished c) more h go = refl

-- With room for all frames that are pushed, none is counted.
pub read_frames-gaps :
    (ts : List Turn) (i : FormatInfo) (x : Reading)
    → TurnsUnbroken ts
    → Calm (turns_pushed ts) x.capture
    → (read_frames i ts x).gaps ≡ x.gaps
unfolding read_frames
read_frames-gaps [] i x u h = refl
read_frames-gaps (t ∷ ts) i x (u, u', more) h =
    let n = turns_pushed ts in
    let calm = acts-Calm t.before (rounds_pushed t.rounds + n) x.capture u h in
    after_call-gaps n x (call (input_of i t x.buffer) x.capture) (read_frames i ts)
      (read_frame-Calm n (acts t.before x.capture) x.buffer i.frame_samples true (pos 1000)
        t.entered t.rounds u' calm)
      (λ y e calm'. read_frames-gaps ts i y more calm' ∙ e)
