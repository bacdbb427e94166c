-- ===== src/Capture/Read/Session.antt =====
-- Successive calls of `weba_capture_read_frame` (src/capture.cpp) on one capture.
use mathlib.Core.List.{Memᴰ}
use linux_web_audio_capture.Base.{
  ℕ, ◌+◌, ◌*◌, ◌≤◌, Bool, true, false, not, ◌≡◌, subst, Option, none, some, List, [], ◌∷◌, Bytes, ℤ,
  arith, if◌then◌else◌, ltb,
}
use linux_web_audio_capture.Capture.{Capture, Act, acts}
use linux_web_audio_capture.Capture.Read.{
  FrameInfo, read_one, read_none, read_error, Round, Outcome, finished, unfinished,
  next_deadline_after, read_frame,
}
use linux_web_audio_capture.Capture.Read.Setup.{acts-SamePace}
use linux_web_audio_capture.Capture.Read.Cadence.{
  Paces, Paces-SamePace, Ends, loop-Ends, next_deadline_bounds,
}

-- One call: what other threads do before it, its arguments, and the rounds of its loop.
pub record Input : Type 0 where
  pub before : List Act
  pub dst : Option Bytes
  pub dst_capacity_frames : ℕ
  pub wants_info : Bool
  pub timeout_ms : ℤ
  pub entered : ℕ
  pub rounds : List Round

abbrev pub call : Input → Capture → Outcome
call i c =
    read_frame (acts i.before c) i.dst i.dst_capacity_frames i.wants_info i.timeout_ms i.entered
      i.rounds

abbrev pub capture_after : Outcome → Capture
capture_after (finished s dst info c) = c
capture_after (unfinished c) = c

abbrev pub frames_given : Outcome → ℕ
frames_given (finished read_one dst info c) = 1
frames_given (finished read_none dst info c) = 0
frames_given (finished (read_error s) dst info c) = 0
frames_given (unfinished c) = 0

-- The number of frames that a sequence of calls gives, and the capture behind them.
unfoldable pub run : List Input → Capture → ℕ × Capture
run [] c = (0, c)
run (i ∷ is) c =
    let o = call i c in let (n, c') = run is (capture_after o) in (frames_given o + n, c')

if-Ends :
    (d p : ℕ) (rs : List Round) (b : Bool) (o o' : Outcome)
    → Ends d p rs o
    → Ends d p rs o'
    → Ends d p rs (if b then o else o')
if-Ends d p rs true o o' h h' = h
if-Ends d p rs false o o' h h' = h'

read_frame-Ends :
    (d p : ℕ) (c : Capture) (dst : Option Bytes) (room : ℕ) (wants : Bool) (t : ℤ) (at : ℕ)
    (rs : List Round)
    → Paces d p c
    → Ends d p rs (read_frame c dst room wants t at rs)
unfolding read_frame
read_frame-Ends d p c none room wants t at rs h = h
read_frame-Ends d p c (some dst) room wants t at rs h =
    if-Ends d p rs (not c.running) _ _ h
      (if-Ends d p rs (ltb room c.frame_samples) _ _ h (loop-Ends d p _ rs _ h))

pub call-Ends : (d p : ℕ) (i : Input) (c : Capture) → Paces d p c → Ends d p i.rounds (call i c)
call-Ends d p i c h =
    read_frame-Ends d p (acts i.before c) i.dst i.dst_capacity_frames i.wants_info i.timeout_ms
      i.entered i.rounds (Paces-SamePace h (acts-SamePace i.before c))

-- After a call the deadline is one period further on for each frame given.
record Later (d p n : ℕ) (c : Capture) : Type 0 where
  next : ℕ
  paces : Paces next p c
  later : d + n * p ≤ next

Later-of-Ends :
    (d p : ℕ) (rs : List Round) (o : Outcome)
    → Ends d p rs o
    → Later d p (frames_given o) (capture_after o)
Later-of-Ends d p rs (finished read_one dst info c) (r, m, due, h) = record {
  next = next_deadline_after d p r.after;
  paces = h;
  later = omega (arith, next_deadline_bounds d p r.after);
}
Later-of-Ends d p rs (finished read_none dst info c) h = record {
  next = d;
  paces = h;
  later = omega arith;
}
Later-of-Ends d p rs (finished (read_error s) dst info c) h = record {
  next = d;
  paces = h;
  later = omega arith;
}
Later-of-Ends d p rs (unfinished c) h = record { next = d; paces = h; later = omega arith }

run-Later :
    (is : List Input) (d p : ℕ) (c : Capture) → Paces d p c → Later d p (run is c).0 (run is c).1
unfolding run
run-Later [] d p c h = record { next = d; paces = h; later = omega arith }
run-Later (i ∷ is) d p c h =
    let here = Later-of-Ends d p i.rounds (call i c) (call-Ends d p i c h) in
    let rest = run-Later is here.next p (capture_after (call i c)) here.paces in
    record { next = rest.next; paces = rest.paces; later = grind (arith, here.later, rest.later) }

-- The cadence. With fixed-rate output, a deadline `d` and a period `p`: after any calls that gave
-- `n` frames, and whatever the other threads did meanwhile, a further frame is given only in a
-- round whose clock is at `d + n * p` or later. So a burst from the source does not go out faster
-- than one frame a period.
pub cadence :
    (is : List Input) (i : Input) (d p : ℕ) (c : Capture) {dst : Bytes} {info : Option FrameInfo}
    {c'' : Capture}
    → Paces d p c
    → call i (run is c).1 ≡ finished read_one dst info c''
    → (r : Round) × Memᴰ r i.rounds × (d + (run is c).0 * p ≤ r.now)
cadence is i d p c h e =
    let l = run-Later is d p c h in
    let (r, m, due, _) =
      subst (Ends l.next p i.rounds) e (call-Ends l.next p i (run is c).1 l.paces) in
    (r, m, omega (arith, l.later, due))
