-- ===== src/Capture/Read/Ending.antt =====
-- When a call of `weba_capture_read_frame` (src/capture.cpp) with fixed-rate output comes to its end.
use linux_web_audio_capture.Base.{
  ℕ, ◌+◌, ◌*◌, ◌≤◌, ◌<◌, Bool, true, false, not, ◌≡◌, ◌∙◌, ◌⊎◌, inl, inr, sym, ap, subst, Option,
  none, some, List, [], ◌∷◌, Bytes, ℤ, arith, if◌then◌else◌, ltb,
}
use linux_web_audio_capture.FrameQueue.{Popped, got_frame, timed_out, was_closed}
use linux_web_audio_capture.FrameQueue
use linux_web_audio_capture.Capture.{Capture, acts}
use linux_web_audio_capture.Capture.Read.{
  read_none, Round, Outcome, finished, unfinished, Local, Next, return, continue, Call, deliver,
  take_due, due_round, fixed_round, round, follow, loop, with_deadline, sleep_us, timeout_ns,
  read_frame,
}
use linux_web_audio_capture.Capture.Read.Setup.{acts-SamePace}
use linux_web_audio_capture.Capture.Read.Cadence.{with_deadline-valid}

abbrev pub Finished : Outcome → Type 0
Finished (finished s dst info c) = Unit {0}
Finished (unfinished c) = ⊥

abbrev Returns : Next → Type 0
Returns (return s dst info c) = Unit {0}
Returns (continue l) = ⊥

take_due-Returns : (k : Call) (r : Round) (l : Local) (p : Popped) → Returns (take_due k r l p)
unfolding take_due deliver
take_due-Returns k r l got_frame = tt
take_due-Returns k r l timed_out = tt
take_due-Returns k r l was_closed = tt

due_round-Returns : (k : Call) (r : Round) (l : Local) → Returns (due_round k r l)
unfolding due_round
due_round-Returns k r l =
    take_due-Returns k r _ (FrameQueue.pop r.during_pop l.capture.queue l.dst).0.result

follow-Finished : (n : Next) (rest : Local → Outcome) → Returns n → Finished (follow n rest)
unfolding follow
follow-Finished (return s dst info c) rest h = tt
follow-Finished (continue l) rest h = absurd h

-- The capture at the top of a fixed-rate round, with its deadline set.
abbrev pub at_top : Round → Capture → Capture
at_top r c = with_deadline r.now (acts r.before c)

with_deadline-shape :
    (now : ℕ) (c : Capture)
    → ((with_deadline now c).deadline_valid ≡ true)
      × ((with_deadline now c).fixed_rate ≡ c.fixed_rate)
unfolding with_deadline
with_deadline-shape now c = ground arith

pub fixed_round_of_time :
    (k : Call) (r : Round) (l : Local)
    → let c = with_deadline r.now l.capture in
      (fixed_round k r l ≡ due_round k r (record l { capture = c }))
      ⊎ (fixed_round k r l ≡ return read_none l.dst none c)
      ⊎ ((r.now < c.next_deadline)
          × (0 < sleep_us k r.now c.next_deadline)
          × (fixed_round k r l ≡ continue (record l { capture = c })))
unfolding fixed_round
fixed_round_of_time k r l = ground arith

pub round_of_fixed :
    (k : Call) (r : Round) (l : Local)
    → l.capture.fixed_rate ≡ true
    → round k r l ≡ fixed_round k r (record l { capture = acts r.before l.capture })
unfolding round
round_of_fixed k r l f = ground arith

-- A round returns, or it sleeps before a frame that is not due and leaves the call where it was.
round_ways :
    (k : Call) (r : Round) (l : Local)
    → l.capture.fixed_rate ≡ true
    → let c = at_top r l.capture in
      Returns (round k r l)
      ⊎ ((r.now < c.next_deadline)
          × (0 < sleep_us k r.now c.next_deadline)
          × (round k r l ≡ continue (record l { capture = c })))
round_ways k r l f =
    elim (fixed_round_of_time k r (record l { capture = acts r.before l.capture })) [
      | inl e ↦ inl (
          subst Returns (sym (round_of_fixed k r l f ∙ e))
            (due_round-Returns k r (record l { capture = at_top r l.capture })))
      | inr (inl e) ↦ inl (subst Returns (sym (round_of_fixed k r l f ∙ e)) tt)
      | inr (inr (early, sleeps, e)) ↦ inr (early, sleeps, round_of_fixed k r l f ∙ e)
    ]

-- A sleep that was not cut short ends at the deadline of the frame or of the call.
slept_enough :
    (k : Call) (now later deadline : ℕ)
    → now + 1000 * sleep_us k now deadline ≤ later
    → later < deadline
    → sleep_us k later deadline ≡ 0
unfolding sleep_us
slept_enough k now later deadline h early = omega arith

-- Once set, the deadline stays where it is through the sleeps of a call.
at_top-same :
    (r : Round) (c : Capture)
    → c.deadline_valid ≡ true
    → ((at_top r c).next_deadline ≡ c.next_deadline)
      × ((at_top r c).fixed_rate ≡ c.fixed_rate)
      × ((at_top r c).deadline_valid ≡ true)
at_top-same r c v =
    let s = acts-SamePace r.before c in
    let e = with_deadline-valid r.now (acts r.before c) (s.valid ∙ v) in
    (
      ap (λ d. d.next_deadline) e ∙ s.deadline,
      ap (λ d. d.fixed_rate) e ∙ s.setup.fixed_rate,
      ap (λ d. d.deadline_valid) e ∙ s.valid ∙ v,
    )

pub at_top-valid :
    (r : Round) (c : Capture)
    → ((at_top r c).deadline_valid ≡ true) × ((at_top r c).fixed_rate ≡ c.fixed_rate)
at_top-valid r c =
    let s = with_deadline-shape r.now (acts r.before c) in
    (s.0, s.1 ∙ (acts-SamePace r.before c).setup.fixed_rate)

second_round-Returns :
    (k : Call) (r r' : Round) (l : Local)
    → l.capture.fixed_rate ≡ true
    → let c = at_top r l.capture in
      r.now + 1000 * sleep_us k r.now c.next_deadline ≤ r'.now
      → Returns (round k r' (record l { capture = c }))
second_round-Returns k r r' l f h =
    let c = at_top r l.capture in
    let (v, e) = at_top-valid r l.capture in
    elim (round_ways k r' (record l { capture = c }) (e ∙ f)) [
      | inl ret ↦ ret
      | inr (early, sleeps, _) ↦ absurd (
          omega (
            arith,
            early,
            sleeps,
            ap (sleep_us k r'.now) (at_top-same r' c v).0,
            (at_top-same r' c v).0,
            slept_enough k r.now r'.now c.next_deadline h,
          ))
    ]

-- With fixed-rate output a loop ends in its first or second round, if a sleep lasts as long as it was
-- asked to.
pub loop-Finished :
    (k : Call) (r r' : Round) (rs : List Round) (l : Local)
    → l.capture.fixed_rate ≡ true
    → r.now + 1000 * sleep_us k r.now (at_top r l.capture).next_deadline ≤ r'.now
    → Finished (loop k (r ∷ r' ∷ rs) l)
unfolding loop
loop-Finished k r r' rs l f h = elim (round_ways k r l f) [
  | inl ret ↦ follow-Finished (round k r l) (loop k (r' ∷ rs)) ret
  | inr (_, _, e) ↦
      subst (λ n. Finished (follow n (loop k (r' ∷ rs)))) (sym e)
        (unfold follow loop in
          follow-Finished (round k r' (record l { capture = at_top r l.capture })) (loop k rs)
            (second_round-Returns k r r' l f h))
]

if-Finished :
    (b : Bool) (o o' : Outcome) → Finished o → Finished o' → Finished (if b then o else o')
if-Finished true o o' h h' = h
if-Finished false o o' h h' = h'

-- What stays the same during a call, from its arguments.
abbrev pub call_of : Bool → ℕ → ℤ → Call
call_of wants at t = record { wants_info = wants; call_deadline = at + timeout_ns t }

-- A call with fixed-rate output returns in its first or second round, for every argument and
-- whatever the other threads do, if the second round begins no earlier than the sleep that the
-- first asks for is over.
pub read_frame-Finished :
    (c : Capture) (dst : Option Bytes) (room : ℕ) (wants : Bool) (t : ℤ) (at : ℕ) (r r' : Round)
    (rs : List Round)
    → c.fixed_rate ≡ true
    → r.now + 1000 * sleep_us (call_of wants at t) r.now (at_top r c).next_deadline ≤ r'.now
    → Finished (read_frame c dst room wants t at (r ∷ r' ∷ rs))
unfolding read_frame
read_frame-Finished c none room wants t at r r' rs f h = tt
read_frame-Finished c (some dst) room wants t at r r' rs f h = if-Finished (not c.running) _ _ tt (
    if-Finished (ltb room c.frame_samples) _ _ tt (
      loop-Finished (record { wants_info = wants; call_deadline = at + timeout_ns t }) r r' rs
        (record { capture = c; dst = dst; total = 0 }) f h))

-- A round at a clock at which neither the frame is due nor the call over.
abbrev pub TooEarly : ℕ → Call → List Round → Type 0
TooEarly d k [] = Unit {0}
TooEarly d k (r ∷ rs) = (r.now < d) × (0 < sleep_us k r.now d) × TooEarly d k rs

fixed_round_early :
    (k : Call) (r : Round) (l : Local)
    → let c = with_deadline r.now l.capture in
      r.now < c.next_deadline
      → 0 < sleep_us k r.now c.next_deadline
      → fixed_round k r l ≡ continue (record l { capture = c })
unfolding fixed_round
fixed_round_early k r l early sleeps = ground arith

-- With fixed-rate output and a deadline that is set: while the frame is not due and the call
-- deadline is ahead, a call is not over after any number of rounds, whether or not a stop was
-- requested and the queue closed, before these rounds or during them.
pub stop_keeps_looping :
    (k : Call) (rs : List Round) (l : Local)
    → l.capture.fixed_rate ≡ true
    → l.capture.deadline_valid ≡ true
    → TooEarly l.capture.next_deadline k rs
    → ¬ Finished (loop k rs l)
unfolding loop follow
stop_keeps_looping k [] l f v e = λ h. h
stop_keeps_looping k (r ∷ rs) l f v e =
    let c = at_top r l.capture in
    let s = at_top-same r l.capture v in
    subst (λ n. ¬ Finished (follow n (loop k rs)))
      (sym (
        round_of_fixed k r l f
        ∙ fixed_round_early k r (record l { capture = acts r.before l.capture })
            (omega (arith, s.0, e.0)) (omega (arith, ap (sleep_us k r.now) s.0, e.1))))
      (stop_keeps_looping k rs (record l { capture = c }) (s.1 ∙ f) s.2
        (subst (λ d. TooEarly d k rs) (sym s.0) e.2))
