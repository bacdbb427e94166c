-- ===== src/Capture/Read/Cadence.antt =====
-- The cadence of `weba_capture_read_frame` (src/capture.cpp) with fixed-rate output: no frame goes
-- out before it is due, and deadlines are at least one period apart.
use mathlib.Core.List.{Memᴰ}
use linux_web_audio_capture.Base.{
  ℕ, ◌+◌, ◌≤◌, ◌<◌, Bool, true, false, ◌≡◌, refl, ◌∙◌, ◌⊎◌, inl, inr, sym, ap, ap₂, subst, List, [],
  ◌∷◌, arith, none, if◌then◌else◌,
}
use linux_web_audio_capture.FrameQueue
use linux_web_audio_capture.FrameQueue.{Popped, got_frame, timed_out, was_closed}
use linux_web_audio_capture.Capture.{Capture, acts, frame_period, period_ns, ns}
use linux_web_audio_capture.Capture.Read.{
  read_one, read_none, read_error, Round, Outcome, finished, unfinished, Local, Next, return,
  continue, Call, deliver, take_due, due_round, fixed_round, plain_round, round, follow, loop,
  with_deadline, next_deadline_after, sleep_us,
}
use linux_web_audio_capture.Capture.Read.Setup.{SamePace, acts-SamePace}

-- A capture that paces its frames, with `d` its next deadline and `p` its period, in nanoseconds.
pub record Paces (d p : ℕ) (c : Capture) : Type 0 where
  pub fixed : c.fixed_rate ≡ true
  pub valid : c.deadline_valid ≡ true
  pub deadline : c.next_deadline ≡ d
  pub period : period_ns c ≡ p

-- The next deadline is one period on at least; it has not passed, and is no more than one period
-- past the old deadline or the clock.
pub next_deadline_bounds :
    (d p after : ℕ)
    → let d' = next_deadline_after d p after in
      (d + p ≤ d') × (after ≤ d') × ((d' ≡ d + p) ⊎ (d' ≡ after + p))
unfolding next_deadline_after
next_deadline_bounds d p after = ground arith

-- What a round or a call does to the pace: a frame moves the deadline on, and was due at the clock;
-- any other outcome leaves the pace alone.
abbrev pub Steps : ℕ → ℕ → Round → Next → Type 0
Steps d p r (return read_one dst info c) = (d ≤ r.now) × Paces (next_deadline_after d p r.after) p c
Steps d p r (return read_none dst info c) = Paces d p c
Steps d p r (return (read_error s) dst info c) = Paces d p c
Steps d p r (continue l) = Paces d p l.capture

pub Paces-SamePace : {d p : ℕ} {c c' : Capture} → Paces d p c → SamePace c c' → Paces d p c'
Paces-SamePace h s = record {
  fixed = s.setup.fixed_rate ∙ h.fixed;
  valid = s.valid ∙ h.valid;
  deadline = s.deadline ∙ h.deadline;
  period = ap₂ (λ a b. ns (frame_period a b)) s.setup.frame_samples s.setup.sample_rate ∙ h.period;
}

deliver-Steps :
    (d p : ℕ) (k : Call) (r : Round) (silent : Bool) (l : Local)
    → d ≤ r.now
    → Paces d p l.capture
    → Steps d p r (deliver k r silent l)
unfolding deliver
deliver-Steps d p k r silent l due h =
    let q = Paces-SamePace h (acts-SamePace r.between l.capture) in
    (
      due,
      record {
        fixed = q.fixed;
        valid = q.valid;
        deadline = ap₂ (λ a b. next_deadline_after a b r.after) q.deadline q.period;
        period = q.period;
      },
    )

take_due-Steps :
    (d p : ℕ) (k : Call) (r : Round) (l : Local) (popped : Popped)
    → d ≤ r.now
    → Paces d p l.capture
    → Steps d p r (take_due k r l popped)
unfolding take_due
take_due-Steps d p k r l got_frame due h = deliver-Steps d p k r false l due h
take_due-Steps d p k r l timed_out due h = deliver-Steps d p k r true l due h
take_due-Steps d p k r l was_closed due h = h

Paces-queue :
    {d p : ℕ} {c : Capture} (q : FrameQueue.FrameQueue)
    → Paces d p c
    → Paces d p (record c { queue = q })
Paces-queue q h = record {
  fixed = h.fixed;
  valid = h.valid;
  deadline = h.deadline;
  period = h.period;
}

due_round-Steps :
    (d p : ℕ) (k : Call) (r : Round) (l : Local)
    → d ≤ r.now
    → Paces d p l.capture
    → Steps d p r (due_round k r l)
unfolding due_round
due_round-Steps d p k r l due h =
    take_due-Steps d p k r _ (FrameQueue.pop r.during_pop l.capture.queue l.dst).0.result due
      (Paces-queue (FrameQueue.pop r.during_pop l.capture.queue l.dst).0.queue h)

pub with_deadline-valid :
    (now : ℕ) (c : Capture) → c.deadline_valid ≡ true → with_deadline now c ≡ c
unfolding with_deadline
with_deadline-valid now c h = ground arith

-- The three ways of a fixed-rate round with a valid deadline.
pub fixed_round_cases :
    (k : Call) (r : Round) (l : Local)
    → l.capture.deadline_valid ≡ true
    → ((l.capture.next_deadline ≤ r.now) × (fixed_round k r l ≡ due_round k r l))
      ⊎ ((r.now < l.capture.next_deadline)
          × (sleep_us k r.now l.capture.next_deadline ≡ 0)
          × (fixed_round k r l ≡ return read_none l.dst none l.capture))
      ⊎ ((r.now < l.capture.next_deadline)
          × (0 < sleep_us k r.now l.capture.next_deadline)
          × (fixed_round k r l ≡ continue l))
unfolding fixed_round
fixed_round_cases k r l h = ground (arith, with_deadline-valid r.now l.capture h)

fixed_round-Steps :
    (d p : ℕ) (k : Call) (r : Round) (l : Local)
    → Paces d p l.capture
    → Steps d p r (fixed_round k r l)
fixed_round-Steps d p k r l h = elim (fixed_round_cases k r l h.valid) [
  | inl (due, e) ↦
      subst (Steps d p r) (sym e) (due_round-Steps d p k r l (omega (arith, h.deadline, due)) h)
  | inr (inl (_, _, e)) ↦ subst (Steps d p r) (sym e) h
  | inr (inr (_, _, e)) ↦ subst (Steps d p r) (sym e) h
]

pub round-Steps :
    (d p : ℕ) (k : Call) (r : Round) (l : Local) → Paces d p l.capture → Steps d p r (round k r l)
unfolding round
round-Steps d p k r l h =
    subst (Steps d p r) (ap (λ b. if b then f else g) (sym h.fixed))
      (fixed_round-Steps d p k r l' (Paces-SamePace h (acts-SamePace r.before l.capture)))
  where
    l' : Local
    l' = record l { capture = acts r.before l.capture }

    f : Next
    f = fixed_round k r l'

    g : Next
    g = plain_round k r l'

-- What a call of the loop does to the pace.
abbrev pub Ends : ℕ → ℕ → List Round → Outcome → Type 0
Ends d p rs (finished read_one dst info c) =
    (r : Round) × Memᴰ r rs × (d ≤ r.now) × Paces (next_deadline_after d p r.after) p c
Ends d p rs (finished read_none dst info c) = Paces d p c
Ends d p rs (finished (read_error s) dst info c) = Paces d p c
Ends d p rs (unfinished c) = Paces d p c

Ends-cons :
    (d p : ℕ) (r : Round) (rs : List Round) (o : Outcome) → Ends d p rs o → Ends d p (r ∷ rs) o
Ends-cons d p r rs (finished read_one dst info c) (r', m, due, h) = (r', Memᴰ.tail m, due, h)
Ends-cons d p r rs (finished read_none dst info c) h = h
Ends-cons d p r rs (finished (read_error s) dst info c) h = h
Ends-cons d p r rs (unfinished c) h = h

follow-Ends :
    (d p : ℕ) (r : Round) (rs : List Round) (n : Next) (rest : Local → Outcome)
    → Steps d p r n
    → ((l : Local) → Paces d p l.capture → Ends d p rs (rest l))
    → Ends d p (r ∷ rs) (follow n rest)
unfolding follow
follow-Ends d p r rs (return read_one dst info c) rest h go = (r, Memᴰ.head refl, h.0, h.1)
follow-Ends d p r rs (return read_none dst info c) rest h go = h
follow-Ends d p r rs (return (read_error s) dst info c) rest h go = h
follow-Ends d p r rs (continue l) rest h go = Ends-cons d p r rs (rest l) (go l h)

pub loop-Ends :
    (d p : ℕ) (k : Call) (rs : List Round) (l : Local)
    → Paces d p l.capture
    → Ends d p rs (loop k rs l)
unfolding loop
loop-Ends d p k [] l h = h
loop-Ends d p k (r ∷ rs) l h =
    follow-Ends d p r rs (round k r l) (loop k rs) (round-Steps d p k r l h) (loop-Ends d p k rs)
