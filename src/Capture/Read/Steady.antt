-- ===== src/Capture/Read/Steady.antt =====
-- What a capture with fixed-rate output keeps through `weba_capture_read_frame` (src/capture.cpp): its mode,
-- its frame size, and whether its thread was abandoned.
use linux_web_audio_capture.Base.{
  ℕ, Bool, true, false, not, ◌≡◌, arith, sym, subst, inl, inr, Option, none, some, List, [], ◌∷◌,
  Bytes, ℤ, if◌then◌else◌, ltb,
}
use linux_web_audio_capture.FrameQueue
use linux_web_audio_capture.FrameQueue.{Popped, got_frame, timed_out, was_closed}
use linux_web_audio_capture.Capture.{
  Capture, Act, pushes, reopens, requests_stop, closes, ends, act, acts,
}
use linux_web_audio_capture.Capture.Read.{
  Round, Outcome, finished, unfinished, Local, Next, return, continue, Call, deliver, take_due,
  with_deadline, due_round, round, follow, loop, read_frame,
}
use linux_web_audio_capture.Capture.Read.Ending.{at_top, fixed_round_of_time, round_of_fixed}

module _ (a : Bool) (n : ℕ) where
  abbrev pub Fixed : Capture → Type 0
  Fixed c = (c.fixed_rate ≡ true) × (c.frame_samples ≡ n) × (c.thread_abandoned ≡ a)

  abbrev SteadyNext : Next → Type 0
  SteadyNext (return s dst info c) = Fixed c
  SteadyNext (continue l) = Fixed l.capture

  -- The capture that a call leaves has fixed-rate output.
  abbrev pub Steady : Outcome → Type 0
  Steady (finished s dst info c) = Fixed c
  Steady (unfinished c) = Fixed c

  pub acts-Fixed : (more : List Act) (c : Capture) → Fixed c → Fixed (acts more c)
  unfolding acts act
  acts-Fixed [] c f = f
  acts-Fixed (pushes x ∷ more) c f = acts-Fixed more (act (pushes x) c) f
  acts-Fixed (reopens ∷ more) c f = acts-Fixed more (act reopens c) f
  acts-Fixed (requests_stop ∷ more) c f = acts-Fixed more (act requests_stop c) f
  acts-Fixed (closes ∷ more) c f = acts-Fixed more (act closes c) f
  acts-Fixed (ends ∷ more) c f = acts-Fixed more (act ends c) f

  with_deadline-Fixed : (now : ℕ) (c : Capture) → Fixed c → Fixed (with_deadline now c)
  unfolding with_deadline
  with_deadline-Fixed now c (f, s, t) = (ground (arith, f), ground (arith, s), ground (arith, t))

  take_due-Steady :
      (k : Call) (r : Round) (l : Local) (p : Popped)
      → Fixed l.capture
      → SteadyNext (take_due k r l p)
  unfolding take_due deliver
  take_due-Steady k r l was_closed f = f
  take_due-Steady k r l timed_out f = acts-Fixed r.between l.capture f
  take_due-Steady k r l got_frame f = acts-Fixed r.between l.capture f

  due_round-Steady :
      (k : Call) (r : Round) (l : Local) → Fixed l.capture → SteadyNext (due_round k r l)
  unfolding due_round
  due_round-Steady k r l f =
      take_due-Steady k r _ (FrameQueue.pop r.during_pop l.capture.queue l.dst).0.result f

  round-Steady : (k : Call) (r : Round) (l : Local) → Fixed l.capture → SteadyNext (round k r l)
  round-Steady k r l f =
      let l' = record l { capture = acts r.before l.capture } in
      let same = with_deadline-Fixed r.now l'.capture (acts-Fixed r.before l.capture f) in
      subst SteadyNext (sym (round_of_fixed k r l f.0)) (elim (fixed_round_of_time k r l') [
        | inl e ↦
            subst SteadyNext (sym e)
              (due_round-Steady k r (record l { capture = at_top r l.capture }) same)
        | inr (inl e) ↦ subst SteadyNext (sym e) same
        | inr (inr (_, _, e)) ↦ subst SteadyNext (sym e) same
      ])

  follow-Steady :
      (x : Next) (rest : Local → Outcome)
      → SteadyNext x
      → ((l : Local) → Fixed l.capture → Steady (rest l))
      → Steady (follow x rest)
  unfolding follow
  follow-Steady (return s dst info c) rest h go = h
  follow-Steady (continue l) rest h go = go l h

  loop-Steady : (k : Call) (rs : List Round) (l : Local) → Fixed l.capture → Steady (loop k rs l)
  unfolding loop
  loop-Steady k [] l f = f
  loop-Steady k (r ∷ rs) l f =
      follow-Steady (round k r l) (loop k rs) (round-Steady k r l f) (loop-Steady k rs)

  if-Steady : (b : Bool) (o o' : Outcome) → Steady o → Steady o' → Steady (if b then o else o')
  if-Steady true o o' h h' = h
  if-Steady false o o' h h' = h'

  pub read_frame-Steady :
      (c : Capture) (dst : Option Bytes) (room : ℕ) (wants : Bool) (t : ℤ) (at : ℕ)
      (rs : List Round)
      → Fixed c
      → Steady (read_frame c dst room wants t at rs)
  unfolding read_frame
  read_frame-Steady c none room wants t at rs f = f
  read_frame-Steady c (some dst) room wants t at rs f =
      if-Steady (not c.running) _ _ f
        (if-Steady (ltb room c.frame_samples) _ _ f (loop-Steady _ rs _ f))
