-- ===== src/Capture/Read/Gives.antt =====
-- Rounds of `weba_capture_read_frame` (src/capture.cpp) that give a frame, with fixed-rate output and a queue
-- that stays open.
use linux_web_audio_capture.Base.{
  ℕ, ◌+◌, ◌*◌, ◌≤◌, ◌<◌, Bool, true, false, ◌≡◌, ◌∙◌, sym, subst, ◌⊎◌, inl, inr, arith,
}
use linux_web_audio_capture.CondVar.{wait_for}
use linux_web_audio_capture.FrameQueue
use linux_web_audio_capture.FrameQueue.{
  FrameQueue, Popped, got_frame, timed_out, was_closed, push, make_room, append, take_frame, ready,
}
use linux_web_audio_capture.Capture.{acts}
use linux_web_audio_capture.Capture.Read.{
  read_one, read_none, read_error, Round, Outcome, finished, unfinished, Local, Next, return,
  continue, Call, deliver, take_due, due_round, round, follow, sleep_us,
}
use linux_web_audio_capture.Capture.Read.Setup.{acts-SamePace}
use linux_web_audio_capture.Capture.Read.Cadence.{Paces, Paces-SamePace, fixed_round_cases}
use linux_web_audio_capture.Capture.Read.Ending.{round_of_fixed}
use linux_web_audio_capture.Capture.Read.Open.{
  StaysOpen, RoundStaysOpen, Flows, acts-Flows, wait-open, take_frame-open,
}

-- A frame goes out, and the capture flows on.
abbrev pub GivesNext : Next → Type 0
GivesNext (return read_one dst info c) = Flows c
GivesNext (return read_none dst info c) = ⊥
GivesNext (return (read_error s) dst info c) = ⊥
GivesNext (continue l) = ⊥

abbrev pub Gives : Outcome → Type 0
Gives (finished read_one dst info c) = Flows c
Gives (finished read_none dst info c) = ⊥
Gives (finished (read_error s) dst info c) = ⊥
Gives (unfinished c) = ⊥

deliver-Gives :
    (k : Call) (r : Round) (silent : Bool) (l : Local)
    → StaysOpen r.between
    → Flows l.capture
    → GivesNext (deliver k r silent l)
unfolding deliver
deliver-Gives k r silent l o h = acts-Flows r.between l.capture o h

take_due-Gives :
    (k : Call) (r : Round) (l : Local) (p : Popped)
    → StaysOpen r.between
    → (p ≡ got_frame) ⊎ (p ≡ timed_out)
    → Flows l.capture
    → GivesNext (take_due k r l p)
unfolding take_due
take_due-Gives k r l got_frame o e h = deliver-Gives k r false l o h
take_due-Gives k r l timed_out o e h = deliver-Gives k r true l o h
take_due-Gives k r l was_closed o (inl e) h = cc e
take_due-Gives k r l was_closed o (inr e) h = cc e

due_round-Gives :
    (k : Call) (r : Round) (l : Local)
    → RoundStaysOpen r
    → Flows l.capture
    → GivesNext (due_round k r l)
unfolding due_round FrameQueue.pop
due_round-Gives k r l (_, o, o') h =
    let found = (wait_for ready FrameQueue.act r.during_pop l.capture.queue).0 in
    let (ways, open_still) =
      take_frame-open found l.dst (wait-open r.during_pop l.capture.queue o h.0) in
    take_due-Gives k r _ (take_frame found l.dst).result o' ways (open_still, h.1)

-- The sleep before a frame lasts until it is due, if the call may take a millisecond longer.
pub sleep_us_reaches :
    (k : Call) (now d : ℕ)
    → d + 1_000_000 ≤ k.call_deadline
    → now < d
    → (0 < sleep_us k now d) × (d ≤ now + 1000 * sleep_us k now d)
unfolding sleep_us
sleep_us_reaches k now d room early = omega arith

pub follow-Gives : (n : Next) (rest : Local → Outcome) → GivesNext n → Gives (follow n rest)
unfolding follow
follow-Gives (return read_one dst info c) rest h = h
follow-Gives (return read_none dst info c) rest h = absurd h
follow-Gives (return (read_error s) dst info c) rest h = absurd h
follow-Gives (continue l) rest h = absurd h

-- The local state at the top of a round, after what other threads did before it.
abbrev pub at_round : Round → Local → Local
at_round r l = record l { capture = acts r.before l.capture }

pub round_paced :
    {d p : ℕ} (k : Call) (r : Round) (l : Local)
    → RoundStaysOpen r
    → Paces d p l.capture
    → Flows l.capture
    → GivesNext (round k r l)
      ⊎ ((r.now < d)
          × ((sleep_us k r.now d ≡ 0)
              ⊎ ((0 < sleep_us k r.now d) × (round k r l ≡ continue (at_round r l)))))
round_paced {d} {p} k r l o h flows =
    let l' = at_round r l in
    let h' = Paces-SamePace h (acts-SamePace r.before l.capture) in
    let flows' = acts-Flows r.before l.capture o.0 flows in
    let e = round_of_fixed k r l h.fixed in
    elim (fixed_round_cases k r l' h'.valid) [
      | inl (due, x) ↦ inl (subst GivesNext (sym (e ∙ x)) (due_round-Gives k r l' o flows'))
      | inr (inl (early, z, _)) ↦ inr (rw (h'.deadline) at early, inl (rw (h'.deadline) at z))
      | inr (inr (early, z, x)) ↦
          inr (rw (h'.deadline) at early, inr (rw (h'.deadline) at z, e ∙ x))
    ]

-- After the sleep the frame is due.
pub second_round-Gives :
    {d p : ℕ} (k : Call) (r : Round) (l : Local)
    → RoundStaysOpen r
    → Paces d p l.capture
    → Flows l.capture
    → d ≤ r.now
    → GivesNext (round k r l)
second_round-Gives k r l o h flows due = elim (round_paced k r l o h flows) [
  | inl gives ↦ gives
  | inr (early, _) ↦ absurd (omega (arith, early, due))
]
