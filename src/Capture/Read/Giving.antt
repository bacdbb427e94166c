-- ===== src/Capture/Read/Giving.antt =====
-- Which round of `weba_capture_read_frame` (src/capture.cpp) gives the frame of a call that is patient, and
-- the deadline that it leaves.
use linux_web_audio_capture.Base.{
  Bool-cases, ◌⊎◌, ◌*◌, ◌<◌, [], inl, inr, ℕ, ◌+◌, ◌≤◌, ◌≡◌, sym, subst, arith, List, ◌∷◌, ltb,
  if◌then◌else◌,
}
use linux_web_audio_capture.Capture.{Capture, acts}
use linux_web_audio_capture.Capture.Read.{
  read_one, read_none, read_error, Round, Outcome, Local, Next, return, continue, Call, round,
  follow, loop, sleep_us, next_deadline_after,
}
use linux_web_audio_capture.Capture.Read.Setup.{acts-SamePace}
use linux_web_audio_capture.Capture.Read.Cadence.{Paces, Paces-SamePace, Steps, round-Steps}
use linux_web_audio_capture.Capture.Read.Ending.{call_of}
use linux_web_audio_capture.Capture.Read.Session.{Input, call, capture_after}
use linux_web_audio_capture.Capture.Read.Open.{RoundStaysOpen, Flows, acts-Flows}
use linux_web_audio_capture.Capture.Read.Gives.{
  GivesNext, Gives, round_paced, second_round-Gives, sleep_us_reaches, at_round,
}
use linux_web_audio_capture.Capture.Read.Stream.{Comes, Patient, read_frame-loop}

-- The rounds of a call for a frame that is due at `d`, where its sleep lasts: there are two at least, the
-- queue stays open in both, and the second begins no earlier than the sleep that the first asks for is over.
abbrev pub TwoRounds : Call → ℕ → List Round → Type 0
TwoRounds k d [] = ⊥
TwoRounds k d (r ∷ []) = ⊥
TwoRounds k d (r ∷ r' ∷ rs) =
    RoundStaysOpen r × RoundStaysOpen r' × (r.now + 1000 * sleep_us k r.now d ≤ r'.now)

lt_ways : (a b : ℕ) → (a < b) ⊎ (b ≤ a)
lt_ways a b = elim (Bool-cases (ltb a b)) [
  | inl e ↦ inl (ground (arith, e))
  | inr e ↦ inr (ground (arith, e))
]

-- The frame is due in the second of them.
pub TwoRounds-Comes :
    (k : Call) (d : ℕ) (rs : List Round)
    → d + 1_000_000 ≤ k.call_deadline
    → TwoRounds k d rs
    → Comes d rs
TwoRounds-Comes k d [] room t = absurd t
TwoRounds-Comes k d (r ∷ []) room t = absurd t
TwoRounds-Comes k d (r ∷ r' ∷ rs) room (o, o', slept) = elim (lt_ways r.now d) [
  | inl early ↦ (o, inr (o', inl (omega (arith, slept, sleep_us_reaches k r.now d room early))))
  | inr due ↦ (o, inl due)
]

-- A call is over in round `r` with a frame.
abbrev pub GivesAt : ℕ → ℕ → Round → Outcome → Type 0
GivesAt d p r o =
    (d ≤ r.now) × Gives o × Paces (next_deadline_after d p r.after) p (capture_after o)

follow-GivesAt :
    (d p : ℕ) (r : Round) (n : Next) (rest : Local → Outcome)
    → GivesNext n
    → Steps d p r n
    → GivesAt d p r (follow n rest)
unfolding follow
follow-GivesAt d p r (return read_one dst info c) rest g (due, h) = (due, g, h)
follow-GivesAt d p r (return read_none dst info c) rest g h = absurd g
follow-GivesAt d p r (return (read_error s) dst info c) rest g h = absurd g
follow-GivesAt d p r (continue l) rest g h = absurd g

-- The first round gives the frame if it is due there, otherwise the second.
abbrev pub giving : ℕ → Round → Round → Round
giving d r r' = if ltb r.now d then r' else r

loop-GivesAt :
    {d p : ℕ} (k : Call) (r r' : Round) (rs : List Round) (l : Local)
    → RoundStaysOpen r
    → RoundStaysOpen r'
    → Paces d p l.capture
    → Flows l.capture
    → d + 1_000_000 ≤ k.call_deadline
    → r.now + 1000 * sleep_us k r.now d ≤ r'.now
    → GivesAt d p (giving d r r') (loop k (r ∷ r' ∷ rs) l)
unfolding loop
loop-GivesAt {d} {p} k r r' rs l o o' h flows room slept = elim (round_paced k r l o h flows) [
  | inl gives ↦
      let here =
        follow-GivesAt d p r (round k r l) (loop k (r' ∷ rs)) gives (round-Steps d p k r l h) in
      let same : giving d r r' ≡ r = ground (arith, here.0) in
      subst (λ x. GivesAt d p x (follow (round k r l) (loop k (r' ∷ rs)))) (sym same) here
  | inr (early, inl none_left) ↦
      absurd (omega (arith, none_left, sleep_us_reaches k r.now d room early))
  | inr (early, inr (_, e)) ↦
      let same : giving d r r' ≡ r' = ground (arith, early) in
      let l' = at_round r l in
      let h' = Paces-SamePace h (acts-SamePace r.before l.capture) in
      subst (λ x. GivesAt d p x (follow (round k r l) (loop k (r' ∷ rs)))) (sym same)
        (subst (λ n. GivesAt d p r' (follow n (loop k (r' ∷ rs)))) (sym e)
          (unfold follow loop in
            follow-GivesAt d p r' (round k r' l') (loop k rs)
              (second_round-Gives k r' l' o' h' (acts-Flows r.before l.capture o.0 flows)
                (omega (arith, slept, sleep_us_reaches k r.now d room early)))
              (round-Steps d p k r' l' h')))
]

pub call-GivesAt :
    {d p : ℕ} (i : Input) (r r' : Round) (rs : List Round) (c : Capture)
    → i.rounds ≡ r ∷ r' ∷ rs
    → TwoRounds (call_of i.wants_info i.entered i.timeout_ms) d (r ∷ r' ∷ rs)
    → Patient c i
    → Paces d p c
    → Flows c
    → GivesAt d p (giving d r r') (call i c)
call-GivesAt {d} {p} i r r' rs c e (o, o', slept) t h flows =
    let s = acts-SamePace i.before c in
    let k = call_of i.wants_info i.entered i.timeout_ms in
    let flows' = acts-Flows i.before c t.before flows in
    rw t.dst (
      subst (GivesAt d p (giving d r r'))
        (sym (
          read_frame-loop (acts i.before c) t.buffer i flows'.1
            (omega (arith, s.setup.frame_samples, t.room))))
        (rw e (
          loop-GivesAt k r r' rs (record { capture = acts i.before c; dst = t.buffer; total = 0 }) o
            o' (Paces-SamePace h s) flows' (omega (arith, h.deadline, t.time)) slept)))
