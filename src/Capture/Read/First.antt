-- ===== src/Capture/Read/First.antt =====
-- The first call of `weba_capture_read_frame` (src/capture.cpp) after a start, which sets the deadline
-- of the first frame.
use linux_web_audio_capture.Base.{
  ℕ, ◌+◌, true, false, ◌≡◌, refl, ◌∙◌, sym, ap, arith, List, [], ◌∷◌,
}
use linux_web_audio_capture.Capture.{
  Capture, Act, pushes, reopens, requests_stop, closes, ends, act, acts, period_ns,
}
use linux_web_audio_capture.Capture.Read.{
  Round, Local, Call, fixed_round, follow, loop, with_deadline,
}
use linux_web_audio_capture.Capture.Read.Setup.{acts-SamePace}
use linux_web_audio_capture.Capture.Read.Cadence.{Paces}
use linux_web_audio_capture.Capture.Read.Ending.{round_of_fixed, call_of}
use linux_web_audio_capture.Capture.Read.Session.{Input, call}
use linux_web_audio_capture.Capture.Read.Open.{Flows, acts-Flows}
use linux_web_audio_capture.Capture.Read.Stream.{Patient, read_frame-loop}

-- The capture with its first deadline one period from `now`.
abbrev pub paced : ℕ → Capture → Capture
paced now c = record c { next_deadline = now + period_ns c; deadline_valid = true }

acts-paced :
    (now : ℕ) (more : List Act) (c : Capture) → acts more (paced now c) ≡ paced now (acts more c)
unfolding acts act
acts-paced now [] c = refl
acts-paced now (pushes f ∷ more) c = acts-paced now more (act (pushes f) c)
acts-paced now (reopens ∷ more) c = acts-paced now more (act reopens c)
acts-paced now (requests_stop ∷ more) c = acts-paced now more (act requests_stop c)
acts-paced now (closes ∷ more) c = acts-paced now more (act closes c)
acts-paced now (ends ∷ more) c = acts-paced now more (act ends c)

fixed_round-paced :
    (k : Call) (r : Round) (l : Local)
    → l.capture.deadline_valid ≡ false
    → fixed_round k r l ≡ fixed_round k r (record l { capture = paced r.now l.capture })
unfolding fixed_round with_deadline
fixed_round-paced k r l h = rw h refl

loop-paced :
    (k : Call) (r : Round) (rs : List Round) (l : Local)
    → l.capture.fixed_rate ≡ true
    → l.capture.deadline_valid ≡ false
    → loop k (r ∷ rs) l ≡ loop k (r ∷ rs) (record l { capture = paced r.now l.capture })
unfolding loop
loop-paced k r rs l fixed unset =
    let s = acts-SamePace r.before l.capture in
    let e =
      fixed_round-paced k r (record l { capture = acts r.before l.capture }) (s.valid ∙ unset)
      ∙ ap (λ c. fixed_round k r (record l { capture = c }))
          (sym (acts-paced r.now r.before l.capture)) in
    ap (λ n. follow n (loop k rs))
      (round_of_fixed k r l fixed
        ∙ e
        ∙ sym (round_of_fixed k r (record l { capture = paced r.now l.capture }) fixed))

-- The first call is as on the capture that has its deadline already.
pub call-paced :
    (i : Input) (r : Round) (rs : List Round) (c : Capture)
    → i.rounds ≡ r ∷ rs
    → c.fixed_rate ≡ true
    → c.deadline_valid ≡ false
    → Flows c
    → Patient (paced r.now c) i
    → call i c ≡ call i (paced r.now c)
call-paced i r rs c e fixed unset flows t =
    let k = call_of i.wants_info i.entered i.timeout_ms in
    let s = acts-SamePace i.before c in
    let flows' = acts-Flows i.before c t.before flows in
    let lhs =
      read_frame-loop (acts i.before c) t.buffer i flows'.1
        (omega (arith, s.setup.frame_samples, t.room)) in
    let rhs =
      read_frame-loop (paced r.now (acts i.before c)) t.buffer i flows'.1
        (omega (arith, s.setup.frame_samples, t.room)) in
    let middle =
      loop-paced k r rs (record { capture = acts i.before c; dst = t.buffer; total = 0 })
        (s.setup.fixed_rate ∙ fixed) (s.valid ∙ unset) in
    rw (t.dst, acts-paced r.now i.before c) (lhs ∙ rw e middle ∙ sym rhs)

pub paced-Paces :
    (now : ℕ) (c : Capture)
    → c.fixed_rate ≡ true
    → Paces (now + period_ns c) (period_ns c) (paced now c)
paced-Paces now c fixed = record { fixed = fixed; valid = refl; deadline = refl; period = refl }
