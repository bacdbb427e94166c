-- ===== src/Capture/Read/Timeout.antt =====
-- The timeout of `weba_capture_read_frame` (src/capture.cpp) without fixed-rate output.
use mathlib.Core.List.{Memᴰ}
use linux_web_audio_capture.Base.{
  ℕ, ◌+◌, ◌≤◌, Bool, true, false, not, ◌≡◌, refl, sym, ◌∙◌, subst, arith, Option, none, some, List,
  [], ◌∷◌, Bytes, ℤ, if◌then◌else◌, ltb, u64,
}
use linux_web_audio_capture.FrameQueue
use linux_web_audio_capture.FrameQueue.{Popped, got_frame, timed_out, was_closed}
use linux_web_audio_capture.FrameQueue.Waiting.{pop-timed_out}
use linux_web_audio_capture.Capture.{Capture, acts}
use linux_web_audio_capture.Capture.Read.{
  FrameInfo, read_one, read_none, read_error, Round, Outcome, finished, unfinished, Local, Next,
  return, continue, Call, hand_over, after_pop, plain_round, round, follow, loop, timeout_ns,
  read_frame,
}
use linux_web_audio_capture.Capture.Read.Setup.{acts-SamePace}

-- What a round may do with a buffer that was `dst` before: a timeout leaves it alone, gives no info,
-- and comes no earlier than the deadline of the call.
abbrev HonestRound : Call → Round → Bytes → Next → Type 0
HonestRound k r dst (return read_one d info c) = Unit {0}
HonestRound k r dst (return (read_error s) d info c) = Unit {0}
HonestRound k r dst (return read_none d info c) =
    (d ≡ dst) × (info ≡ none) × (k.call_deadline ≤ r.after)
HonestRound k r dst (continue l) = (l.dst ≡ dst) × (l.capture.fixed_rate ≡ false)

-- The same of a call.
abbrev Honest : ℕ → List Round → Bytes → Outcome → Type 0
Honest deadline rs dst (finished read_one d info c) = Unit {0}
Honest deadline rs dst (finished (read_error s) d info c) = Unit {0}
Honest deadline rs dst (finished read_none d info c) =
    (d ≡ dst) × (info ≡ none) × ((r : Round) × Memᴰ r rs × (deadline ≤ r.after))
Honest deadline rs dst (unfinished c) = Unit {0}

after_pop-HonestRound :
    (k : Call) (r : Round) (l : Local) (p : Popped) (dst : Bytes)
    → (p ≡ timed_out → l.dst ≡ dst)
    → l.capture.fixed_rate ≡ false
    → HonestRound k r dst (after_pop k r l p)
unfolding after_pop hand_over
after_pop-HonestRound k r l got_frame dst same plain = tt
after_pop-HonestRound k r l was_closed dst same plain = tt
after_pop-HonestRound k r l timed_out dst same plain = ground (arith, same refl)

plain_round-HonestRound :
    (k : Call) (r : Round) (l : Local)
    → l.capture.fixed_rate ≡ false
    → HonestRound k r l.dst (plain_round k r l)
unfolding plain_round
plain_round-HonestRound k r l plain =
    let p = (FrameQueue.pop r.during_pop l.capture.queue l.dst).0 in
    after_pop-HonestRound k r
      (record {
        capture = record l.capture { queue = p.queue };
        dst = p.out;
        total = u64 (l.total + p.discarded);
      })
      p.result l.dst (λ e. (pop-timed_out r.during_pop l.capture.queue l.dst e).1) plain

round_of_plain :
    (k : Call) (r : Round) (l : Local)
    → l.capture.fixed_rate ≡ false
    → round k r l ≡ plain_round k r (record l { capture = acts r.before l.capture })
unfolding round
round_of_plain k r l plain = ground arith

round-HonestRound :
    (k : Call) (r : Round) (l : Local)
    → l.capture.fixed_rate ≡ false
    → HonestRound k r l.dst (round k r l)
round-HonestRound k r l plain = subst (HonestRound k r l.dst) (sym (round_of_plain k r l plain)) (
    plain_round-HonestRound k r (record l { capture = acts r.before l.capture })
      ((acts-SamePace r.before l.capture).setup.fixed_rate ∙ plain))

Honest-cons :
    (deadline : ℕ) (r : Round) (rs : List Round) (dst dst' : Bytes) (o : Outcome)
    → dst' ≡ dst
    → Honest deadline rs dst' o
    → Honest deadline (r ∷ rs) dst o
Honest-cons deadline r rs dst dst' (finished read_one d info c) e h = tt
Honest-cons deadline r rs dst dst' (finished (read_error s) d info c) e h = tt
Honest-cons deadline r rs dst dst' (finished read_none d info c) e (same, no_info, (r', m, late)) =
    (same ∙ e, no_info, (r', Memᴰ.tail m, late))
Honest-cons deadline r rs dst dst' (unfinished c) e h = tt

follow-Honest :
    (k : Call) (r : Round) (rs : List Round) (dst : Bytes) (n : Next) (rest : Local → Outcome)
    → HonestRound k r dst n
    → ((l : Local) → l.capture.fixed_rate ≡ false → Honest k.call_deadline rs l.dst (rest l))
    → Honest k.call_deadline (r ∷ rs) dst (follow n rest)
unfolding follow
follow-Honest k r rs dst (return read_one d info c) rest h more = tt
follow-Honest k r rs dst (return (read_error s) d info c) rest h more = tt
follow-Honest k r rs dst (return read_none d info c) rest (same, no_info, late) more =
    (same, no_info, (r, Memᴰ.head refl, late))
follow-Honest k r rs dst (continue l) rest (same, plain) more =
    Honest-cons k.call_deadline r rs dst l.dst (rest l) same (more l plain)

loop-Honest :
    (k : Call) (rs : List Round) (l : Local)
    → l.capture.fixed_rate ≡ false
    → Honest k.call_deadline rs l.dst (loop k rs l)
unfolding loop
loop-Honest k [] l plain = tt
loop-Honest k (r ∷ rs) l plain =
    follow-Honest k r rs l.dst (round k r l) (loop k rs) (round-HonestRound k r l plain)
      (loop-Honest k rs)

if-Honest :
    (deadline : ℕ) (rs : List Round) (dst : Bytes) (b : Bool) (o o' : Outcome)
    → Honest deadline rs dst o
    → Honest deadline rs dst o'
    → Honest deadline rs dst (if b then o else o')
if-Honest deadline rs dst true o o' h h' = h
if-Honest deadline rs dst false o o' h h' = h'

read_frame-Honest :
    (c : Capture) (dst : Bytes) (room : ℕ) (wants : Bool) (t : ℤ) (at : ℕ) (rs : List Round)
    → c.fixed_rate ≡ false
    → Honest (at + timeout_ns t) rs dst (read_frame c (some dst) room wants t at rs)
unfolding read_frame
read_frame-Honest c dst room wants t at rs plain =
    if-Honest (at + timeout_ns t) rs dst (not c.running) _ _ tt (
      if-Honest (at + timeout_ns t) rs dst (ltb room c.frame_samples) _ _ tt (
        loop-Honest (record { wants_info = wants; call_deadline = at + timeout_ns t }) rs
          (record { capture = c; dst = dst; total = 0 }) plain))

-- Without fixed-rate output a timeout is honest: a call that returns 0 has seen the clock at its
-- deadline or later, has left `dst` as it was, and gives no info.
pub honest_timeout :
    (c : Capture) (dst : Bytes) (room : ℕ) (wants : Bool) (t : ℤ) (at : ℕ) (rs : List Round)
    {d : Bytes} {info : Option FrameInfo} {c' : Capture}
    → c.fixed_rate ≡ false
    → read_frame c (some dst) room wants t at rs ≡ finished read_none d info c'
    → (d ≡ dst) × (info ≡ none) × ((r : Round) × Memᴰ r rs × (at + timeout_ns t ≤ r.after))
honest_timeout c dst room wants t at rs plain ends =
    subst (Honest (at + timeout_ns t) rs dst) ends
      (read_frame-Honest c dst room wants t at rs plain)
