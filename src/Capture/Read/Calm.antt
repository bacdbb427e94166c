-- ===== src/Capture/Read/Calm.antt =====
-- Calls of `weba_capture_read_frame` (src/capture.cpp) with fixed-rate output while no frame is lost and no
-- stream reopened.
use Prim.Native.Nat.{bit_and, bit_or}
use linux_web_audio_capture.Base.{
  ℕ, suc, ◌+◌, ◌≤◌, ◌<◌, ◌^◌, Bool, true, false, not, ◌≡◌, refl, sym, subst, inl, inr, arith,
  Option, none, some, List, [], ◌∷◌, Bytes, ℤ, if◌then◌else◌, ltb, Bool-cases, u32,
}
use linux_web_audio_capture.CondVar.{
  Event, other, wake, await, wait_for, wait_for_ready, wait_for_unready,
}
use linux_web_audio_capture.FrameQueue
use linux_web_audio_capture.FrameQueue.{
  FrameQueue, Popped, got_frame, timed_out, was_closed, push, make_room, append, take_frame, ready,
}
use linux_web_audio_capture.Capture.{
  Capture, Act, pushes, reopens, requests_stop, closes, ends, act, acts, discontinuity, silence,
  underrun,
}
use linux_web_audio_capture.Capture.Read.{
  FrameInfo, Round, Outcome, finished, unfinished, Local, Next, return, continue, Call, deliver,
  take_due, due_round, round, follow, loop, with_deadline, read_frame, info_if,
}
use linux_web_audio_capture.Capture.Read.Ending.{at_top, fixed_round_of_time, round_of_fixed}

-- A queue with nothing to report, and with room for `n` frames more.
abbrev pub Roomy : ℕ → FrameQueue → Type 0
Roomy n q = (q.dropped ≡ 0) × (q.count + n ≤ q.capacity) × (q.capacity < 2 ^ 64)

push-Roomy : (n : ℕ) (q : FrameQueue) (f : Bytes) → Roomy (suc n) q → Roomy n (push q f).1
unfolding push make_room append
push-Roomy n q f (d, r, s) = (ground (arith, d, r, s), ground (arith, d, r, s), ground (arith, s))

-- A capture with fixed-rate output, such a queue and no pending flags.
abbrev pub Calm : ℕ → Capture → Type 0
Calm n c = (c.fixed_rate ≡ true) × (c.pending_flags ≡ 0) × Roomy n c.queue

Calm-less : (n m : ℕ) (c : Capture) → n ≤ m → Calm m c → Calm n c
Calm-less n m c h (f, p, (d, r, s)) = (f, p, (d, omega (arith, h, r), s))

-- The frames that other threads push, and that they reopen no stream.
abbrev pub pushed : List Act → ℕ
pushed [] = 0
pushed (pushes f ∷ more) = suc (pushed more)
pushed (reopens ∷ more) = pushed more
pushed (requests_stop ∷ more) = pushed more
pushed (closes ∷ more) = pushed more
pushed (ends ∷ more) = pushed more

abbrev pub Unbroken : List Act → Type 0
Unbroken [] = Unit {0}
Unbroken (pushes f ∷ more) = Unbroken more
Unbroken (reopens ∷ more) = ⊥
Unbroken (requests_stop ∷ more) = Unbroken more
Unbroken (closes ∷ more) = Unbroken more
Unbroken (ends ∷ more) = Unbroken more

abbrev pub pushed_waiting : List (Event FrameQueue.Act) → ℕ
pushed_waiting [] = 0
pushed_waiting (wake ∷ es) = pushed_waiting es
pushed_waiting (other (FrameQueue.pushes f) ∷ es) = suc (pushed_waiting es)
pushed_waiting (other FrameQueue.closes ∷ es) = pushed_waiting es

pub acts-Calm :
    (more : List Act) (n : ℕ) (c : Capture)
    → Unbroken more
    → Calm (pushed more + n) c
    → Calm n (acts more c)
unfolding acts act FrameQueue.close
acts-Calm [] n c u h = Calm-less n (0 + n) c (omega arith) h
acts-Calm (pushes f ∷ more) n c u (x, p, (d, r, s)) =
    acts-Calm more n (act (pushes f) c) u
      (x, p, push-Roomy (pushed more + n) c.queue f (d, omega (arith, r), s))
acts-Calm (reopens ∷ more) n c u h = absurd u
acts-Calm (requests_stop ∷ more) n c u h = acts-Calm more n (act requests_stop c) u h
acts-Calm (closes ∷ more) n c u h = acts-Calm more n (act closes c) u h
acts-Calm (ends ∷ more) n c u h = acts-Calm more n (act ends c) u h

await-Roomy :
    (es : List (Event FrameQueue.Act)) (n : ℕ) (q : FrameQueue)
    → Roomy (pushed_waiting es + n) q
    → Roomy n (await ready FrameQueue.act es q).0
unfolding await FrameQueue.act FrameQueue.close
await-Roomy [] n q (d, r, s) = (d, omega (arith, r), s)
await-Roomy (wake ∷ es) n q (d, r, s) =
    let later = await-Roomy es n q (d, r, s) in
    (ground (arith, d, later.0), ground (arith, r, later.1), ground (arith, s, later.2))
await-Roomy (other (FrameQueue.pushes f) ∷ es) n q (d, r, s) =
    await-Roomy es n (push q f).1 (push-Roomy (pushed_waiting es + n) q f (d, omega (arith, r), s))
await-Roomy (other FrameQueue.closes ∷ es) n q (d, r, s) =
    await-Roomy es n (FrameQueue.close q) (d, r, s)

wait-Roomy :
    (es : List (Event FrameQueue.Act)) (n : ℕ) (q : FrameQueue)
    → Roomy (pushed_waiting es + n) q
    → Roomy n (wait_for ready FrameQueue.act es q).0
wait-Roomy es n q (d, r, s) = elim (Bool-cases (ready q)) [
  | inl e ↦ rw (wait_for_ready ready FrameQueue.act es q e) (d, omega (arith, r), s)
  | inr e ↦ rw (wait_for_unready ready FrameQueue.act es q e) (await-Roomy es n q (d, r, s))
]

take_frame-Roomy :
    (n : ℕ) (q : FrameQueue) (out : Bytes)
    → Roomy n q
    → ((take_frame q out).discarded ≡ 0) × Roomy n (take_frame q out).queue
unfolding take_frame
take_frame-Roomy n q out (d, r, s) =
    (ground (arith, d), (ground arith, ground (arith, r), ground (arith, s)))

-- No frame is flagged as a discontinuity.
abbrev pub Unflagged : Option FrameInfo → Type 0
Unflagged none = Unit {0}
Unflagged (some i) = bit_and i.flags discontinuity ≡ 0

abbrev CalmNext : ℕ → Next → Type 0
CalmNext n (return s dst info c) = Unflagged info × Calm n c
CalmNext n (continue l) = (l.total ≡ 0) × Calm n l.capture

abbrev pub CalmEnd : ℕ → Outcome → Type 0
CalmEnd n (finished s dst info c) = Unflagged info × Calm n c
CalmEnd n (unfinished c) = Calm n c

-- The frames that are pushed during a round, and during rounds.
abbrev pub round_pushed : Round → ℕ
round_pushed r = pushed r.before + (pushed_waiting r.during_pop + pushed r.between)

abbrev pub rounds_pushed : List Round → ℕ
rounds_pushed [] = 0
rounds_pushed (r ∷ rs) = round_pushed r + rounds_pushed rs

abbrev pub AllUnbroken : List Round → Type 0
AllUnbroken [] = Unit {0}
AllUnbroken (r ∷ rs) = Unbroken r.before × Unbroken r.between × AllUnbroken rs

unflagged :
    (wants silent : Bool) (after dropped : ℕ)
    → Unflagged (
        info_if wants (record {
          timestamp_ns = after;
          flags = if silent then bit_or (bit_or 0 0) (bit_or silence underrun) else bit_or 0 0;
          dropped_frames = dropped;
        }))
unflagged false silent after dropped = tt
unflagged true true after dropped = refl
unflagged true false after dropped = refl

deliver-Calm :
    (n : ℕ) (k : Call) (r : Round) (silent : Bool) (l : Local)
    → Unbroken r.between
    → l.total ≡ 0
    → Calm (pushed r.between + n) l.capture
    → CalmNext n (deliver k r silent l)
unfolding deliver
deliver-Calm n k r silent l u t h =
    let (x, p, q) = acts-Calm r.between n l.capture u h in
    (rw (p, t) (unflagged k.wants_info silent r.after (u32 0)), (x, refl, q))

take_due-Calm :
    (n : ℕ) (k : Call) (r : Round) (l : Local) (p : Popped)
    → Unbroken r.between
    → l.total ≡ 0
    → Calm (pushed r.between + n) l.capture
    → CalmNext n (take_due k r l p)
unfolding take_due
take_due-Calm n k r l was_closed u t h =
    (tt, Calm-less n (pushed r.between + n) l.capture (omega arith) h)
take_due-Calm n k r l timed_out u t h = deliver-Calm n k r true l u t h
take_due-Calm n k r l got_frame u t h = deliver-Calm n k r false l u t h

due_round-Calm :
    (n : ℕ) (k : Call) (r : Round) (l : Local)
    → Unbroken r.between
    → l.total ≡ 0
    → Calm (pushed_waiting r.during_pop + (pushed r.between + n)) l.capture
    → CalmNext n (due_round k r l)
unfolding due_round FrameQueue.pop
due_round-Calm n k r l u t (x, p, q) =
    let found = (wait_for ready FrameQueue.act r.during_pop l.capture.queue).0 in
    let (none_lost, roomy) =
      take_frame-Roomy (pushed r.between + n) found l.dst
        (wait-Roomy r.during_pop (pushed r.between + n) l.capture.queue q) in
    take_due-Calm n k r _ (take_frame found l.dst).result u (omega (arith, t, none_lost))
      (x, p, roomy)

with_deadline-Calm : (n now : ℕ) (c : Capture) → Calm n c → Calm n (with_deadline now c)
unfolding with_deadline
with_deadline-Calm n now c (x, p, (d, r, s)) = (
  ground (arith, x),
  ground (arith, p),
  (ground (arith, d), ground (arith, r), ground (arith, s)),
)

round-Calm :
    (n : ℕ) (k : Call) (r : Round) (l : Local)
    → Unbroken r.before
    → Unbroken r.between
    → l.total ≡ 0
    → Calm (round_pushed r + n) l.capture
    → CalmNext n (round k r l)
round-Calm n k r l u u' t h =
    let m = pushed_waiting r.during_pop + (pushed r.between + n) in
    let c = acts r.before l.capture in
    let l' = record l { capture = c } in
    let here = with_deadline-Calm m r.now c (
      acts-Calm r.before m l.capture u
        (Calm-less (pushed r.before + m) (round_pushed r + n) l.capture (omega arith) h)) in
    let left = Calm-less n m (at_top r l.capture) (omega arith) here in
    subst (CalmNext n) (sym (round_of_fixed k r l h.0)) (elim (fixed_round_of_time k r l') [
      | inl e ↦
          subst (CalmNext n) (sym e)
            (due_round-Calm n k r (record l { capture = at_top r l.capture }) u' t here)
      | inr (inl e) ↦ subst (CalmNext n) (sym e) (tt, left)
      | inr (inr (_, _, e)) ↦ subst (CalmNext n) (sym e) (t, left)
    ])

follow-Calm :
    (n m : ℕ) (x : Next) (rest : Local → Outcome)
    → n ≤ m
    → CalmNext m x
    → ((l : Local) → l.total ≡ 0 → Calm m l.capture → CalmEnd n (rest l))
    → CalmEnd n (follow x rest)
unfolding follow
follow-Calm n m (return s dst info c) rest le (flags, h) go = (flags, Calm-less n m c le h)
follow-Calm n m (continue l) rest le (t, h) go = go l t h

loop-Calm :
    (rs : List Round) (n : ℕ) (k : Call) (l : Local)
    → AllUnbroken rs
    → l.total ≡ 0
    → Calm (rounds_pushed rs + n) l.capture
    → CalmEnd n (loop k rs l)
unfolding loop
loop-Calm [] n k l u t h = Calm-less n (0 + n) l.capture (omega arith) h
loop-Calm (r ∷ rs) n k l (u, u', more) t h =
    follow-Calm n (rounds_pushed rs + n) (round k r l) (loop k rs) (omega arith)
      (round-Calm (rounds_pushed rs + n) k r l u u' t (
        Calm-less (round_pushed r + (rounds_pushed rs + n)) (rounds_pushed (r ∷ rs) + n) l.capture
          (omega arith) h))
      (λ l'. loop-Calm rs n k l' more)

if-CalmEnd :
    (n : ℕ) (b : Bool) (o o' : Outcome)
    → CalmEnd n o
    → CalmEnd n o'
    → CalmEnd n (if b then o else o')
if-CalmEnd n true o o' h h' = h
if-CalmEnd n false o o' h h' = h'

-- A call during which nothing is lost leaves the capture calm, and flags no discontinuity.
pub read_frame-Calm :
    (n : ℕ) (c : Capture) (dst : Bytes) (room : ℕ) (wants : Bool) (t : ℤ) (at : ℕ) (rs : List Round)
    → AllUnbroken rs
    → Calm (rounds_pushed rs + n) c
    → CalmEnd n (read_frame c (some dst) room wants t at rs)
unfolding read_frame
read_frame-Calm n c dst room wants t at rs u h =
    let left = Calm-less n (rounds_pushed rs + n) c (omega arith) h in
    if-CalmEnd n (not c.running) _ _ (tt, left)
      (if-CalmEnd n (ltb room c.frame_samples) _ _ (tt, left) (loop-Calm rs n _ _ u refl h))
