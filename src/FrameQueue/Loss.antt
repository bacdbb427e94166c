-- ===== src/FrameQueue/Loss.antt =====
-- The count of lost frames in src/frame_queue.h, which a pop resets: every lost frame is counted, and
-- none is reset without a frame that carries it.
use linux_web_audio_capture.Base.{
  subst, refl, ℕ, ◌+◌, ◌^◌, ◌<◌, ◌==◌, if◌then◌else◌, ◌≡◌, ◌≢◌, ◌⊎◌, inl, inr, arith, List, [], ◌∷◌,
  Bytes, u64,
}
use linux_web_audio_capture.CondVar.{Event, other, wake, await, wait_for}
use linux_web_audio_capture.FrameQueue.{
  FrameQueue, got_frame, make_room, append, push, close, take_frame, Act, pushes, closes, act,
  ready, pop,
}
use linux_web_audio_capture.FrameQueue.Inv.{
  IsValid, no_wrap, make_room-IsValid, make_room_room, make_room-shape, act-IsValid,
  take_frame-IsValid,
}

-- A valid queue in which lost frames are waiting to be reported only while a frame is there to be popped.
pub record Reports (q : FrameQueue) : Type 0 where
  pub valid : IsValid q
  pub counted : q.dropped < 2 ^ 64
  pub loss : (q.dropped ≡ 0) ⊎ (0 < q.count)

-- The frames that an operation loses: a push into an open queue that is full loses the oldest.
unfoldable pub loses : Act → FrameQueue → ℕ
loses (pushes f) q = if q.closed then 0 else if q.count == q.capacity then 1 else 0
loses closes q = 0

-- The queue after operations of other threads, and the frames that they lose.
unfoldable pub after : List Act → FrameQueue → FrameQueue
after [] q = q
after (a ∷ before) q = after before (act a q)

unfoldable pub lost_by : List Act → FrameQueue → ℕ
unfolding loses
lost_by [] q = 0
lost_by (a ∷ before) q = loses a q + lost_by before (act a q)

-- The frames lost while `pop` is blocked, and those lost until its wait is over.
unfoldable pub lost_blocked : List (Event Act) → FrameQueue → ℕ
unfolding loses
lost_blocked [] q = 0
lost_blocked (other a ∷ es) q = loses a q + lost_blocked es (act a q)
lost_blocked (wake ∷ es) q = let rest = lost_blocked es q in if ready q then 0 else rest

unfoldable pub lost_waiting : List (Event Act) → FrameQueue → ℕ
unfolding lost_blocked
lost_waiting es q = let lost = lost_blocked es q in if ready q then 0 else lost

-- A valid queue that has lost `n` frames since the last pop: it counts them as a `size_t`, and holds a
-- frame to report them with.
record Owes (n : ℕ) (q : FrameQueue) : Type 0 where
  valid : IsValid q
  counts : q.dropped ≡ u64 n
  loss : (n ≡ 0) ⊎ (0 < q.count)

append-count :
    (q : FrameQueue) (f : Bytes)
    → IsValid q
    → q.count < q.capacity
    → (0 < (append q f).count) × ((append q f).dropped ≡ q.dropped)
unfolding append
append-count q f v h = (omega (arith, no_wrap v), refl)

make_room-dropped :
    (n : ℕ) (q : FrameQueue)
    → q.dropped ≡ u64 n
    → (make_room q).1.dropped ≡ u64 (n + (if q.count == q.capacity then 1 else 0))
unfolding make_room
make_room-dropped n q h = ground arith

push-Owes :
    (n : ℕ) (f : Bytes) (q : FrameQueue)
    → Owes n q
    → ((push q f).1.dropped ≡ u64 (n + loses (pushes f) q))
      × ((n + loses (pushes f) q ≡ 0) ⊎ (0 < (push q f).1.count))
unfolding push loses
push-Owes n f q o = ground (
  arith,
  o.loss,
  o.counts,
  o.valid.nonempty_slots,
  make_room-dropped n q o.counts,
  append-count (make_room q).1 f (make_room-IsValid o.valid)
      (rw ((make_room-shape q).0) (make_room_room o.valid)),
)

act-Owes : (n : ℕ) (a : Act) (q : FrameQueue) → Owes n q → Owes (n + loses a q) (act a q)
unfolding act
act-Owes n (pushes f) q o = record {
  valid = act-IsValid (pushes f) q o.valid;
  counts = (push-Owes n f q o).0;
  loss = (push-Owes n f q o).1;
}
act-Owes n closes q o =
    unfold close loses in
    record {
      valid = act-IsValid closes q o.valid;
      counts = ground (arith, o.counts);
      loss = ground (arith, o.loss);
    }

-- Sums of losses, bracketed from the left.
regrouped : (n a b : ℕ) (q : FrameQueue) → Owes (n + a + b) q → Owes (n + (a + b)) q
regrouped n a b q o = subst (λ m. Owes m q) (omega arith) o

after-Owes :
    (n : ℕ) (before : List Act) (q : FrameQueue)
    → Owes n q
    → Owes (n + lost_by before q) (after before q)
unfolding after lost_by
after-Owes n [] q o = subst (λ m. Owes m q) (omega arith) o
after-Owes n (a ∷ before) q o =
    regrouped n (loses a q) (lost_by before (act a q)) _
      (after-Owes (n + loses a q) before (act a q) (act-Owes n a q o))

await-Owes :
    (n : ℕ) (es : List (Event Act)) (q : FrameQueue)
    → Owes n q
    → Owes (n + lost_blocked es q) (await ready act es q).0
unfolding await lost_blocked
await-Owes n [] q o = subst (λ m. Owes m q) (omega arith) o
await-Owes n (other a ∷ es) q o =
    regrouped n (loses a q) (lost_blocked es (act a q)) _
      (await-Owes (n + loses a q) es (act a q) (act-Owes n a q o))
await-Owes n (wake ∷ es) q o = ground (arith, o, await-Owes n es q o)

wait_for-Owes :
    (n : ℕ) (es : List (Event Act)) (q : FrameQueue)
    → Owes n q
    → Owes (n + lost_waiting es q) (wait_for ready act es q).0
unfolding wait_for lost_waiting
wait_for-Owes n es q o = ground (arith, o, await-Owes n es q o)

take_frame-Owes :
    (n : ℕ) (q : FrameQueue) (out : Bytes)
    → Owes n q
    → let p = take_frame q out in
      (p.queue.dropped ≡ 0)
      × (((p.result ≡ got_frame) × (p.discarded ≡ u64 n))
          ⊎ ((p.result ≢ got_frame) × (n ≡ 0) × (p.discarded ≡ 0) × (p.out ≡ out) × (p.queue ≡ q)))
unfolding take_frame
take_frame-Owes n q out o = ground (arith, o.loss, o.counts)

-- No loss goes unreported. Take a valid queue that counts lost frames only while a frame is there
-- to be popped, any pushes and closes, and then a `pop` with any pushes and closes during its wait.
-- A pop that gives a frame reports the frames counted at first and each one that a push discarded
-- since, as a `size_t`, and resets their count. Any other finds that none was lost, reports none,
-- leaves `out` alone, and leaves the queue as the wait left it. And lost frames are counted only
-- while there is a frame after the pop too.
pub pop_without_frame :
    {q : FrameQueue} (before : List Act) (es : List (Event Act)) (out : Bytes)
    → Reports q
    → let p = (pop es (after before q) out).0 in
      let lost = q.dropped + lost_by before q + lost_waiting es (after before q) in
      Reports p.queue
      × (((p.result ≡ got_frame) × (p.discarded ≡ u64 lost) × (p.queue.dropped ≡ 0))
          ⊎ ((p.result ≢ got_frame)
              × (lost ≡ 0)
              × (p.discarded ≡ 0)
              × (p.out ≡ out)
              × (p.queue ≡ (wait_for ready act es (after before q)).0)))
unfolding pop
pop_without_frame {q} before es out r =
    let found = (wait_for ready act es (after before q)).0 in
    let n = q.dropped + lost_by before q + lost_waiting es (after before q) in
    let owed : Owes q.dropped q = record {
      valid = r.valid;
      counts = omega (arith, r.counted);
      loss = r.loss;
    } in
    let o : Owes n found =
      wait_for-Owes _ es (after before q) (after-Owes q.dropped before q owed) in
    let (reset, ways) = take_frame-Owes n found out o in
    (
      record {
        valid = take_frame-IsValid out o.valid;
        counted = omega (arith, reset);
        loss = inl reset;
      },
      elim ways [
        | inl (got, lost) ↦ inl (got, lost, reset)
        | inr (none_got, no_loss, none_lost, same, kept) ↦
            inr (none_got, no_loss, none_lost, same, kept)
      ],
    )
