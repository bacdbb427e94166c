-- ===== src/FrameQueue/Tests.antt =====
-- The frame queue of src/frame_queue.h on small queues.
use linux_web_audio_capture.Base.{
  ◌+◌, ◌*◌, ◌<◌, ◌≤◌, u64, false, ◌≡◌, ◌≢◌, refl, inl, ◌⊎◌, arith, List, [], ◌∷◌, Bytes, take,
}
use mathlib.Core.List.Sublist
use linux_web_audio_capture.CondVar.{Event, other, wake, wait_for}
use linux_web_audio_capture.FrameQueue.{
  FrameQueue, make_room, append, push, take_frame, pop, Act, pushes, closes, got_frame, max_size,
  ready, act,
}
use linux_web_audio_capture.FrameQueue.Inv.{IsValid}
use linux_web_audio_capture.FrameQueue.Refine.{
  view, overwrite_all, push_refines, take_frame_refines,
}
use linux_web_audio_capture.FrameQueue.Spec
use linux_web_audio_capture.FrameQueue.History.{
  Call, puts, takes, shuts, no_log, run, Accounts, run-Accounts,
}
use linux_web_audio_capture.FrameQueue.Abstract.{
  same_view, abstraction, push_seen, abstraction-push_seen,
}
use mathlib.Core.Equiv.{IsEquiv}
use mathlib.Core.Quot.{Quotient}
use mathlib.Core.Quot.Quotient
use linux_web_audio_capture.FrameQueue.Loss.{
  Reports, after, lost_by, lost_waiting, pop_without_frame,
}

-- Two slots of two bytes, both filled, the older frame in the second slot.
abbrev full : FrameQueue
full = record {
  storage = 3 ∷ 4 ∷ 1 ∷ 2 ∷ [];
  slot_bytes = 2;
  capacity = 2;
  count = 2;
  read_index = 1;
  dropped = 0;
  closed = false;
}

abbrev drained : FrameQueue
drained = record full { count = 0 }

abbrev frame : Bytes
frame = 5 ∷ 6 ∷ []

abbrev buffer : Bytes
buffer = 0 ∷ 0 ∷ []

full-IsValid : IsValid full
full-IsValid = record {
  stored = refl;
  addressable = omega arith;
  slots = omega arith;
  nonempty_slots = omega arith;
  bounded = omega arith;
  in_ring = omega arith;
}

drained-IsValid : IsValid drained
drained-IsValid = record {
  stored = refl;
  addressable = omega arith;
  slots = omega arith;
  nonempty_slots = omega arith;
  bounded = omega arith;
  in_ring = omega arith;
}

push_refines_example :
    ((push full frame).0, view (push full frame).1) ≡ Spec.push 2 (view full) (take 2 frame)
push_refines_example = push_refines {q = full} frame full-IsValid (omega arith)

take_frame_refines_example :
    ((take_frame full buffer).result ≡ (Spec.pop (view full)).0.result)
    × ((take_frame full buffer).discarded ≡ (Spec.pop (view full)).0.discarded)
    × (view (take_frame full buffer).queue ≡ (Spec.pop (view full)).1)
    × ((take_frame full buffer).out ≡ overwrite_all buffer (Spec.pop (view full)).0.frame)
take_frame_refines_example = take_frame_refines {q = full} buffer full-IsValid

-- Three frames go into two slots, and two come out.
abbrev calls : List Call
calls =
    puts (1 ∷ 2 ∷ []) ∷ puts (3 ∷ 4 ∷ []) ∷ puts (5 ∷ 6 ∷ []) ∷ takes ∷ shuts ∷ takes ∷ takes ∷ []

run-Accounts_example : Accounts (run calls (drained, no_log)).0 (run calls (drained, no_log)).1
run-Accounts_example =
    run-Accounts calls drained no_log drained-IsValid
      (omega arith, (omega arith, (omega arith, tt))) (omega arith)
      (record { in_order = Sublist.refl []; complete = refl })

abbrev meanwhile : List (Event Act)
meanwhile = wake ∷ other (pushes frame) ∷ wake ∷ other closes ∷ []

drained-Reports : Reports drained
drained-Reports = record { valid = drained-IsValid; counted = omega arith; loss = inl refl }

-- Pushes that fill the queue and overflow it, before the pop.
abbrev earlier : List Act
earlier = pushes frame ∷ pushes frame ∷ pushes frame ∷ []

pop_without_frame_example :
    let p = (pop meanwhile (after earlier drained) buffer).0 in
    let lost = 0 + lost_by earlier drained + lost_waiting meanwhile (after earlier drained) in
    Reports p.queue
    × (((p.result ≡ got_frame) × (p.discarded ≡ u64 lost) × (p.queue.dropped ≡ 0))
        ⊎ ((p.result ≢ got_frame)
            × (lost ≡ 0)
            × (p.discarded ≡ 0)
            × (p.out ≡ buffer)
            × (p.queue ≡ (wait_for ready act meanwhile (after earlier drained)).0)))
pop_without_frame_example = pop_without_frame {q = drained} earlier meanwhile buffer drained-Reports

one_lost : (pop meanwhile (after earlier drained) buffer).0.discarded ≡ 1
unfolding pop after push make_room append act take_frame wait_for
one_lost = refl

-- The full queue, as its callers see it, and a frame more.
positive : 0 < 2
positive = omega arith

fits : 2 * 2 ≤ max_size
fits = omega arith

abbrev full_seen : Quotient (same_view 2 2 positive positive fits)
full_seen = Quotient.mk (same_view 2 2 positive positive fits) (full, full-IsValid, refl, refl)

abstraction-push_seen_example :
    IsEquiv (abstraction 2 2 positive positive fits)
    × ((abstraction 2 2 positive positive fits
          (push_seen 2 2 positive positive fits frame (omega arith) full_seen)).0
        ≡ (Spec.push 2 (abstraction 2 2 positive positive fits full_seen).0 frame).1)
abstraction-push_seen_example =
    abstraction-push_seen 2 2 positive positive fits frame (omega arith) full_seen
