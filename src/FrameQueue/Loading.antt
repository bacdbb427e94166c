-- ===== src/FrameQueue/Loading.antt =====
-- Filling the queue of src/frame_queue.h by pushes.
use mathlib.Core.HLevel.{×_prop}
use native.Mathlib.Nat.{ℕ_set}
use linux_web_audio_capture.Base.{
  ℕ, zero, suc, ◌+◌, ◌*◌, ◌%◌, ◌≤◌, ◌<◌, false, ◌≡◌, refl, sym, ap, ◌∙◌, arith, List, [], ◌∷◌, ◌++◌,
  append_assoc, append-nil, Bytes, length, length-append, take_all,
}
use linux_web_audio_capture.FrameQueue.{FrameQueue, push, make_room, append, max_size}
use linux_web_audio_capture.FrameQueue.Inv.{IsValid, push-IsValid, slot_in_storage, slot_bytes-push}
use linux_web_audio_capture.FrameQueue.Spec
use linux_web_audio_capture.FrameQueue.Spec.{Frames}
use linux_web_audio_capture.FrameQueue.Window.{window}
use linux_web_audio_capture.FrameQueue.Refine.{contents, push_refines, length-contents}
use linux_web_audio_capture.FrameQueue.History.{length-slot}

-- Every frame has the size of a slot.
pub AllSized : ℕ → List Bytes → Type 0
AllSized sb [] = Unit {0}
AllSized sb (f ∷ fs) = (length f ≡ sb) × AllSized sb fs

pub AllSized-prop : (sb : ℕ) (fs : List Bytes) → IsProp (AllSized sb fs)
unfolding AllSized
AllSized-prop sb [] = hlevel
AllSized-prop sb (f ∷ fs) = ×_prop (ℕ_set (length f) sb) (AllSized-prop sb fs)

pub window-AllSized :
    (storage : Bytes) (sb cap h n : ℕ)
    → h < cap
    → cap * sb ≤ length storage
    → cap * sb ≤ max_size
    → AllSized sb (window storage sb cap h n)
unfolding AllSized
window-AllSized storage sb cap h zero inside room m = tt
window-AllSized storage sb cap h (suc n) inside room m = (
  length-slot storage sb h (omega (arith, slot_in_storage h cap sb inside m)),
  window-AllSized storage sb cap ((h + 1) % cap) n (omega (arith, inside)) room m,
)

-- Frames pushed one after the other, without one between them that is dropped.
pub load : FrameQueue → List Bytes → FrameQueue
load q [] = q
load q (f ∷ fs) = load (push q f).1 fs

pub record Loaded (q : FrameQueue) (fs : List Bytes) (d : FrameQueue) : Type 0 where
  pub valid : IsValid d
  pub slot_bytes : d.slot_bytes ≡ q.slot_bytes
  pub capacity : d.capacity ≡ q.capacity
  pub frames : contents d ≡ contents q ++ fs

pub capacity-push : (q : FrameQueue) (f : Bytes) → (push q f).1.capacity ≡ q.capacity
unfolding push make_room append
capacity-push q f = ground arith

-- A push where there is room.
push-room :
    (q : FrameQueue) (f : Bytes)
    → IsValid q
    → q.closed ≡ false
    → length f ≡ q.slot_bytes
    → q.count < q.capacity
    → (contents (push q f).1 ≡ contents q ++ (f ∷ [])) × ((push q f).1.closed ≡ false)
unfolding Spec.push
push-room q f v o n room = ground (
  arith,
  take_all q.slot_bytes f (omega (arith, n)),
  ap (λ r. r.1.frames) (push_refines f v (omega (arith, n))),
  ap (λ r. r.1.closed) (push_refines f v (omega (arith, n))),
  length-contents q,
)

pub load-Loaded :
    (q : FrameQueue) (fs : List Bytes)
    → IsValid q
    → q.closed ≡ false
    → AllSized q.slot_bytes fs
    → q.count + length fs ≤ q.capacity
    → Loaded q fs (load q fs)
unfolding load AllSized
load-Loaded q [] v o sizes room = record {
  valid = v;
  slot_bytes = refl;
  capacity = refl;
  frames = sym (append-nil (contents q));
}
load-Loaded q (f ∷ fs) v o (n, sizes) room =
    let (e, o') = push-room q f v o n (omega (arith, room)) in
    let count : (push q f).1.count ≡ q.count + 1 = omega (
      arith,
      length-contents q,
      length-contents (push q f).1,
      ap length e,
      length-append (contents q) (f ∷ []),
    ) in
    let rest =
      load-Loaded (push q f).1 fs (push-IsValid f v) o' (rw (slot_bytes-push q f) sizes)
        (omega (arith, count, capacity-push q f, room)) in
    record {
      valid = rest.valid;
      slot_bytes = rest.slot_bytes ∙ slot_bytes-push q f;
      capacity = rest.capacity ∙ capacity-push q f;
      frames = rest.frames ∙ ap (λ l. l ++ fs) e ∙ append_assoc (contents q) (f ∷ []) fs;
    }
