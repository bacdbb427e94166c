-- ===== src/FrameQueue/Abstract.antt =====
-- The queue of src/frame_queue.h up to what its callers can see: where the frames lie in the storage, and
-- what the free slots hold, is forgotten.
use mathlib.Core.Equiv.{IsEquiv, iso_to_equiv}
use mathlib.Core.HLevel.{Σ_prop_path, Σ_set, prop→set, ×_prop}
use mathlib.Core.List
use mathlib.Core.Quot.{Setoid, Quotient, Quotient-set}
use mathlib.Core.Quot.Quotient
use native.Mathlib.Bridge.{le_prop}
use native.Mathlib.Nat.{ℕ_set}
use linux_web_audio_capture.Base.{
  ℕ, max, ◌*◌, ◌≤◌, ◌<◌, ◌≡◌, refl, sym, ap, ap₂, ◌∙◌, subst, arith, Bytes, length,
  length-replicate, replicate, take,
}
use linux_web_audio_capture.FrameQueue.{FrameQueue, sized, push, max_size}
use linux_web_audio_capture.FrameQueue.Inv.{IsValid, push-IsValid, slot_bytes-push}
use linux_web_audio_capture.FrameQueue.Spec
use linux_web_audio_capture.FrameQueue.Spec.{Frames}
use linux_web_audio_capture.FrameQueue.Refine.{contents, view, push_refines, length-contents}
use linux_web_audio_capture.FrameQueue.Loading.{
  AllSized, AllSized-prop, window-AllSized, capacity-push, load, Loaded, load-Loaded,
}

Frames-set : IsSet Frames
Frames-set = hlevel (List.is_set, ℕ_set)

module _ (sb cap : ℕ) (nonempty_slots : 0 < sb) (slots : 0 < cap)
    (addressable : cap * sb ≤ max_size) where
  -- The valid queues with `cap` slots of `sb` bytes, and the abstract states of such a queue.
  abbrev pub Ring : Type 0
  Ring = (q : FrameQueue) × IsValid q × (q.slot_bytes ≡ sb) × (q.capacity ≡ cap)

  abbrev pub States : Type 0
  States = (s : Frames) × ((length s.frames ≤ cap) × AllSized sb s.frames)

  -- Two queues that no caller can tell apart.
  abbrev pub same_view : Setoid {0, 0} Ring
  same_view = record {
    r = λ a b. view a.0 ≡ view b.0;
    iseqv = record { refl = λ a. refl; symm = λ a b. sym; trans = λ a b c p q. p ∙ q };
  }

  States-prop : (s : Frames) → IsProp ((length s.frames ≤ cap) × AllSized sb s.frames)
  States-prop s = ×_prop le_prop (AllSized-prop sb s.frames)

  abbrev state_of : Ring → States
  state_of (q, v, n, k) = (
    view q,
    (
      omega (arith, length-contents q, v.bounded, k),
      subst (λ m. AllSized m (contents q)) n
          (window-AllSized q.storage q.slot_bytes q.capacity q.read_index q.count v.in_ring
            (omega (arith, v.stored)) v.addressable),
    ),
  )

  States-set : IsSet States
  States-set = Σ_set Frames-set (λ s. prop→set (States-prop s))

  -- What a caller sees of a queue.
  pub abstraction : Quotient same_view → States
  abstraction =
      Quotient.lift same_view States-set state_of (λ a b same. Σ_prop_path States-prop same)

  abbrev empty_queue : FrameQueue
  empty_queue = sized (replicate (cap * sb) 0) sb cap

  capacity_kept : max cap 1 ≡ cap
  capacity_kept = omega (arith, slots)

  empty_queue-IsValid : IsValid empty_queue
  empty_queue-IsValid = record {
    stored = length-replicate {A = ℕ} (cap * sb) 0 ∙ ap (λ k. k * sb) (sym capacity_kept);
    addressable = rw capacity_kept addressable;
    slots = omega arith;
    nonempty_slots = nonempty_slots;
    bounded = omega arith;
    in_ring = omega arith;
  }

  -- A queue for each abstract state, made by pushes.
  loaded : (s : States) → Loaded empty_queue s.0.frames (load empty_queue s.0.frames)
  loaded (s, (fits, sizes)) =
      load-Loaded empty_queue s.frames empty_queue-IsValid refl sizes (omega (arith, fits, slots))

  ring_of : States → Ring
  ring_of s =
      let d = load empty_queue s.0.frames in
      let l = loaded s in
      (
        record d { dropped = s.0.dropped; closed = s.0.closed },
        record {
          stored = l.valid.stored;
          addressable = l.valid.addressable;
          slots = l.valid.slots;
          nonempty_slots = l.valid.nonempty_slots;
          bounded = l.valid.bounded;
          in_ring = l.valid.in_ring;
        },
        l.slot_bytes,
        omega (arith, l.capacity, slots),
      )

  view-ring_of : (s : States) → view (ring_of s).0 ≡ s.0
  unfolding ring_of
  view-ring_of s = ap (λ fs. record s.0 { frames = fs }) (loaded s).frames

  pub abstraction-IsEquiv : IsEquiv abstraction
  unfolding abstraction ring_of Quotient.lift
  abstraction-IsEquiv =
      (iso_to_equiv (record {
        fun = abstraction;
        inv = λ s. Quotient.mk same_view (ring_of s);
        rinv = λ s. Σ_prop_path States-prop (view-ring_of s);
        linv =
            Quotient.ind same_view (λ x. Quotient-set same_view _ _)
              (λ q. Quotient.sound same_view (view-ring_of (state_of q)));
      })).1

  -- A push of a buffer of one frame at least, on what callers see.
  push_ring : (f : Bytes) → Ring → Ring
  push_ring f (q, v, n, k) =
      ((push q f).1, push-IsValid f v, slot_bytes-push q f ∙ n, capacity-push q f ∙ k)

  view-push_ring :
      (f : Bytes)
      → sb ≤ length f
      → (a : Ring) → view (push_ring f a).0 ≡ (Spec.push cap (view a.0) (take sb f)).1
  unfolding push_ring
  view-push_ring f room (q, v, n, k) =
      ap (λ r. r.1) (push_refines f v (omega (arith, n, room)))
      ∙ ap₂ (λ c m. (Spec.push c (view q) (take m f)).1) k n

  pub push_seen : (f : Bytes) → sb ≤ length f → Quotient same_view → Quotient same_view
  push_seen f room =
      Quotient.lift same_view (Quotient-set same_view) (λ a. Quotient.mk same_view (push_ring f a))
        (λ a b same. Quotient.sound same_view (
          view-push_ring f room a
          ∙ ap (λ s. (Spec.push cap s (take sb f)).1) same
          ∙ sym (view-push_ring f room b)))

  -- A queue up to what its callers can see. The valid queues with `cap` slots of `sb` bytes, where
  -- two are the same if they hold the same frames in the same order, count as many dropped frames
  -- and are both open or both closed, are equivalent, as a type, to the abstract states: at most
  -- `cap` frames of `sb` bytes each, a count and whether the queue is closed. So no such state is
  -- out of reach of the storage. `push` of a buffer of one frame at least is a function of the
  -- first type, and is under the equivalence the push of Spec.
  pub abstraction-push_seen :
      (f : Bytes) (room : sb ≤ length f) (x : Quotient same_view)
      → IsEquiv abstraction
        × ((abstraction (push_seen f room x)).0 ≡ (Spec.push cap (abstraction x).0 (take sb f)).1)
  unfolding abstraction push_seen Quotient.lift
  abstraction-push_seen f room x = (
    abstraction-IsEquiv,
    Quotient.ind same_view
        {motive = λ x.
          (abstraction (push_seen f room x)).0 ≡ (Spec.push cap (abstraction x).0 (take sb f)).1}
        (λ x. Frames-set _ _) (view-push_ring f room) x,
  )
