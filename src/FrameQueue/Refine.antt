-- ===== src/FrameQueue/Refine.antt =====
-- The methods of src/frame_queue.h do to the frames in the ring what the list of Spec does.
use native.Mathlib.Numerals.{add-one}
use linux_web_audio_capture.Base.{
  ℕ, ◌+◌, ◌%◌, ◌≤◌, ◌<◌, ◌≡◌, refl, ap, ◌≢◌, ◌⊎◌, inl, inr, true, false, Bool-cases, ◌==◌, ◌-◌,
  arith, List, [], ◌∷◌, ◌++◌, Bytes, length, take, overwrite, length-take, u64,
}
use linux_web_audio_capture.FrameQueue.{
  FrameQueue, got_frame, timed_out, was_closed, make_room, append, push, take_frame, write_index,
}
use linux_web_audio_capture.FrameQueue.Inv.{
  IsValid, no_wrap, slot_in_storage, make_room-IsValid, make_room_room, make_room-shape,
}
use linux_web_audio_capture.FrameQueue.Spec
use linux_web_audio_capture.FrameQueue.Spec.{Frames, Reply}
use linux_web_audio_capture.FrameQueue.Window.{
  slot, window, length-window, window_of_ne_zero, window-overwrite,
}

abbrev pub contents : FrameQueue → List Bytes
contents q = window q.storage q.slot_bytes q.capacity q.read_index q.count

abbrev pub view : FrameQueue → Frames
view q = record { frames = contents q; dropped = q.dropped; closed = q.closed }

-- A buffer after the frame of a reply, if there is one, is copied to its start.
abbrev pub overwrite_all : Bytes → List Bytes → Bytes
overwrite_all out [] = out
overwrite_all out (f ∷ fs) = overwrite out 0 f

pub length-contents : (q : FrameQueue) → length (contents q) ≡ q.count
length-contents q = length-window q.storage q.slot_bytes q.capacity q.read_index q.count

length-take_frame : (n : ℕ) (frame : Bytes) → n ≤ length frame → length (take n frame) ≡ n
length-take_frame n frame h = omega (arith, length-take n frame)

append-contents :
    {q : FrameQueue} (frame : Bytes)
    → IsValid q
    → q.count < q.capacity
    → q.slot_bytes ≤ length frame
    → contents (append q frame) ≡ contents q ++ (take q.slot_bytes frame ∷ [])
unfolding append
append-contents {q} frame v room h =
    rw
      (
        (no_wrap v).2,
        (slot_in_storage (write_index q) capacity slot_bytes (omega (arith, v.slots))
            v.addressable).0,
        add-one,
      )
      (window-overwrite storage slot_bytes capacity (take slot_bytes frame) count read_index
        (write_index q) (length-take_frame slot_bytes frame h) (omega (arith, v.stored)) v.in_ring
        room (ap (λ k. k % capacity) (no_wrap v).0))
  where
    open q use {storage, slot_bytes, capacity, count, read_index}

-- What discarding the oldest frame does to the contents.
make_room-contents :
    {q : FrameQueue}
    → IsValid q
    → let (discarded, q') = make_room q in
      ((q.count ≡ q.capacity)
        × (discarded ≡ 1)
        × (contents q' ≡ Spec.rest (contents q))
        × (q'.dropped ≡ u64 (q.dropped + 1)))
      ⊎ ((q.count ≢ q.capacity) × (discarded ≡ 0) × (q' ≡ q))
unfolding make_room
make_room-contents {q} v =
    ground
      (arith, no_wrap v, window_of_ne_zero q.storage q.slot_bytes q.capacity q.read_index q.count)

append-rest :
    (q : FrameQueue) (frame : Bytes)
    → ((append q frame).dropped ≡ q.dropped) × ((append q frame).closed ≡ q.closed)
unfolding append
append-rest q frame = (refl, refl)

-- On a valid queue, `push` of a buffer that holds a frame returns, drops, counts and stores what
-- the list of Spec does.
pub push_refines :
    {q : FrameQueue} (frame : Bytes)
    → IsValid q
    → q.slot_bytes ≤ length frame
    → let (discarded, q') = push q frame in
      (discarded, view q') ≡ Spec.push q.capacity (view q) (take q.slot_bytes frame)
unfolding push Spec.push
push_refines {q} frame v h = ground (
  arith,
  length-contents q,
  make_room-contents v,
  make_room-shape q,
  append-rest (make_room q).1 frame,
  append-contents frame (make_room-IsValid v) (rw ((make_room-shape q).0) (make_room_room v)),
)

-- On a valid queue, `pop`, once its wait is over, has the result of the list of Spec and reports as
-- many frames as lost, leaves the queue that the list says, copies the frame to the start of `out`
-- if there is one, and leaves the rest of `out` alone.
pub take_frame_refines :
    {q : FrameQueue} (out : Bytes)
    → IsValid q
    → let p = take_frame q out in
      let (reply, left) = Spec.pop (view q) in
      (p.result ≡ reply.result)
      × (p.discarded ≡ reply.discarded)
      × (view p.queue ≡ left)
      × (p.out ≡ overwrite_all out reply.frame)
unfolding take_frame Spec.pop
take_frame_refines {q} out v = ground (
  arith,
  no_wrap v,
  slot_in_storage q.read_index q.capacity q.slot_bytes v.in_ring v.addressable,
  window_of_ne_zero q.storage q.slot_bytes q.capacity q.read_index q.count,
)

-- The three ways of a `pop` whose wait is over.
pub take_frame_ways :
    {q : FrameQueue} (out : Bytes)
    → IsValid q
    → let p = take_frame q out in
      ((contents q ≡ []) × (q.closed ≡ true) × (p.result ≡ was_closed) × (p.out ≡ out))
      ⊎ ((contents q ≡ []) × (q.closed ≡ false) × (p.result ≡ timed_out) × (p.out ≡ out))
      ⊎ ((f : Bytes) × (fs : List Bytes) × (contents q ≡ f ∷ fs)
          × (p.result ≡ got_frame)
          × (p.out ≡ overwrite out 0 f)
          × (contents p.queue ≡ fs))
unfolding take_frame
take_frame_ways {q} out v = elim (Bool-cases (q.count == 0)) [
  | inl z ↦ elim (Bool-cases q.closed) [
    | inl c ↦ inl (ground arith, c, ground arith, ground arith)
    | inr c ↦ inr (inl (ground arith, c, ground arith, ground arith))
  ]
  | inr nz ↦ inr (
      inr (
        slot storage slot_bytes read_index,
        window storage slot_bytes capacity ((read_index + 1) % capacity) (count - 1),
        window_of_ne_zero storage slot_bytes capacity read_index count (ground arith),
        ground arith,
        ground (arith, slot_in_storage read_index capacity slot_bytes v.in_ring v.addressable),
        ground (arith, no_wrap v),
      ))
]
  where
    open q use {storage, slot_bytes, capacity, count, read_index}
