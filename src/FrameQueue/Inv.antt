-- ===== src/FrameQueue/Inv.antt =====
-- The representation invariant of the frame queue: every index inside its storage, no `size_t`
-- operation that wraps.
use linux_web_audio_capture.Base.{
  ℕ, ◌+◌, ◌*◌, ◌^◌, ◌≤◌, ◌<◌, max, Bool, true, false, ◌≡◌, arith, Bytes, length, take,
  length-overwrite, length-replicate, u64,
}
use linux_web_audio_capture.FrameQueue.{
  FrameQueue, returned, init, make_room, append, push, close, take_frame, Act, pushes, closes, act,
  offset, write_index, max_size,
}

pub record IsValid (q : FrameQueue) : Type 0 where
  pub stored : length q.storage ≡ q.capacity * q.slot_bytes
  pub addressable : q.capacity * q.slot_bytes ≤ max_size
  pub slots : 0 < q.capacity
  pub nonempty_slots : 0 < q.slot_bytes
  pub bounded : q.count ≤ q.capacity
  pub in_ring : q.read_index < q.capacity

-- A slot inside the ring lies inside the storage, and its offset does not wrap.
pub slot-end-le : (i cap sb : ℕ) → i < cap → i * sb + sb ≤ cap * sb
slot-end-le i cap sb h = grind arith

pub slot_in_storage :
    (i cap sb : ℕ)
    → i < cap
    → cap * sb ≤ max_size
    → (u64 (i * sb) ≡ i * sb) × (i * sb + sb ≤ cap * sb)
slot_in_storage i cap sb h m = omega (arith, slot-end-le i cap sb h)

le-mul : (cap sb : ℕ) → 0 < sb → cap ≤ cap * sb
le-mul cap sb h = grind arith

pub capacity-le-max : {q : FrameQueue} → IsValid q → q.capacity ≤ max_size
capacity-le-max {q} v = omega (arith, le-mul q.capacity q.slot_bytes v.nonempty_slots)

-- No `size_t` addition on the indices wraps.
pub no_wrap :
    {q : FrameQueue}
    → IsValid q
    → (u64 (q.read_index + q.count) ≡ q.read_index + q.count)
      × (u64 (q.read_index + 1) ≡ q.read_index + 1)
      × (u64 (q.count + 1) ≡ q.count + 1)
no_wrap v = omega (arith, capacity-le-max v)

-- In a valid queue the slot that the next frame goes to and the slot of the oldest frame lie inside
-- the storage.
pub in_bounds :
    {q : FrameQueue}
    → IsValid q
    → (offset q (write_index q) + q.slot_bytes ≤ length q.storage)
      × (offset q q.read_index + q.slot_bytes ≤ length q.storage)
in_bounds {q} v = omega (
  arith,
  no_wrap v,
  slot_in_storage (write_index q) q.capacity q.slot_bytes (omega (arith, v.slots)) v.addressable,
  slot_in_storage q.read_index q.capacity q.slot_bytes v.in_ring v.addressable,
)

pub make_room-IsValid : {q : FrameQueue} → IsValid q → IsValid (make_room q).1
unfolding make_room
make_room-IsValid {q} v = ground arith

pub make_room_room : {q : FrameQueue} → IsValid q → (make_room q).1.count < q.capacity
unfolding make_room
make_room_room {q} v = ground arith

pub append-IsValid :
    {q : FrameQueue} (frame : Bytes) → IsValid q → q.count < q.capacity → IsValid (append q frame)
unfolding append
append-IsValid {q} frame v h = ground (
  arith,
  no_wrap v,
  length-overwrite q.storage (offset q (write_index q)) (take q.slot_bytes frame),
)

pub make_room-shape :
    (q : FrameQueue)
    → ((make_room q).1.capacity ≡ q.capacity)
      × ((make_room q).1.slot_bytes ≡ q.slot_bytes)
      × ((make_room q).1.storage ≡ q.storage)
      × ((make_room q).1.closed ≡ q.closed)
unfolding make_room
make_room-shape q = ground arith

pub push-IsValid : {q : FrameQueue} (frame : Bytes) → IsValid q → IsValid (push q frame).1
unfolding push
push-IsValid {q} frame v =
    ground (arith, append-IsValid frame (make_room-IsValid v), make_room_room v, make_room-shape q)

pub take_frame-IsValid :
    {q : FrameQueue} (out : Bytes) → IsValid q → IsValid (take_frame q out).queue
unfolding take_frame
take_frame-IsValid {q} out v = ground arith

pub act-IsValid : (a : Act) (q : FrameQueue) → IsValid q → IsValid (act a q)
unfolding act close
act-IsValid (pushes frame) q v = push-IsValid frame v
act-IsValid closes q v = ground arith

-- What `init` accepts is an empty, open, valid queue, where the storage that was asked for is the
-- storage that the slots need.
pub init-IsValid :
    (room : ℕ → Bool) (q : FrameQueue) (slot_bytes capacity : ℕ) {r : FrameQueue}
    → max capacity 1 * slot_bytes < 2 ^ 64
    → init room q slot_bytes capacity ≡ returned true r
    → IsValid r
unfolding init
init-IsValid room q slot_bytes capacity h e =
    ground (arith, length-replicate {A = ℕ} (u64 (max capacity 1 * slot_bytes)) 0)

-- What `init` leaves where it succeeds: as many bytes as the `size_t` product says.
pub init-shape :
    (room : ℕ → Bool) (q : FrameQueue) (slot_bytes capacity : ℕ) {r : FrameQueue}
    → init room q slot_bytes capacity ≡ returned true r
    → (r.slot_bytes ≡ slot_bytes)
      × (r.capacity ≡ max capacity 1)
      × (r.count ≡ 0)
      × (r.closed ≡ false)
      × (r.dropped ≡ 0)
      × (length r.storage ≡ u64 (max capacity 1 * slot_bytes))
unfolding init
init-shape room q slot_bytes capacity e =
    ground (arith, length-replicate {A = ℕ} (u64 (max capacity 1 * slot_bytes)) 0)

pub close-IsValid : {q : FrameQueue} → IsValid q → IsValid (close q)
unfolding close
close-IsValid v = ground arith

-- No call but `init` changes the size of a slot.
pub slot_bytes-push : (q : FrameQueue) (frame : Bytes) → (push q frame).1.slot_bytes ≡ q.slot_bytes
unfolding push append
slot_bytes-push q frame = ground (arith, make_room-shape q)

pub slot_bytes-take_frame :
    (q : FrameQueue) (out : Bytes) → (take_frame q out).queue.slot_bytes ≡ q.slot_bytes
unfolding take_frame
slot_bytes-take_frame q out = ground arith
