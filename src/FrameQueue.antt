-- ===== src/FrameQueue.antt =====
-- src/frame_queue.h: the bounded queue between the capture thread and the consumer. The storage is
-- the flat byte vector of the source, and indices are `size_t`. Every method runs under the mutex,
-- so a method is one atomic step; the wait inside `pop` is `wait_for` of CondVar.
pub mod Inv
pub mod Spec
pub mod Window
pub mod Refine
pub mod Waiting
pub mod Loss
pub mod History
pub mod Loading
pub mod Abstract
mod Tests
use linux_web_audio_capture.Base.{
  ℕ, ◌+◌, ◌-◌, ◌*◌, ◌%◌, ◌^◌, max, Bool, true, false, ◌||◌, ltb, ◌==◌, if◌then◌else◌, List, Bytes,
  take, slice, overwrite, replicate, u64,
}
use linux_web_audio_capture.CondVar.{Event, wait_for}

-- `frame_queue_t`, without its mutex and condition variable.
pub record FrameQueue : Type 0 where
  pub storage : Bytes
  pub slot_bytes : ℕ
  pub capacity : ℕ
  pub count : ℕ
  pub read_index : ℕ
  pub dropped : ℕ
  pub closed : Bool

-- A queue as its default constructor leaves it.
abbrev pub unset : FrameQueue
unset = record {
  storage = List.[];
  slot_bytes = 0;
  capacity = 0;
  count = 0;
  read_index = 0;
  dropped = 0;
  closed = false;
}

-- What `std::vector<uint8_t>::assign` of `n` bytes does: past `max_size()` it throws
-- `std::length_error`, and where the allocator has no room `std::bad_alloc`.
pub data Assigned : Type 0 where
  assigned : Bytes → Assigned
  bad_alloc length_error : Assigned

abbrev pub max_size : ℕ
max_size = 2 ^ 63 - 1

-- `room n`: the allocator can give `n` bytes.
abbrev pub assign : (ℕ → Bool) → ℕ → Assigned
assign room n =
    if ltb max_size n then length_error else if room n then assigned (replicate n 0) else bad_alloc

-- A call of `init` returns a bool, or lets `std::length_error` through.
pub data Init : Type 0 where
  returned : Bool → FrameQueue → Init
  threw_length_error : Init

-- The queue that `init` leaves over fresh storage.
abbrev pub sized : Bytes → ℕ → ℕ → FrameQueue
sized storage slot_bytes capacity = record {
  storage = storage;
  slot_bytes = slot_bytes;
  capacity = max capacity 1;
  count = 0;
  read_index = 0;
  dropped = 0;
  closed = false;
}

finish_init : FrameQueue → ℕ → ℕ → Assigned → Init
finish_init q slot_bytes capacity (assigned storage) =
    returned true (sized storage slot_bytes capacity)
finish_init q slot_bytes capacity bad_alloc = returned false q
finish_init q slot_bytes capacity length_error = threw_length_error

-- The product `max(capacity, 1) * slot_bytes` is a `size_t`.
unfoldable pub init : (ℕ → Bool) → FrameQueue → ℕ → ℕ → Init
unfolding finish_init
init room q slot_bytes capacity =
    if slot_bytes == 0
    then returned false q
    else finish_init q slot_bytes capacity (assign room (u64 (max capacity 1 * slot_bytes)))

-- Where slot `i` begins.
abbrev pub offset : FrameQueue → ℕ → ℕ
offset q i = u64 (i * q.slot_bytes)

-- The first half of `push`: when the queue is full the oldest frame is discarded.
unfoldable pub make_room : FrameQueue → ℕ × FrameQueue
make_room q =
    if q.count == q.capacity
    then (
      1,
      record q {
        read_index = u64 (q.read_index + 1) % q.capacity;
        count = q.count - 1;
        dropped = u64 (q.dropped + 1);
      },
    )
    else (0, q)

abbrev pub write_index : FrameQueue → ℕ
write_index q = u64 (q.read_index + q.count) % q.capacity

-- The second half: `memcpy` of `slot_bytes` bytes from `frame` to the slot behind the last.
unfoldable pub append : FrameQueue → Bytes → FrameQueue
append q frame = record q {
  storage = overwrite q.storage (offset q (write_index q)) (take q.slot_bytes frame);
  count = u64 (q.count + 1);
}

-- `push` gives the number of frames discarded, and the new queue.
unfoldable pub push : FrameQueue → Bytes → ℕ × FrameQueue
push q frame =
    if q.closed || q.slot_bytes == 0
    then (0, q)
    else (let (discarded, q') = make_room q in (discarded, append q' frame))

-- `close`
unfoldable pub close : FrameQueue → FrameQueue
close q = record q { closed = true }

-- `size`, and the predicate that `pop` waits for.
unfoldable pub size : FrameQueue → ℕ
size q = q.count

abbrev pub ready : FrameQueue → Bool
ready q = ltb 0 q.count || q.closed

-- The results 1, 0 and -1 of `pop`.
pub data Popped : Type 0 where
  got_frame timed_out was_closed : Popped

-- What a call of `pop` leaves: its result, the buffer `out`, `*discarded` and the queue.
pub record Pop : Type 0 where
  pub result : Popped
  pub out : Bytes
  pub discarded : ℕ
  pub queue : FrameQueue

-- `pop` from where the wait is over. `exchange` resets the count of dropped frames on every branch.
unfoldable pub take_frame : FrameQueue → Bytes → Pop
take_frame q out =
    if q.count == 0
    then record {
      result = if q.closed then was_closed else timed_out;
      out = out;
      discarded = q.dropped;
      queue = record q { dropped = 0 };
    }
    else record {
      result = got_frame;
      out = overwrite out 0 (slice (offset q q.read_index) q.slot_bytes q.storage);
      discarded = q.dropped;
      queue = record q {
        dropped = 0;
        read_index = u64 (q.read_index + 1) % q.capacity;
        count = q.count - 1;
      };
    }

-- What other threads do to the queue while the consumer waits: the capture thread pushes, and
-- `weba_capture_stop` closes.
pub data Act : Type 0 where
  pushes : Bytes → Act
  closes : Act

unfoldable pub act : Act → FrameQueue → FrameQueue
act (pushes frame) q = (push q frame).1
act closes q = close q

-- `pop` over the schedule of its wait, with what the schedule still holds when it returns.
unfoldable pub pop : List (Event Act) → FrameQueue → Bytes → Pop × List (Event Act)
pop es q out = let (q', rest) = wait_for ready act es q in (take_frame q' out, rest)
