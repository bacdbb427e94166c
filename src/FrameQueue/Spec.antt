-- ===== src/FrameQueue/Spec.antt =====
-- What src/frame_queue.h promises its callers: a list of whole frames, oldest first, that drops its
-- oldest entry when a push finds it full, and counts what it dropped since the last pop.
use linux_web_audio_capture.Base.{
  ℕ, ◌+◌, Bool, List, [], ◌∷◌, ◌++◌, Bytes, length, ◌==◌, if◌then◌else◌, u64,
}
use linux_web_audio_capture.FrameQueue.{Popped, got_frame, timed_out, was_closed}

pub record Frames : Type 0 where
  pub frames : List Bytes
  pub dropped : ℕ
  pub closed : Bool

abbrev pub rest : List Bytes → List Bytes
rest [] = []
rest (f ∷ fs) = fs

-- A push at capacity `cap`: nothing once closed; the oldest frame goes if the list is full.
unfoldable pub push : ℕ → Frames → Bytes → ℕ × Frames
push cap q f =
    if q.closed
    then (0, q)
    else if length q.frames == cap
    then (1, record q { frames = rest q.frames ++ (f ∷ []); dropped = u64 (q.dropped + 1) })
    else (0, record q { frames = q.frames ++ (f ∷ []) })

-- The outcome of a pop that waits no more: the result, the frame, and the count of lost frames.
pub record Reply : Type 0 where
  pub result : Popped
  pub frame : List Bytes
  pub discarded : ℕ

pop_list : List Bytes → Bool → Popped × List Bytes × List Bytes
pop_list [] closed = (if closed then was_closed else timed_out, [], [])
pop_list (f ∷ fs) closed = (got_frame, f ∷ [], fs)

unfoldable pub pop : Frames → Reply × Frames
unfolding pop_list
pop q =
    let (result, frame, left) = pop_list q.frames q.closed in
    (
      record { result = result; frame = frame; discarded = q.dropped },
      record q { frames = left; dropped = 0 },
    )
