-- ===== src/FrameQueue/Waiting.antt =====
-- `frame_queue_t::pop` of src/frame_queue.h with its wait: whatever the other threads do meanwhile.
use linux_web_audio_capture.Base.{true, false, ◌≡◌, refl, ◌⊎◌, inl, inr, arith, List, [], Bytes}
use linux_web_audio_capture.CondVar.{Event, wait_for, wait_for_inv, wait_for_end, wait_for_ready}
use linux_web_audio_capture.FrameQueue.{
  FrameQueue, Act, got_frame, timed_out, was_closed, take_frame, act, ready, pop,
}
use linux_web_audio_capture.FrameQueue.Inv.{IsValid, act-IsValid, take_frame-IsValid}

-- Whatever is pushed or closed during the wait, `pop` on a valid queue leaves a valid queue.
pub pop-IsValid :
    {q : FrameQueue} (es : List (Event Act)) (out : Bytes)
    → IsValid q
    → IsValid (pop es q out).0.queue
unfolding pop
pop-IsValid {q} es out v =
    take_frame-IsValid out (wait_for_inv IsValid ready act act-IsValid es q v)

take_frame-timed_out :
    (q : FrameQueue) (out : Bytes) → (take_frame q out).result ≡ timed_out → ready q ≡ false
unfolding take_frame
take_frame-timed_out q out h = ground arith

take_frame-out :
    (q : FrameQueue) (out : Bytes)
    → (take_frame q out).result ≡ timed_out
    → (take_frame q out).out ≡ out
unfolding take_frame
take_frame-out q out h = ground arith

take_frame-of_ready :
    (q : FrameQueue) (out : Bytes)
    → ready q ≡ true
    → ((take_frame q out).result ≡ got_frame)
      ⊎ (((take_frame q out).result ≡ was_closed) × (q.count ≡ 0) × (q.closed ≡ true))
unfolding take_frame
take_frame-of_ready q out h = ground arith

-- A pop that reports a timeout has waited for the whole of its schedule, and leaves `out` alone.
pub pop-timed_out :
    (es : List (Event Act)) (q : FrameQueue) (out : Bytes)
    → (pop es q out).0.result ≡ timed_out
    → ((pop es q out).1 ≡ []) × ((pop es q out).0.out ≡ out)
unfolding pop
pop-timed_out es q out h = elim (wait_for_end ready act es q) [
  | inl now ↦ cc (take_frame-timed_out (wait_for ready act es q).0 out h, now)
  | inr done ↦ (done, take_frame-out (wait_for ready act es q).0 out h)
]

-- A pop that finds a frame, or the queue closed, does not wait: the schedule is untouched, and the
-- result is a frame, or `was_closed`, which it is only if the queue is empty and closed.
pub pop_of_ready :
    (es : List (Event Act)) (q : FrameQueue) (out : Bytes)
    → ready q ≡ true
    → ((pop es q out).1 ≡ es)
      × (((pop es q out).0.result ≡ got_frame)
          ⊎ (((pop es q out).0.result ≡ was_closed) × (q.count ≡ 0) × (q.closed ≡ true)))
unfolding pop
pop_of_ready es q out h = rw (wait_for_ready ready act es q h) (refl, take_frame-of_ready q out h)
