-- ===== src/Capture/Read/Open.antt =====
-- What keeps the queue of a capture (src/capture.cpp) open for the consumer.
use linux_web_audio_capture.Base.{true, false, ◌≡◌, ◌∙◌, ◌⊎◌, arith, List, [], ◌∷◌, Bytes}
use linux_web_audio_capture.CondVar.{Event, other, wake, await, wait_for}
use linux_web_audio_capture.FrameQueue
use linux_web_audio_capture.FrameQueue.{
  FrameQueue, Popped, got_frame, timed_out, was_closed, push, make_room, append, take_frame, ready,
}
use linux_web_audio_capture.Capture.{
  Capture, Act, pushes, reopens, requests_stop, closes, ends, act, acts,
}
use linux_web_audio_capture.Capture.Read.{Round}

-- Acts of other threads that neither close the queue nor end the capture thread.
abbrev pub StaysOpen : List Act → Type 0
StaysOpen [] = Unit {0}
StaysOpen (pushes f ∷ more) = StaysOpen more
StaysOpen (reopens ∷ more) = StaysOpen more
StaysOpen (requests_stop ∷ more) = StaysOpen more
StaysOpen (closes ∷ more) = ⊥
StaysOpen (ends ∷ more) = ⊥

abbrev pub WaitStaysOpen : List (Event FrameQueue.Act) → Type 0
WaitStaysOpen [] = Unit {0}
WaitStaysOpen (wake ∷ es) = WaitStaysOpen es
WaitStaysOpen (other (FrameQueue.pushes f) ∷ es) = WaitStaysOpen es
WaitStaysOpen (other FrameQueue.closes ∷ es) = ⊥

abbrev pub RoundStaysOpen : Round → Type 0
RoundStaysOpen r = StaysOpen r.before × WaitStaysOpen r.during_pop × StaysOpen r.between

-- A capture that runs, with an open queue.
abbrev pub Flows : Capture → Type 0
Flows c = (c.queue.closed ≡ false) × (c.running ≡ true)

closed-push : (q : FrameQueue) (f : Bytes) → (push q f).1.closed ≡ q.closed
unfolding push make_room append
closed-push q f = ground arith

pub acts-Flows : (more : List Act) (c : Capture) → StaysOpen more → Flows c → Flows (acts more c)
unfolding acts act
acts-Flows [] c o h = h
acts-Flows (pushes f ∷ more) c o h =
    acts-Flows more (act (pushes f) c) o (closed-push c.queue f ∙ h.0, h.1)
acts-Flows (reopens ∷ more) c o h = acts-Flows more (act reopens c) o h
acts-Flows (requests_stop ∷ more) c o h = acts-Flows more (act requests_stop c) o h
acts-Flows (closes ∷ more) c o h = absurd o
acts-Flows (ends ∷ more) c o h = absurd o

await-open :
    (es : List (Event FrameQueue.Act)) (q : FrameQueue)
    → WaitStaysOpen es
    → q.closed ≡ false
    → (await ready FrameQueue.act es q).0.closed ≡ false
unfolding await FrameQueue.act
await-open [] q o h = h
await-open (wake ∷ es) q o h = ground (arith, await-open es q o h)
await-open (other (FrameQueue.pushes f) ∷ es) q o h =
    await-open es (push q f).1 o (closed-push q f ∙ h)
await-open (other FrameQueue.closes ∷ es) q o h = absurd o

pub wait-open :
    (es : List (Event FrameQueue.Act)) (q : FrameQueue)
    → WaitStaysOpen es
    → q.closed ≡ false
    → (wait_for ready FrameQueue.act es q).0.closed ≡ false
unfolding wait_for
wait-open es q o h = ground (arith, await-open es q o h)

-- A pop from an open queue gives a frame or times out, and leaves the queue open.
pub take_frame-open :
    (q : FrameQueue) (out : Bytes)
    → q.closed ≡ false
    → (((take_frame q out).result ≡ got_frame) ⊎ ((take_frame q out).result ≡ timed_out))
      × ((take_frame q out).queue.closed ≡ false)
unfolding take_frame
take_frame-open q out h = ground (arith, h)
