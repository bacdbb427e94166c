-- ===== src/CaptureThread/Invariant.antt =====
-- The capture thread of src/capture.cpp beside the consumer: what holds of the handle at every moment,
-- in every interleaving of their steps.
use linux_web_audio_capture.Base.{
  subst, bytes, ◌++◌, ℕ, true, ◌≡◌, refl, sym, ◌∙◌, ◌⊎◌, inl, inr, arith, Option, none, some, List,
  Bytes, length, Option-cases, overwrite, length-overwrite, length-replicate,
}
use linux_web_audio_capture.FrameQueue
use linux_web_audio_capture.FrameQueue.{FrameQueue, take_frame, close}
use linux_web_audio_capture.FrameQueue.Inv.{
  IsValid, push-IsValid, take_frame-IsValid, close-IsValid, slot_bytes-push, slot_bytes-take_frame,
}
use linux_web_audio_capture.Capture.{Capture, frame_bytes, publish_format}
use linux_web_audio_capture.Capture.Flags.{IsPending, or_reopen-IsPending}
use linux_web_audio_capture.Capture.Create.Accepting.{Sound}
use linux_web_audio_capture.Control.{Control, ContextState, Connect, Server, resolve_target}
use linux_web_audio_capture.Format.{ok, Target}
use linux_web_audio_capture.Api
use linux_web_audio_capture.Api.{started}
use linux_web_audio_capture.Api.Starting.{made, start-made}
use linux_web_audio_capture.Mic.{
  ReadAnswer, read_bytes, read_failed, did_read, did_not_read, read, Mic,
}
use linux_web_audio_capture.CaptureThread.{
  Place, at_top, resolving, opening, reading, rechecking, waiting, exiting, exited, Worker, Env,
  start, at, step, did,
}

-- The queue is valid and holds slots of one frame, the thread's buffer holds one frame, and the flags
-- that wait are none or those of a reopen.
pub record Inv (w : Worker) (c : Capture) : Type 0 where
  pub queue : IsValid c.queue
  pub slots : c.queue.slot_bytes ≡ frame_bytes c
  pub buffer : length w.buffer ≡ frame_bytes c
  pub pending : IsPending c.pending_flags

-- A read fails, or fills the buffer in place.
answer_ways :
    (answer : ℕ → ℕ → ReadAnswer) (m : Mic) (dst : Bytes) (n s : ℕ) (a : ReadAnswer)
    → m.stream ≡ some s
    → answer s n ≡ a
    → ((text : Bytes) × (read answer m dst n ≡ did_not_read text))
      ⊎ ((bs : Bytes) × (read answer m dst n ≡ did_read (overwrite dst 0 bs)))
unfolding read
answer_ways answer m dst n s (read_bytes bs) e e' = inr (bs, ground arith)
answer_ways answer m dst n s (read_failed text) e e' =
    inl (bytes "pa_simple_read() failed: " ++ text, ground arith)

pub read_ways :
    (answer : ℕ → ℕ → ReadAnswer) (m : Mic) (dst : Bytes) (n : ℕ)
    → ((text : Bytes) × (read answer m dst n ≡ did_not_read text))
      ⊎ ((bs : Bytes) × (read answer m dst n ≡ did_read (overwrite dst 0 bs)))
unfolding read
read_ways answer m dst n = elim (Option-cases m.stream) [
  | inl e ↦ inl (bytes "recording stream is not open", ground arith)
  | inr (s, e) ↦ answer_ways answer m dst n s (answer s n) e refl
]

frame_bytes-queue :
    (c : Capture) (q : FrameQueue) → frame_bytes (record c { queue = q }) ≡ frame_bytes c
unfolding frame_bytes
frame_bytes-queue c q = refl

did_read-Inv :
    (w : Worker) (c : Capture) (bs : Bytes)
    → Inv w c
    → let (w', c') = did w c (did_read (overwrite w.buffer 0 bs)) in Inv w' c'
unfolding did
did_read-Inv w c bs h =
    let frame = overwrite w.buffer 0 bs in
    let same = frame_bytes-queue c (FrameQueue.push c.queue frame).1 in
    record {
      queue = push-IsValid frame h.queue;
      slots = slot_bytes-push c.queue frame ∙ h.slots ∙ sym same;
      buffer = length-overwrite w.buffer 0 bs ∙ h.buffer ∙ sym same;
      pending = h.pending;
    }

did_not_read-Inv :
    (w : Worker) (c : Capture) (text : Bytes)
    → Inv w c
    → let (w', c') = did w c (did_not_read text) in Inv w' c'
unfolding did frame_bytes
did_not_read-Inv w c text h = record {
  queue = h.queue;
  slots = h.slots;
  buffer = h.buffer;
  pending = or_reopen-IsPending c.pending_flags h.pending;
}

did-Inv :
    (w : Worker) (c : Capture) (m : Mic) (e : Env)
    → Inv w c
    → let (w', c') = did w c (read e.pa_simple_read m w.buffer (frame_bytes c)) in Inv w' c'
did-Inv w c m e h = elim (read_ways e.pa_simple_read m w.buffer (frame_bytes c)) [
  | inl (text, x) ↦
      subst (λ r. Inv (did w c r).0 (did w c r).1) (sym x) (did_not_read-Inv w c text h)
  | inr (bs, x) ↦ subst (λ r. Inv (did w c r).0 (did w c r).1) (sym x) (did_read-Inv w c bs h)
]

pub read_step :
    (w : Worker) (c : Capture) (m : Mic) (e : Env)
    → w.mic ≡ some m
    → did w c (read e.pa_simple_read m w.buffer (frame_bytes c)) ≡ at reading e w c
unfolding at
read_step w c m e x = ground arith

reading-Inv :
    (o : Option Mic) (e : Env) (w : Worker) (c : Capture)
    → w.mic ≡ o
    → Inv w c
    → let (w', c') = at reading e w c in Inv w' c'
unfolding at
reading-Inv none e w c x h =
    rw (x, at) (record { queue = h.queue; slots = h.slots; buffer = h.buffer; pending = h.pending })
reading-Inv (some m) e w c x h = subst (λ r. Inv r.0 r.1) (read_step w c m e x) (did-Inv w c m e h)

-- Every step of the thread keeps the invariant.
at-Inv :
    (p : Place) (e : Env) (w : Worker) (c : Capture)
    → Inv w c
    → let (w', c') = at p e w c in Inv w' c'
unfolding at publish_format frame_bytes
at-Inv at_top e w c h = ground arith
at-Inv resolving e w c h =
    ground (arith, Option-cases (resolve_target e.server c.requested_sink c.control).1)
at-Inv (opening t) e w c h = ground (arith, or_reopen-IsPending c.pending_flags h.pending)
at-Inv reading e w c h = reading-Inv w.mic e w c refl h
at-Inv rechecking e w c h = ground arith
at-Inv waiting e w c h = ground arith
at-Inv exiting e w c h = ground arith
at-Inv exited e w c h = h

-- What happens next: a step of the thread, or one of another thread under the locks and atomics that it
-- shares with the capture thread. The consumer takes a frame or the flags, or moves its deadline;
-- `weba_capture_stop` requests the stop and closes the queue.
pub data Move : Worker × Capture → Worker × Capture → Type 0 where
  works : (e : Env) (s : Worker × Capture) → Move s (step e s)
  pops :
      (out : Bytes) (w : Worker) (c : Capture)
      → Move (w, c) (w, record c { queue = (take_frame c.queue out).queue })
  takes_flags : (w : Worker) (c : Capture) → Move (w, c) (w, record c { pending_flags = 0 })
  paces :
      (deadline : ℕ) (w : Worker) (c : Capture)
      → Move (w, c) (w, record c { next_deadline = deadline; deadline_valid = true })
  requests_stop : (w : Worker) (c : Capture) → Move (w, c) (w, record c { stop_requested = true })
  closes : (w : Worker) (c : Capture) → Move (w, c) (w, record c { queue = close c.queue })

pub data Reach (s : Worker × Capture) : Worker × Capture → Type 0 where
  here : Reach s s
  next : {t u : Worker × Capture} → Reach s t → Move t u → Reach s u

Move-Inv : {s t : Worker × Capture} → Move s t → Inv s.0 s.1 → Inv t.0 t.1
unfolding step frame_bytes close
Move-Inv (works e (w, c)) h = at-Inv w.place e w c h
Move-Inv (pops out w c) h = record {
  queue = take_frame-IsValid out h.queue;
  slots = slot_bytes-take_frame c.queue out ∙ h.slots;
  buffer = h.buffer;
  pending = h.pending;
}
Move-Inv (takes_flags w c) h = record {
  queue = h.queue;
  slots = h.slots;
  buffer = h.buffer;
  pending = inl refl;
}
Move-Inv (paces deadline w c) h = record {
  queue = h.queue;
  slots = h.slots;
  buffer = h.buffer;
  pending = h.pending;
}
Move-Inv (requests_stop w c) h = record {
  queue = h.queue;
  slots = h.slots;
  buffer = h.buffer;
  pending = h.pending;
}
Move-Inv (closes w c) h = record {
  queue = close-IsValid h.queue;
  slots = h.slots;
  buffer = h.buffer;
  pending = h.pending;
}

-- The handle that a start makes of a sound one, as its thread finds it.
made-Inv :
    (c : Capture) (k : Control) (t : Target) → Sound c → Inv (start (made c k t)) (made c k t)
unfolding start publish_format frame_bytes
made-Inv c k t s = record {
  queue = s.queue;
  slots = s.slots;
  buffer = length-replicate (frame_bytes c) 0;
  pending = inl s.quiet.2;
}

start-Inv :
    {c d : Capture} (e : Connect) (s : Server) (ds : List ContextState)
    → Sound c
    → Api.start e s ds c ≡ started ok d
    → Inv (start d) d
start-Inv {c} {d} e s ds sound h =
    let (k, t, same) = start-made e s ds c sound.idle.0 h in
    subst (λ d. Inv (start d) d) same (made-Inv c k t sound)

Reach-Inv_of : {s t : Worker × Capture} → Inv s.0 s.1 → Reach s t → Inv t.0 t.1
Reach-Inv_of h here = h
Reach-Inv_of h (next r m) = Move-Inv m (Reach-Inv_of h r)

-- From the handle that a successful `weba_capture_start` made of a sound one, with its thread just
-- started, no interleaving of the steps of the capture thread with pops, with the consumer taking
-- the flags or setting its deadline, with a stop request and with closing the queue makes the queue
-- invalid, gives the thread a buffer that is not one frame long, or leaves other flags pending than
-- the two of a reopen.
pub Reach-Inv :
    {c d : Capture} {t : Worker × Capture} (e : Connect) (s : Server) (ds : List ContextState)
    → Sound c
    → Api.start e s ds c ≡ started ok d
    → Reach (start d, d) t
    → Inv t.0 t.1
Reach-Inv e s ds sound h r = Reach-Inv_of (start-Inv e s ds sound h) r
