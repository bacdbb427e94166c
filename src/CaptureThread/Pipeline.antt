-- ===== src/CaptureThread/Pipeline.antt =====
-- From the recording stream to the consumer: the frames that the capture thread of src/capture.cpp reads
-- and those that are popped from its queue.
use mathlib.Core.List.{Sublist}
use mathlib.Core.List.Sublist
use linux_web_audio_capture.Base.{
  ◌≡◌, refl, sym, subst, ap, ◌∙◌, ◌⊎◌, inl, inr, arith, Option, none, some, Option-cases, List, [],
  ◌∷◌, ◌++◌, append-nil, append_assoc, Bytes, length, take, take_all, replicate, overwrite,
  length-overwrite,
}
use linux_web_audio_capture.FrameQueue.{FrameQueue, push, take_frame, close}
use linux_web_audio_capture.FrameQueue.Inv.{IsValid}
use linux_web_audio_capture.FrameQueue.Refine.{contents}
use linux_web_audio_capture.FrameQueue.Spec
use linux_web_audio_capture.FrameQueue.History.{
  delivered_by, push-contents, pop-contents, keep_new, drop_oldest, Sublist-cast,
}
use linux_web_audio_capture.Capture.{Capture, frame_bytes, publish_format}
use linux_web_audio_capture.Capture.Create.Accepting.{Sound}
use linux_web_audio_capture.Control.{ContextState, Connect, Server, resolve_target}
use linux_web_audio_capture.Format.{ok}
use linux_web_audio_capture.Api
use linux_web_audio_capture.Api.{started}
use linux_web_audio_capture.Api.Starting.{start-made}
use linux_web_audio_capture.Mic.{Mic, Read, did_read, did_not_read, read}
use linux_web_audio_capture.CaptureThread.{
  Place, at_top, resolving, opening, reading, rechecking, waiting, exiting, exited, Worker, Env,
  start, at, step, did,
}
use linux_web_audio_capture.CaptureThread.Invariant.{
  Inv, read_ways, read_step, Move, works, pops, takes_flags, paces, requests_stop, closes, Reach,
  here, next, Reach-Inv,
}

-- The frame that a read gives.
abbrev frame_of : Read → List Bytes
frame_of (did_not_read text) = []
frame_of (did_read frame) = frame ∷ []

reads_with : Env → Worker → Capture → Option Mic → List Bytes
reads_with e w c none = []
reads_with e w c (some m) = frame_of (read e.pa_simple_read m w.buffer (frame_bytes c))

reads_at : Place → Env → Worker → Capture → List Bytes
reads_at reading e w c = reads_with e w c w.mic
reads_at at_top e w c = []
reads_at resolving e w c = []
reads_at (opening t) e w c = []
reads_at rechecking e w c = []
reads_at waiting e w c = []
reads_at exiting e w c = []
reads_at exited e w c = []

-- What the thread reads from its streams in a move, and what the move pops into a buffer of one frame.
read_by : {s t : Worker × Capture} → Move s t → List Bytes
read_by (works e (w, c)) = reads_at w.place e w c
read_by (pops out w c) = []
read_by (takes_flags w c) = []
read_by (paces deadline w c) = []
read_by (requests_stop w c) = []
read_by (closes w c) = []

popped_by : {s t : Worker × Capture} → Move s t → List Bytes
popped_by (works e s) = []
popped_by (pops out w c) =
    let p = take_frame c.queue (replicate c.queue.slot_bytes 0) in delivered_by p.result p.out
popped_by (takes_flags w c) = []
popped_by (paces deadline w c) = []
popped_by (requests_stop w c) = []
popped_by (closes w c) = []

-- The same for the moves of a run.
pub frames_read : {s t : Worker × Capture} → Reach s t → List Bytes
frames_read here = []
frames_read (next r m) = frames_read r ++ read_by m

pub frames_popped : {s t : Worker × Capture} → Reach s t → List Bytes
frames_popped here = []
frames_popped (next r m) = frames_popped r ++ popped_by m

-- What was popped and what is queued are among the frames read, in their order.
InOrder : List Bytes → FrameQueue → List Bytes → Type 0
InOrder popped q frames = Sublist (popped ++ contents q) frames

still-InOrder :
    (popped : List Bytes) (q : FrameQueue) (frames : List Bytes)
    → InOrder popped q frames
    → InOrder popped q (frames ++ [])
unfolding InOrder
still-InOrder popped q frames h = Sublist-cast refl (append-nil frames) h

-- A frame that was read and not queued is one more that is missing.
missing :
    (popped frames : List Bytes) (f : Bytes)
    → Sublist popped frames
    → Sublist popped (frames ++ (f ∷ []))
missing popped frames f h =
    Sublist-cast (sym (append-nil popped)) refl
      (Sublist.append h (Sublist.cons f (Sublist.refl [])))

push-InOrder :
    (popped : List Bytes) (q : FrameQueue) (frames : List Bytes) (f : Bytes)
    → IsValid q
    → q.slot_bytes ≡ length f
    → InOrder popped q frames
    → InOrder popped (push q f).1 (frames ++ (f ∷ []))
unfolding InOrder
push-InOrder popped q frames f v n h =
    let whole : take q.slot_bytes f ≡ f = take_all q.slot_bytes f (omega (arith, n)) in
    elim (push-contents f v (omega (arith, n))) [
      | inl (_, e, _) ↦ Sublist-cast (ap (◌++◌ popped) e) refl (missing _ frames f h)
      | inr (inl (_, _, e, _)) ↦
          Sublist-cast (ap (◌++◌ popped) e) (ap (λ x. frames ++ (x ∷ [])) (sym whole)) (
            keep_new popped (Spec.rest (contents q)) frames (take q.slot_bytes f)
              (drop_oldest popped (contents q) frames h))
      | inr (inr (_, e, _)) ↦
          Sublist-cast (ap (◌++◌ popped) e) (ap (λ x. frames ++ (x ∷ [])) (sym whole))
            (keep_new popped (contents q) frames (take q.slot_bytes f) h)
    ]

did-InOrder :
    (w : Worker) (c : Capture) (r : Read) (popped frames : List Bytes)
    → Inv w c
    → ((text : Bytes) × (r ≡ did_not_read text))
      ⊎ ((bs : Bytes) × (r ≡ did_read (overwrite w.buffer 0 bs)))
    → InOrder popped c.queue frames
    → InOrder popped (did w c r).1.queue (frames ++ frame_of r)
unfolding did
did-InOrder w c (did_not_read text) popped frames h ways o = still-InOrder popped c.queue frames o
did-InOrder w c (did_read f) popped frames h (inl (text, e)) o = cc e
did-InOrder w c (did_read f) popped frames h (inr (bs, e)) o =
    (let same : f ≡ overwrite w.buffer 0 bs = cc e in
      push-InOrder popped c.queue frames f h.queue
        (h.slots ∙ sym h.buffer ∙ sym (length-overwrite w.buffer 0 bs) ∙ ap length (sym same)) o)

reading-InOrder :
    (m : Option Mic) (e : Env) (w : Worker) (c : Capture) (popped frames : List Bytes)
    → w.mic ≡ m
    → Inv w c
    → InOrder popped c.queue frames
    → InOrder popped (at reading e w c).1.queue (frames ++ reads_with e w c m)
unfolding reads_with
reading-InOrder none e w c popped frames x h o =
    unfold at in rw x (still-InOrder popped c.queue frames o)
reading-InOrder (some m) e w c popped frames x h o =
    let r = read e.pa_simple_read m w.buffer (frame_bytes c) in
    subst (λ s. InOrder popped s.1.queue (frames ++ frame_of r)) (read_step w c m e x)
      (did-InOrder w c r popped frames h (read_ways e.pa_simple_read m w.buffer (frame_bytes c)) o)

-- A step that reads nothing leaves the queue alone.
at-queue :
    (p : Place) (e : Env) (w : Worker) (c : Capture)
    → (p ≡ reading) ⊎ (((at p e w c).1.queue ≡ c.queue) × (reads_at p e w c ≡ []))
unfolding at publish_format reads_at
at-queue at_top e w c = inr (ground arith, refl)
at-queue resolving e w c =
    inr (ground (arith, Option-cases (resolve_target e.server c.requested_sink c.control).1), refl)
at-queue (opening t) e w c = inr (ground arith, refl)
at-queue reading e w c = inl refl
at-queue rechecking e w c = inr (ground arith, refl)
at-queue waiting e w c = inr (refl, refl)
at-queue exiting e w c = inr (refl, refl)
at-queue exited e w c = inr (refl, refl)

at-InOrder :
    (p : Place) (e : Env) (w : Worker) (c : Capture) (popped frames : List Bytes)
    → Inv w c
    → InOrder popped c.queue frames
    → InOrder popped (at p e w c).1.queue (frames ++ reads_at p e w c)
at-InOrder p e w c popped frames h o = elim (at-queue p e w c) [
  | inl x ↦
      subst (λ p. InOrder popped (at p e w c).1.queue (frames ++ reads_at p e w c)) (sym x)
        (unfold reads_at in reading-InOrder w.mic e w c popped frames refl h o)
  | inr (same, none_read) ↦ rw (same, none_read) (still-InOrder popped c.queue frames o)
]

take_frame-queue :
    (q : FrameQueue) (out out' : Bytes) → (take_frame q out).queue ≡ (take_frame q out').queue
unfolding take_frame
take_frame-queue q out out' = ground arith

pop-InOrder :
    (popped : List Bytes) (q : FrameQueue) (frames : List Bytes) (out : Bytes)
    → IsValid q
    → InOrder popped q frames
    → let p = take_frame q (replicate q.slot_bytes 0) in
      InOrder (popped ++ delivered_by p.result p.out) (take_frame q out).queue frames
unfolding InOrder
pop-InOrder popped q frames out v h =
    let p = take_frame q (replicate q.slot_bytes 0) in
    let d = delivered_by p.result p.out in
    Sublist-cast
      (ap (λ r. (popped ++ d) ++ contents r) (take_frame-queue q out (replicate q.slot_bytes 0))
        ∙ append_assoc popped d (contents p.queue)
        ∙ ap (◌++◌ popped) (pop-contents v).0)
      refl h

quiet-InOrder :
    (popped : List Bytes) (q : FrameQueue) (frames : List Bytes)
    → InOrder popped q frames
    → InOrder (popped ++ []) q (frames ++ [])
quiet-InOrder popped q frames h =
    subst (λ ps. InOrder ps q (frames ++ [])) (sym (append-nil popped))
      (still-InOrder popped q frames h)

Move-InOrder :
    {s t : Worker × Capture} (m : Move s t) (popped frames : List Bytes)
    → Inv s.0 s.1
    → InOrder popped s.1.queue frames
    → InOrder (popped ++ popped_by m) t.1.queue (frames ++ read_by m)
unfolding step close popped_by read_by
Move-InOrder (works e (w, c)) popped frames h o =
    subst (λ ps. InOrder ps (at w.place e w c).1.queue (frames ++ reads_at w.place e w c))
      (sym (append-nil popped)) (at-InOrder w.place e w c popped frames h o)
Move-InOrder (pops out w c) popped frames h o =
    still-InOrder _ _ frames (pop-InOrder popped c.queue frames out h.queue o)
Move-InOrder (takes_flags w c) popped frames h o = quiet-InOrder popped c.queue frames o
Move-InOrder (paces deadline w c) popped frames h o = quiet-InOrder popped c.queue frames o
Move-InOrder (requests_stop w c) popped frames h o = quiet-InOrder popped c.queue frames o
Move-InOrder (closes w c) popped frames h o =
    unfold InOrder in quiet-InOrder popped c.queue frames o

-- The queue is empty when the thread starts.
start-contents :
    {c d : Capture} (e : Connect) (s : Server) (ds : List ContextState)
    → Sound c
    → Api.start e s ds c ≡ started ok d
    → contents d.queue ≡ []
unfolding publish_format
start-contents {c} e s ds sound h =
    let (k, t, same) = start-made e s ds c sound.idle.0 h in
    let queued : contents c.queue ≡ [] = rw (sound.quiet.0) in
    subst (λ d. contents d.queue ≡ []) same queued

-- From the stream to the consumer. From the handle that a successful `weba_capture_start` made of a
-- sound one, with its thread just started, in every interleaving of the thread's steps with pops,
-- stops and the other moves of the consumer: the frames popped, each into a buffer of one frame,
-- then those still queued, are a subsequence of the frames that the thread read from its streams,
-- in the order of the reads.
pub frames_in_order :
    {c d : Capture} {t : Worker × Capture} (e : Connect) (s : Server) (ds : List ContextState)
    → Sound c
    → Api.start e s ds c ≡ started ok d
    → (r : Reach (start d, d) t) → Sublist (frames_popped r ++ contents t.1.queue) (frames_read r)
unfolding frames_popped frames_read InOrder
frames_in_order e s ds sound h here = rw (start-contents e s ds sound h) (Sublist.refl [])
frames_in_order e s ds sound h (next r m) =
    Move-InOrder m (frames_popped r) (frames_read r) (Reach-Inv e s ds sound h r)
      (frames_in_order e s ds sound h r)
