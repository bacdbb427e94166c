-- ===== src/FrameQueue/History.antt =====
-- Any sequence of calls on the queue of src/frame_queue.h: which frames come out, in which order,
-- and how many are reported lost.
use mathlib.Core.List.{Sublist}
use mathlib.Core.List.Sublist
use linux_web_audio_capture.Base.{
  ℕ, ◌+◌, ◌^◌, ◌≤◌, ◌<◌, Bool, true, false, ◌≡◌, refl, ap, ◌⊎◌, arith, List, [], ◌∷◌, ◌++◌,
  append_assoc, Bytes, length, take, replicate, overwrite, length-append, length-replicate,
  length-take, length-drop, drop, ◌*◌, if◌then◌else◌, u64, inl, inr, subst, ◌∙◌,
}
use linux_web_audio_capture.FrameQueue.{
  FrameQueue, Popped, got_frame, timed_out, was_closed, Pop, push, close, take_frame,
}
use linux_web_audio_capture.FrameQueue.Inv.{
  IsValid, push-IsValid, take_frame-IsValid, no_wrap, slot_in_storage, close-IsValid,
  slot_bytes-push, slot_bytes-take_frame,
}
use linux_web_audio_capture.FrameQueue.Spec
use linux_web_audio_capture.FrameQueue.Refine.{contents, push_refines, length-contents}
use linux_web_audio_capture.FrameQueue.Window.{slot, window_of_ne_zero}

-- A call by one of the two threads. `takes` is a `pop` whose wait is over, into a buffer of one
-- frame.
pub data Call : Type 0 where
  puts : Bytes → Call
  takes : Call
  shuts : Call

-- What has gone in and come out so far, and the sum of what `pop` reported as discarded.
pub record Log : Type 0 where
  pub accepted : List Bytes
  pub delivered : List Bytes
  pub reported : ℕ

abbrev pub no_log : Log
no_log = record { accepted = []; delivered = []; reported = 0 }

abbrev pub delivered_by : Popped → Bytes → List Bytes
delivered_by got_frame out = out ∷ []
delivered_by timed_out out = []
delivered_by was_closed out = []

pub step : Call → FrameQueue × Log → FrameQueue × Log
step (puts f) (q, log) = (
  (push q f).1,
  record log {
    accepted = if q.closed then log.accepted else log.accepted ++ (take q.slot_bytes f ∷ []);
  },
)
step takes (q, log) =
    let p = take_frame q (replicate q.slot_bytes 0) in
    (
      p.queue,
      record log {
        delivered = log.delivered ++ delivered_by p.result p.out;
        reported = log.reported + p.discarded;
      },
    )
step shuts (q, log) = (close q, log)

pub run : List Call → FrameQueue × Log → FrameQueue × Log
run [] s = s
run (c ∷ cs) s = run cs (step c s)

-- Every buffer that is pushed holds at least one frame.
abbrev pub Fits : ℕ → List Call → Type 0
Fits sb [] = Unit {0}
Fits sb (puts f ∷ cs) = (sb ≤ length f) × Fits sb cs
Fits sb (takes ∷ cs) = Fits sb cs
Fits sb (shuts ∷ cs) = Fits sb cs

-- A frame fills a buffer of its size.
overwrite_full : (f out : Bytes) → length out ≡ length f → overwrite out 0 f ≡ f
overwrite_full [] [] h = refl
overwrite_full [] (x ∷ out) h = absurd (omega arith)
overwrite_full (y ∷ f) [] h = absurd (omega arith)
overwrite_full (y ∷ f) (x ∷ out) h = ap (◌∷◌ y) (overwrite_full f out (omega arith))

-- The frames delivered and those still queued are among those accepted, in their order. Nothing
-- accepted is unaccounted for: it was delivered, reported as lost, counted as lost since the last
-- pop, or is still queued.
pub record Accounts (q : FrameQueue) (log : Log) : Type 0 where
  pub in_order : Sublist (log.delivered ++ contents q) log.accepted
  pub complete : length log.accepted ≡ length log.delivered + log.reported + q.dropped + q.count

pub keep_new :
    (out cs acc : List Bytes) (f : Bytes)
    → Sublist (out ++ cs) acc
    → Sublist (out ++ (cs ++ (f ∷ []))) (acc ++ (f ∷ []))
keep_new out cs acc f h =
    subst (λ l. Sublist l (acc ++ (f ∷ []))) (append_assoc out cs (f ∷ []))
      (Sublist.append h (Sublist.refl (f ∷ [])))

pub drop_oldest :
    (out cs acc : List Bytes) → Sublist (out ++ cs) acc → Sublist (out ++ Spec.rest cs) acc
drop_oldest out [] acc h = h
drop_oldest out (c ∷ cs) acc h =
    Sublist.trans (Sublist.append (Sublist.refl out) (Sublist.cons c (Sublist.refl cs))) h

length-rest : (cs : List Bytes) → 0 < length cs → length (Spec.rest cs) + 1 ≡ length cs
length-rest [] h = absurd (omega arith)
length-rest (c ∷ cs) h = omega arith

-- What one push does to the contents.
pub push-contents :
    {q : FrameQueue} (f : Bytes)
    → IsValid q
    → q.slot_bytes ≤ length f
    → let q' = (push q f).1 in
      let new = take q.slot_bytes f ∷ [] in
      ((q.closed ≡ true) × (contents q' ≡ contents q) × (q'.dropped ≡ q.dropped))
      ⊎ ((q.closed ≡ false)
          × (0 < length (contents q))
          × (contents q' ≡ Spec.rest (contents q) ++ new)
          × (q'.dropped ≡ u64 (q.dropped + 1)))
      ⊎ ((q.closed ≡ false) × (contents q' ≡ contents q ++ new) × (q'.dropped ≡ q.dropped))
unfolding Spec.push
push-contents {q} f v h = ground (
  arith,
  ap (λ r. r.1.frames) (push_refines f v h),
  ap (λ r. r.1.dropped) (push_refines f v h),
  length-contents q,
)

pub length-slot :
    (storage : Bytes) (sb i : ℕ) → i * sb + sb ≤ length storage → length (slot storage sb i) ≡ sb
length-slot storage sb i h =
    omega (arith, length-take sb (drop (i * sb) storage), length-drop (i * sb) storage)

-- A pop takes the first of the contents out, if there is one, and resets the count of lost frames.
pub pop-contents :
    {q : FrameQueue}
    → IsValid q
    → let p = take_frame q (replicate q.slot_bytes 0) in
      (delivered_by p.result p.out ++ contents p.queue ≡ contents q)
      × (p.discarded ≡ q.dropped)
      × (p.queue.dropped ≡ 0)
unfolding take_frame
pop-contents {q} v = ground (
  arith,
  no_wrap v,
  slot_in_storage q.read_index q.capacity q.slot_bytes v.in_ring v.addressable,
  window_of_ne_zero q.storage q.slot_bytes q.capacity q.read_index q.count,
  overwrite_full (slot q.storage q.slot_bytes q.read_index) (replicate q.slot_bytes 0),
  length-slot q.storage q.slot_bytes q.read_index,
  length-replicate {A = ℕ} q.slot_bytes 0,
)

pub Sublist-cast :
    {xs xs' ys ys' : List Bytes} → xs ≡ xs' → ys ≡ ys' → Sublist xs' ys' → Sublist xs ys
Sublist-cast p r h = rw (p, r) h

puts-in_order :
    {q : FrameQueue} (log : Log) (f : Bytes)
    → IsValid q
    → q.slot_bytes ≤ length f
    → Sublist (log.delivered ++ contents q) log.accepted
    → let (q', log') = step (puts f) (q, log) in
      Sublist (log'.delivered ++ contents q') log'.accepted
unfolding step
puts-in_order {q} log f v h a = elim (push-contents f v h) [
  | inl (c, e, _) ↦ Sublist-cast (ap (◌++◌ delivered) e) (ap after c) a
  | inr (inl (c, _, e, _)) ↦ Sublist-cast (ap (◌++◌ delivered) e) (ap after c) (
      keep_new delivered (Spec.rest (contents q)) accepted new
        (drop_oldest delivered (contents q) accepted a))
  | inr (inr (c, e, _)) ↦
      Sublist-cast (ap (◌++◌ delivered) e) (ap after c)
        (keep_new delivered (contents q) accepted new a)
]
  where
    open log use {delivered, accepted}

    new : Bytes
    new = take q.slot_bytes f

    after : Bool → List Bytes
    after b = if b then accepted else accepted ++ (new ∷ [])

puts-Accounts :
    {q : FrameQueue} {log : Log} (f : Bytes)
    → IsValid q
    → q.slot_bytes ≤ length f
    → length log.accepted + 1 < 2 ^ 64
    → Accounts q log
    → let (q', log') = step (puts f) (q, log) in Accounts q' log'
unfolding step
puts-Accounts {q} {log} f v h small a = record {
  in_order = puts-in_order log f v h a.in_order;
  complete = ground (
    arith,
    push-contents f v h,
    length-contents q,
    length-contents (push q f).1,
    length-rest (contents q),
    length-append (Spec.rest (contents q)) (take q.slot_bytes f ∷ []),
    length-append (contents q) (take q.slot_bytes f ∷ []),
    length-append log.accepted (take q.slot_bytes f ∷ []),
  );
}

takes-Accounts :
    {q : FrameQueue} {log : Log}
    → IsValid q
    → Accounts q log
    → let (q', log') = step takes (q, log) in Accounts q' log'
unfolding step
takes-Accounts {q} {log} v a = record {
  in_order =
      Sublist-cast
        (append_assoc log.delivered delivery (contents p.queue)
          ∙ ap (◌++◌ log.delivered) (pop-contents v).0)
        refl a.in_order;
  complete = omega (
    arith,
    a.complete,
    pop-contents v,
    length-append log.delivered delivery,
    length-append delivery (contents p.queue),
    length-contents q,
    length-contents p.queue,
    ap length (pop-contents v).0,
  );
}
  where
    p : Pop
    p = take_frame q (replicate q.slot_bytes 0)

    delivery : List Bytes
    delivery = delivered_by p.result p.out

slot_bytes-step :
    (c : Call) (q : FrameQueue) (log : Log) → (step c (q, log)).0.slot_bytes ≡ q.slot_bytes
unfolding step close
slot_bytes-step (puts f) q log = slot_bytes-push q f
slot_bytes-step takes q log = slot_bytes-take_frame q (replicate q.slot_bytes 0)
slot_bytes-step shuts q log = refl

accepted-step :
    (c : Call) (q : FrameQueue) (log : Log)
    → length (step c (q, log)).1.accepted ≤ length log.accepted + 1
unfolding step
accepted-step (puts f) q log = ground (arith, length-append log.accepted (take q.slot_bytes f ∷ []))
accepted-step takes q log = omega arith
accepted-step shuts q log = omega arith

step-IsValid : (c : Call) {q : FrameQueue} (log : Log) → IsValid q → IsValid (step c (q, log)).0
unfolding step
step-IsValid (puts f) log v = push-IsValid f v
step-IsValid takes {q} log v = take_frame-IsValid (replicate q.slot_bytes 0) v
step-IsValid shuts log v = close-IsValid v

shuts-Accounts : {q : FrameQueue} {log : Log} → Accounts q log → Accounts (close q) log
unfolding close
shuts-Accounts a = record { in_order = a.in_order; complete = a.complete }

-- Any sequence of pushes, pops and closes on a valid queue keeps the accounts, where they hold
-- before: what was delivered, then what is still queued, is a subsequence of what was accepted, in
-- the same order, and the frames missing from it are exactly as many as `pop` has reported or will
-- report as discarded. What was accepted and the sequence count fewer than 2 ^ 64 together, so that
-- the `size_t` count of dropped frames does not wrap, and each pushed buffer holds a frame.
pub run-Accounts :
    (cs : List Call) (q : FrameQueue) (log : Log)
    → IsValid q
    → Fits q.slot_bytes cs
    → length log.accepted + length cs < 2 ^ 64
    → Accounts q log
    → Accounts (run cs (q, log)).0 (run cs (q, log)).1
unfolding run
run-Accounts [] q log v fits few a = a
run-Accounts (puts f ∷ cs) q log v fits few a =
    run-Accounts cs (step (puts f) (q, log)).0 (step (puts f) (q, log)).1
      (step-IsValid (puts f) log v) (rw (slot_bytes-step (puts f) q log) fits.1)
      (omega (arith, accepted-step (puts f) q log)) (puts-Accounts f v fits.0 (omega arith) a)
run-Accounts (takes ∷ cs) q log v fits few a =
    run-Accounts cs (step takes (q, log)).0 (step takes (q, log)).1 (step-IsValid takes log v)
      (rw (slot_bytes-step takes q log) fits) (omega (arith, accepted-step takes q log))
      (takes-Accounts v a)
run-Accounts (shuts ∷ cs) q log v fits few a =
    run-Accounts cs (step shuts (q, log)).0 (step shuts (q, log)).1 (step-IsValid shuts log v)
      (rw (slot_bytes-step shuts q log) fits) (omega (arith, accepted-step shuts q log))
      (unfold step in shuts-Accounts a)
