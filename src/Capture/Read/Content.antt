-- ===== src/Capture/Read/Content.antt =====
-- What a frame of `weba_capture_read_frame` (src/capture.cpp) holds and reports when it is due.
use linux_web_audio_capture.Base.{
  ℕ, ◌+◌, Bool, true, false, ◌≡◌, refl, ◌∙◌, ◌⊎◌, inl, inr, sym, ap, ap₂, none, some, List, [], ◌∷◌,
  Bytes, arith, if◌then◌else◌, ltb, replicate, overwrite, u32, u64,
}
use linux_web_audio_capture.CondVar.{wait_for, wait_for_inv}
use linux_web_audio_capture.Format.{err_state}
use linux_web_audio_capture.FrameQueue.{
  FrameQueue, Popped, got_frame, timed_out, was_closed, Pop, take_frame, ready,
}
use linux_web_audio_capture.FrameQueue
use linux_web_audio_capture.FrameQueue.Inv.{IsValid, act-IsValid}
use linux_web_audio_capture.FrameQueue.Refine.{contents, take_frame_ways}
use linux_web_audio_capture.Capture.{
  Capture, Act, pushes, reopens, requests_stop, closes, ends, act, acts, frame_bytes, period_ns,
}
use linux_web_audio_capture.Capture.Flags.{IsPending, acts-IsPending, Means, Means-word, word}
use linux_web_audio_capture.Capture.Read.{
  FrameInfo, info_if, next_deadline_after, read_one, read_error, Round, Local, Next, return, Call,
  deliver, take_due, due_round,
}
use linux_web_audio_capture.Capture.Read.Setup.{SameSetup, acts-SamePace}

-- The queue that the `pop` of a round finds when its wait is over.
abbrev pub found_queue : Round → Capture → FrameQueue
found_queue r c = (wait_for ready FrameQueue.act r.during_pop c.queue).0

-- The flags that wait when a frame takes them: those that waited, and those that other threads have raised
-- since the frame was popped.
abbrev pub waiting_flags : Round → Capture → ℕ
waiting_flags r c = (acts r.between c).pending_flags

waiting_flags-queue :
    (more : List Act) (c : Capture) (q : FrameQueue)
    → (acts more (record c { queue = q })).pending_flags ≡ (acts more c).pending_flags
unfolding acts act
waiting_flags-queue [] c q = refl
waiting_flags-queue (pushes f ∷ more) c q =
    waiting_flags-queue more c (FrameQueue.push q f).1
    ∙ sym (waiting_flags-queue more c (FrameQueue.push c.queue f).1)
waiting_flags-queue (reopens ∷ more) c q = waiting_flags-queue more (act reopens c) q
waiting_flags-queue (requests_stop ∷ more) c q = waiting_flags-queue more (act requests_stop c) q
waiting_flags-queue (closes ∷ more) c q =
    waiting_flags-queue more c (FrameQueue.close q)
    ∙ sym (waiting_flags-queue more c (FrameQueue.close c.queue))
waiting_flags-queue (ends ∷ more) c q = waiting_flags-queue more (act ends c) q

-- A frame that goes out to `dst`. `pending` are the flags that waited for this frame, and `lost` is the
-- number of frames dropped since the previous read.
pub record Delivers (r : Round) (pending lost : ℕ) (silent : Bool) (dst : Bytes) (n : Next)
    : Type 0 where
  pub info : FrameInfo
  pub capture : Capture
  pub returns : n ≡ return read_one dst (some info) capture
  pub meaning : Means pending (ltb 0 lost) silent info.flags
  pub dropped : info.dropped_frames ≡ u32 lost
  pub timestamp : info.timestamp_ns ≡ r.after
  pub cleared : capture.pending_flags ≡ 0

frame_bytes-SameSetup : {c d : Capture} → SameSetup c d → frame_bytes d ≡ frame_bytes c
unfolding frame_bytes
frame_bytes-SameSetup s = ground (arith, s.channels, s.frame_samples, s.format)

-- The buffer that `deliver` leaves.
abbrev sent : Bool → Local → Bytes
sent silent l = if silent then overwrite l.dst 0 (replicate (frame_bytes l.capture) 0) else l.dst

deliver-Delivers :
    (k : Call) (r : Round) (silent : Bool) (l : Local)
    → k.wants_info ≡ true
    → IsPending l.capture.pending_flags
    → Delivers r (waiting_flags r l.capture) l.total silent (sent silent l) (deliver k r silent l)
unfolding deliver
deliver-Delivers k r silent l w h = record {
  info = info;
  capture = after;
  returns =
      ap₂ (λ n wants. return read_one (filled n) (info_if wants info) after)
        (frame_bytes-SameSetup (acts-SamePace r.between l.capture).setup) w;
  meaning =
      Means-word c.pending_flags (ltb 0 l.total) silent (acts-IsPending r.between l.capture h);
  dropped = refl;
  timestamp = refl;
  cleared = refl;
}
  where
    c : Capture
    c = acts r.between l.capture

    after : Capture
    after = record c {
      pending_flags = 0;
      next_deadline = next_deadline_after c.next_deadline (period_ns c) r.after;
    }

    info : FrameInfo
    info = record {
      timestamp_ns = r.after;
      flags = word c.pending_flags (ltb 0 l.total) silent;
      dropped_frames = u32 l.total;
    }

    filled : ℕ → Bytes
    filled n = if silent then overwrite l.dst 0 (replicate n 0) else l.dst

Delivers-cast :
    {r : Round} {p p' t t' : ℕ} {silent : Bool} {dst dst' : Bytes} {n n' : Next}
    → p ≡ p'
    → t ≡ t'
    → dst ≡ dst'
    → n' ≡ n
    → Delivers r p t silent dst n
    → Delivers r p' t' silent dst' n'
Delivers-cast x e e' e'' d = rw (← x, ← e, ← e', e'') d

discarded-take_frame : (q : FrameQueue) (out : Bytes) → (take_frame q out).discarded ≡ q.dropped
unfolding take_frame
discarded-take_frame q out = ground arith

-- A frame that is due, for a caller that wants the info, with a valid queue and no other pending
-- flags than those of a reopen. If the queue that `pop` finds holds a frame, the oldest is copied
-- to the start of `dst`, and is not flagged as silence. If it is empty and open, a frame of zeros
-- is, flagged as silence and underrun. If it is empty and closed, the call fails with
-- `WEBA_ERR_STATE`. A frame carries exactly the flags that are pending behind the pop, when it is
-- handed over, the discontinuity flag if frames were lost since the previous read, and their number
-- as a `uint32_t`, and no flag stays pending.
pub due_frame :
    (k : Call) (r : Round) (l : Local)
    → k.wants_info ≡ true
    → IsValid l.capture.queue
    → IsPending l.capture.pending_flags
    → let q = found_queue r l.capture in
      let lost = u64 (l.total + q.dropped) in
      let pending = waiting_flags r l.capture in
      ((f : Bytes) × (fs : List Bytes) × (contents q ≡ f ∷ fs)
        × Delivers r pending lost false (overwrite l.dst 0 f) (due_round k r l))
      ⊎ ((contents q ≡ [])
          × (q.closed ≡ false)
          × Delivers r pending lost true
              (overwrite l.dst 0 (replicate (frame_bytes l.capture) 0))
              (due_round k r l))
      ⊎ ((contents q ≡ [])
          × (q.closed ≡ true)
          × ((c : Capture) × (due_round k r l ≡ return (read_error err_state) l.dst none c)))
unfolding due_round FrameQueue.pop take_due
due_frame k r l w v h =
    elim (take_frame_ways l.dst
      (wait_for_inv IsValid ready FrameQueue.act act-IsValid r.during_pop l.capture.queue v)) [
        | inl (none_left, shut, res, out) ↦ inr (
            inr (
              none_left,
              shut,
              (
                after.capture,
                ap (take_due k r after) res
                    ∙ ap (λ d. return (read_error err_state) d none after.capture) out,
              ),
            ))
        | inr (inl (none_left, open_still, res, out)) ↦ inr (
            inl (
              none_left,
              open_still,
              Delivers-cast same_flags lost
                  (ap (λ d. overwrite d 0 (replicate (frame_bytes l.capture) 0)) out)
                  (ap (take_due k r after) res) (zeros (deliver-Delivers k r true after w h)),
            ))
        | inr (inr (f, fs, e, res, out, _)) ↦ inl (
          f,
          fs,
          e,
          Delivers-cast same_flags lost out (ap (take_due k r after) res)
              (deliver-Delivers k r false after w h),
        )
      ]
  where
    p : Pop
    p = take_frame (found_queue r l.capture) l.dst

    after : Local
    after = record {
      capture = record l.capture { queue = p.queue };
      dst = p.out;
      total = u64 (l.total + p.discarded);
    }

    same_flags : waiting_flags r after.capture ≡ waiting_flags r l.capture
    same_flags = waiting_flags-queue r.between l.capture p.queue

    lost : u64 (l.total + p.discarded) ≡ u64 (l.total + (found_queue r l.capture).dropped)
    lost = ap (λ n. u64 (l.total + n)) (discarded-take_frame (found_queue r l.capture) l.dst)

    zeros :
        Delivers r
          (waiting_flags r after.capture)
          after.total
          true
          (sent true after)
          (deliver k r true after)
        → Delivers r
            (waiting_flags r after.capture)
            after.total
            true
            (overwrite after.dst 0 (replicate (frame_bytes l.capture) 0))
            (deliver k r true after)
    zeros =
        Delivers-cast refl refl
          (ap (λ n. overwrite after.dst 0 (replicate n 0))
            (frame_bytes-SameSetup {c = l.capture} {d = after.capture} (record {
              sample_rate = refl;
              channels = refl;
              frame_samples = refl;
              format = refl;
              fixed_rate = refl;
            })))
          refl
