-- ===== src/Capture/Read.antt =====
-- `weba_capture_read_frame` of src/capture.cpp. Each round of its loop takes what the clock says and
-- what the other threads do meanwhile.
pub mod Setup
pub mod Cadence
pub mod Content
pub mod Session
pub mod Ending
pub mod Steady
pub mod Open
pub mod Gives
pub mod Stream
pub mod First
pub mod Giving
pub mod Calm
pub mod Timeout
use Prim.Native.Nat.{bit_or}
use linux_web_audio_capture.Base.{
  ℕ, ◌+◌, ◌-◌, ◌*◌, ◌/◌, ◌^◌, min, Bool, true, false, not, if◌then◌else◌, ltb, ◌==◌, Option, none,
  some, List, [], ◌∷◌, Bytes, replicate, overwrite, ℤ, pos, negsuc, u32, u64,
}
use linux_web_audio_capture.CondVar.{Event}
use linux_web_audio_capture.Format.{Status, err_inval, err_state}
use linux_web_audio_capture.FrameQueue.{Popped, got_frame, timed_out, was_closed, Pop}
use linux_web_audio_capture.FrameQueue
use linux_web_audio_capture.Capture.{
  Capture, Act, acts, discontinuity, silence, underrun, frame_period, period_ns, ns, frame_bytes,
}

-- `weba_frame_info`
pub record FrameInfo : Type 0 where
  pub timestamp_ns : ℕ
  pub flags : ℕ
  pub dropped_frames : ℕ

-- The results 1, 0 and a negative status.
pub data ReadStatus : Type 0 where
  read_one read_none : ReadStatus
  read_error : Status → ReadStatus

-- One round of the loop: the acts of other threads before it (during the sleep of the round before,
-- say), the clock at its top, what happens while `pop` waits, between `pop` and the next shared
-- access, and the clock when it is read again.
pub record Round : Type 0 where
  pub before : List Act
  pub now : ℕ
  pub during_pop : List (Event FrameQueue.Act)
  pub between : List Act
  pub after : ℕ

-- How a call ends, or that it is still in its loop when the rounds are used up.
pub data Outcome : Type 0 where
  finished : ReadStatus → Bytes → Option FrameInfo → Capture → Outcome
  unfinished : Capture → Outcome

-- The local state of the loop: the capture, `dst` and `total_discarded`.
pub record Local : Type 0 where
  pub capture : Capture
  pub dst : Bytes
  pub total : ℕ

-- A round ends the call, or the loop goes on.
pub data Next : Type 0 where
  return : ReadStatus → Bytes → Option FrameInfo → Capture → Next
  continue : Local → Next

-- The arguments that stay the same: whether `info` is not null, and the deadline of the call.
pub record Call : Type 0 where
  pub wants_info : Bool
  pub call_deadline : ℕ

-- `total_discarded > 0 ? WEBA_FRAME_DISCONTINUITY : 0`
abbrev pub loss_flag : ℕ → ℕ
loss_flag total = if ltb 0 total then discontinuity else 0

abbrev pub info_if : Bool → FrameInfo → Option FrameInfo
info_if wants i = if wants then some i else none

-- The end of a call that got a frame without fixed-rate output. The pending flags are taken only if
-- the caller wants the info.
unfoldable pub hand_over : Call → Round → Capture → Bytes → ℕ → Next
hand_over k r c dst total =
    return read_one dst
      (info_if k.wants_info (record {
        timestamp_ns = r.after;
        flags = bit_or c.pending_flags (loss_flag total);
        dropped_frames = u32 total;
      }))
      (if k.wants_info then record c { pending_flags = 0 } else c)

after_pop : Call → Round → Local → Popped → Next
after_pop k r l was_closed = return (read_error err_state) l.dst none l.capture
after_pop k r l timed_out =
    if ltb r.after k.call_deadline then continue l else return read_none l.dst none l.capture
after_pop k r l got_frame = hand_over k r (acts r.between l.capture) l.dst l.total

-- A round without fixed-rate output: `pop` waits for the rest of the caller's timeout. The wait does
-- not enter the model: it is the length of the schedule.
unfoldable pub plain_round : Call → Round → Local → Next
unfolding after_pop
plain_round k r l =
    let c = l.capture in
    let p = (FrameQueue.pop r.during_pop c.queue l.dst).0 in
    after_pop k r
      (record {
        capture = record c { queue = p.queue };
        dst = p.out;
        total = u64 (l.total + p.discarded);
      })
      p.result

-- The deadline of the first frame is set one period ahead.
unfoldable pub with_deadline : ℕ → Capture → Capture
with_deadline now c =
    if c.deadline_valid
    then c
    else record c { next_deadline = now + period_ns c; deadline_valid = true }

-- The wait, in microseconds, of a frame that is not due: one millisecond past its deadline, but no
-- longer than the call may take. A call deadline that has passed gives 0 here and a duration that is
-- not positive in the source, and both return at once.
unfoldable pub sleep_us : Call → ℕ → ℕ → ℕ
sleep_us k now deadline = min ((deadline - now) / 1000 + 1000) ((k.call_deadline - now) / 1000)

-- The deadline of the next frame, one period on, or one period from now after falling behind.
unfoldable pub next_deadline_after : ℕ → ℕ → ℕ → ℕ
next_deadline_after deadline period after =
    if ltb (deadline + period) after then after + period else deadline + period

-- A frame that is due goes out: `silent` says that no audio was there, so it is synthesized.
unfoldable pub deliver : Call → Round → Bool → Local → Next
deliver k r silent l =
    let c = acts r.between l.capture in
    let flags = bit_or c.pending_flags (loss_flag l.total) in
    return read_one (if silent then overwrite l.dst 0 (replicate (frame_bytes c) 0) else l.dst)
      (info_if k.wants_info (record {
        timestamp_ns = r.after;
        flags = if silent then bit_or flags (bit_or silence underrun) else flags;
        dropped_frames = u32 l.total;
      }))
      (record c {
        pending_flags = 0;
        next_deadline = next_deadline_after c.next_deadline (period_ns c) r.after;
      })

take_due : Call → Round → Local → Popped → Next
take_due k r l was_closed = return (read_error err_state) l.dst none l.capture
take_due k r l timed_out = deliver k r true l
take_due k r l got_frame = deliver k r false l

-- The part of a fixed-rate round in which the frame is due.
unfoldable pub due_round : Call → Round → Local → Next
unfolding take_due
due_round k r l =
    let c = l.capture in
    let p = (FrameQueue.pop r.during_pop c.queue l.dst).0 in
    take_due k r
      (record {
        capture = record c { queue = p.queue };
        dst = p.out;
        total = u64 (l.total + p.discarded);
      })
      p.result

unfoldable pub fixed_round : Call → Round → Local → Next
fixed_round k r l =
    let c = with_deadline r.now l.capture in
    if ltb r.now c.next_deadline
    then (if sleep_us k r.now c.next_deadline == 0
        then return read_none l.dst none c
        else continue (record l { capture = c }))
    else due_round k r (record l { capture = c })

-- One round of the loop.
unfoldable pub round : Call → Round → Local → Next
round k r l =
    let l' = record l { capture = acts r.before l.capture } in
    if l.capture.fixed_rate then fixed_round k r l' else plain_round k r l'

-- The loop ends with a round that returns, or makes the next one.
unfoldable pub follow : Next → (Local → Outcome) → Outcome
follow (return s dst info c) rest = finished s dst info c
follow (continue l) rest = rest l

unfoldable pub loop : Call → List Round → Local → Outcome
loop k [] l = unfinished l.capture
loop k (r ∷ rs) l = follow (round k r l) (loop k rs)

-- The deadline of a call: a negative timeout counts as 0.
abbrev pub timeout_ns : ℤ → ℕ
timeout_ns (pos ms) = ms * 1_000_000
timeout_ns (negsuc n) = 0

-- `weba_capture_read_frame`, at the clock `entered`. A null `dst` is `none`; a null handle, which is
-- refused in the same way, has no state and is left out.
unfoldable pub read_frame : Capture → Option Bytes → ℕ → Bool → ℤ → ℕ → List Round → Outcome
read_frame c none dst_capacity_frames wants_info timeout_ms entered rs =
    finished (read_error err_inval) [] none c
read_frame c (some dst) dst_capacity_frames wants_info timeout_ms entered rs =
    if not c.running
    then finished (read_error err_state) dst none c
    else if ltb dst_capacity_frames c.frame_samples
    then finished (read_error err_inval) dst none c
    else loop (record { wants_info = wants_info; call_deadline = entered + timeout_ns timeout_ms })
        rs (record { capture = c; dst = dst; total = 0 })
