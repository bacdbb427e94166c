-- ===== src/Alarm.antt =====
-- `alarm_t` of src/primitives.h: a value handed from a callback to one waiting thread. Every method
-- runs under the alarm's mutex.
pub mod Delivery
mod Tests
use linux_web_audio_capture.Base.{Bool, true, false, if◌then◌else◌, List}
use linux_web_audio_capture.CondVar.{Event, wait_for}

-- `alarm_t<T>`, without its mutex and condition variable.
pub record Alarm {ℓ} (T : Type ℓ) : Type ℓ where
  pub raised : Bool
  pub value : T

-- The timeout of `wait`: a negative one waits indefinitely.
pub data Timeout : Type 0 where
  bounded forever : Timeout

-- The outcome of `wait`. `still_waiting` is the wait without a timeout that no value has ended when
-- its schedule does.
pub data Waited {ℓ} (T : Type ℓ) : Type ℓ where
  delivered : T → Waited T
  timed_out : Waited T
  still_waiting : Waited T

module _ {ℓ} {T : Type ℓ} where
  -- `make_alarm`, with the value that `T {}` is.
  unfoldable pub make_alarm : T → Alarm T
  make_alarm t = record { raised = false; value = t }

  unfoldable pub ring : T → Alarm T → Alarm T
  ring v a = record { raised = true; value = v }

  unfoldable pub try_ring : T → Alarm T → Bool × Alarm T
  try_ring v a = if a.raised then (false, a) else (true, record { raised = true; value = v })

  unfoldable pub reset : Alarm T → Alarm T
  reset a = record a { raised = false }

  -- `wait`, once it holds the mutex again. The value that is moved out is not read again before the
  -- next ring.
  unfoldable pub collect : Timeout → Alarm T → Waited T × Alarm T
  collect bounded a =
      if a.raised then (delivered a.value, record a { raised = false }) else (timed_out, a)
  collect forever a =
      if a.raised then (delivered a.value, record a { raised = false }) else (still_waiting, a)

  -- `wait`, over what the other threads do meanwhile.
  unfoldable pub wait {κ} :
      {A : Type κ}
      → (A → Alarm T → Alarm T)
      → Timeout
      → List (Event A)
      → Alarm T
      → Waited T × Alarm T
  wait act timeout es a = collect timeout (wait_for (λ b. b.raised) act es a).0
