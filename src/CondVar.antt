-- ===== src/CondVar.antt =====
-- `std::condition_variable::wait_for` with a predicate, as src/primitives.h, src/frame_queue.h,
-- src/pulse_control.cpp and src/capture.cpp call it. The state `S` is what the mutex guards.
-- What happens during the wait is a schedule: an operation of another thread under the mutex, or
-- the waiter waking up (notified or spuriously). The end of the schedule is the timeout.
use linux_web_audio_capture.Base.{Bool, true, false, ◌≡◌, refl, ◌⊎◌, inr, List, [], ◌∷◌, arith}

pub data Event {ℓ} (A : Type ℓ) : Type ℓ where
  other : A → Event A
  wake : Event A

module _ {ℓ κ} {S : Type ℓ} {A : Type κ} where
  -- The waiter is blocked. It gives back the state in which it holds the mutex again, with what is
  -- left of the schedule.
  unfoldable pub await : (S → Bool) → (A → S → S) → List (Event A) → S → S × List (Event A)
  await ready step [] s = (s, [])
  await ready step (other a ∷ es) s = await ready step es (step a s)
  await ready step (wake ∷ es) s =
      let rest = await ready step es s in elim (ready s) [ true ↦ (s, es) | false ↦ rest ]

  -- The predicate is tested before the thread blocks.
  unfoldable pub wait_for : (S → Bool) → (A → S → S) → List (Event A) → S → S × List (Event A)
  unfolding await
  wait_for ready step es s =
      let rest = await ready step es s in elim (ready s) [ true ↦ (s, es) | false ↦ rest ]

  -- What every operation of the other threads keeps holds when the wait is over.
  await_inv {μ} :
      (P : S → Type μ) (ready : S → Bool) (step : A → S → S)
      → ((a : A) (s : S) → P s → P (step a s))
      → (es : List (Event A)) (s : S) → P s
      → P (await ready step es s).0
  unfolding await
  await_inv P ready step keep [] s h = h
  await_inv P ready step keep (other a ∷ es) s h =
      await_inv P ready step keep es (step a s) (keep a s h)
  await_inv P ready step keep (wake ∷ es) s h = ground (arith, await_inv P ready step keep es s h)

  pub wait_for_inv {μ} :
      (P : S → Type μ) (ready : S → Bool) (step : A → S → S)
      → ((a : A) (s : S) → P s → P (step a s))
      → (es : List (Event A)) (s : S) → P s
      → P (wait_for ready step es s).0
  unfolding wait_for
  wait_for_inv P ready step keep es s h = ground (arith, await_inv P ready step keep es s h)

  -- A wait ends because its predicate holds, or because the whole schedule has passed.
  pub await_end :
      (ready : S → Bool) (step : A → S → S) (es : List (Event A)) (s : S)
      → (ready (await ready step es s).0 ≡ true) ⊎ ((await ready step es s).1 ≡ [])
  unfolding await
  await_end ready step [] s = inr refl
  await_end ready step (other a ∷ es) s = await_end ready step es (step a s)
  await_end ready step (wake ∷ es) s = ground (arith, await_end ready step es s)

  pub wait_for_end :
      (ready : S → Bool) (step : A → S → S) (es : List (Event A)) (s : S)
      → (ready (wait_for ready step es s).0 ≡ true) ⊎ ((wait_for ready step es s).1 ≡ [])
  unfolding wait_for
  wait_for_end ready step es s = ground (arith, await_end ready step es s)

  -- If the predicate holds already, the call returns at once.
  pub wait_for_ready :
      (ready : S → Bool) (step : A → S → S) (es : List (Event A)) (s : S)
      → ready s ≡ true
      → wait_for ready step es s ≡ (s, es)
  unfolding wait_for
  wait_for_ready ready step es s h = ground arith

  -- If it does not hold, the thread blocks, and a wake-up changes nothing.
  pub wait_for_unready :
      (ready : S → Bool) (step : A → S → S) (es : List (Event A)) (s : S)
      → ready s ≡ false
      → wait_for ready step es s ≡ await ready step es s
  unfolding wait_for
  wait_for_unready ready step es s h = ground arith

  pub await_unready :
      (ready : S → Bool) (step : A → S → S) (es : List (Event A)) (s : S)
      → ready s ≡ false
      → await ready step (wake ∷ es) s ≡ await ready step es s
  unfolding await
  await_unready ready step es s h = ground arith
