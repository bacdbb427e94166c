-- ===== src/Alarm/Delivery.antt =====
-- What the waiter of an alarm (src/primitives.h) receives.
use linux_web_audio_capture.Base.{
  true, false, ◌≡◌, refl, sym, subst, Option, none, some, List, [], ◌∷◌, arith,
}
use linux_web_audio_capture.CondVar.{
  Event, other, wake, await, wait_for, await_unready, wait_for_unready,
}
use linux_web_audio_capture.Alarm.{
  Alarm, Timeout, bounded, forever, Waited, delivered, timed_out, still_waiting, try_ring, collect,
  wait,
}

module _ {T : Type 0} where
  abbrev pub ring_offer : Option T → Alarm T → Alarm T
  ring_offer none a = a
  ring_offer (some v) a = (try_ring v a).1

  abbrev pub or_later : Option T → Option T → Option T
  or_later none later = later
  or_later (some v) later = some v

module _ {T A : Type 0} (offer : A → Option T) where
  -- A callback that rings by `try_ring`, or not at all.
  abbrev pub try_offer : A → Alarm T → Alarm T
  try_offer c = ring_offer (offer c)

  -- The first value that is offered in a schedule.
  abbrev pub first_offer : List (Event A) → Option T
  first_offer [] = none
  first_offer (wake ∷ es) = first_offer es
  first_offer (other c ∷ es) = or_later (offer c) (first_offer es)

  abbrev pub outcome : Timeout → Option T → Waited T
  outcome t (some v) = delivered v
  outcome bounded none = timed_out
  outcome forever none = still_waiting

  -- Once raised, the alarm keeps its value through every later `try_ring`.
  await_raised :
      (es : List (Event A)) (a : Alarm T)
      → a.raised ≡ true
      → (await (λ b. b.raised) try_offer es a).0 ≡ a
  unfolding await try_ring
  await_raised [] a h = refl
  await_raised (wake ∷ es) a h = ground arith
  await_raised (other c ∷ es) a h = ground (arith, await_raised es a h)

  -- The alarm when the wait is over.
  abbrev Holds : Alarm T → Option T → Type 0
  Holds a none = a.raised ≡ false
  Holds a (some v) = a ≡ record { raised = true; value = v }

  await_offer :
      (o : Option T) (es : List (Event A)) (a : Alarm T)
      → a.raised ≡ false
      → Holds (await (λ b. b.raised) try_offer es a).0 (first_offer es)
      → Holds (await (λ b. b.raised) try_offer es (ring_offer o a)).0 (or_later o (first_offer es))
  unfolding try_ring
  await_offer none es a h rest = rest
  await_offer (some v) es a h rest =
      rw h (await_raised es (record { raised = true; value = v }) refl)

  await_quiet :
      (es : List (Event A)) (a : Alarm T)
      → a.raised ≡ false
      → Holds (await (λ b. b.raised) try_offer es a).0 (first_offer es)
  unfolding await try_ring
  await_quiet [] a h = h
  await_quiet (wake ∷ es) a h =
      subst (λ r. Holds r.0 (first_offer es)) (sym (await_unready (λ b. b.raised) try_offer es a h))
        (await_quiet es a h)
  await_quiet (other c ∷ es) a h = await_offer (offer c) es a h (await_quiet es a h)

  collect-outcome :
      (t : Timeout) (a : Alarm T) (o : Option T) → Holds a o → (collect t a).0 ≡ outcome t o
  unfolding collect
  collect-outcome bounded a none h = ground arith
  collect-outcome forever a none h = ground arith
  collect-outcome bounded a (some v) h = ground arith
  collect-outcome forever a (some v) h = ground arith

  -- `wait` on an alarm that is not raised, with callbacks that ring it by `try_ring` only, receives
  -- the value that was offered first, whenever the waiter wakes up, and times out (or keeps
  -- waiting) exactly where none is offered.
  pub wait-first_offer :
      (t : Timeout) (es : List (Event A)) (a : Alarm T)
      → a.raised ≡ false
      → (wait try_offer t es a).0 ≡ outcome t (first_offer es)
  unfolding wait
  wait-first_offer t es a h =
      collect-outcome t (wait_for (λ b. b.raised) try_offer es a).0 (first_offer es) (
        subst (λ r. Holds r.0 (first_offer es))
          (sym (wait_for_unready (λ b. b.raised) try_offer es a h)) (await_quiet es a h))

  -- What holds of every value that is offered holds of the first.
  pub first_offer_inv :
      (P : T → Type 0)
      → ((c : A) (v : T) → offer c ≡ some v → P v)
      → (es : List (Event A)) (v : T) → first_offer es ≡ some v
      → P v
  first_offer_inv P all [] v h = cc
  first_offer_inv P all (wake ∷ es) v h = first_offer_inv P all es v h
  first_offer_inv P all (other c ∷ es) v h =
      first_of_two (offer c) (first_offer es) v (all c) (first_offer_inv P all es) h
    where
      first_of_two :
          (o later : Option T) (v : T)
          → ((w : T) → o ≡ some w → P w)
          → ((w : T) → later ≡ some w → P w)
          → or_later o later ≡ some v
          → P v
      first_of_two none later v now rest h = rest v h
      first_of_two (some w) later v now rest h = now v h
