-- ===== src/Control/Lifetime.antt =====
-- The alarm of a query of src/pulse_control.cpp lives until the query returns, and libpulse keeps a raw
-- pointer to it for the callbacks. Which callbacks use the pointer after that?
use linux_web_audio_capture.Base.{
  ℕ, ◌+◌, ◌≤◌, Bool, true, false, ◌≡◌, refl, ap, ◌∙◌, ◌⊎◌, inl, inr, arith, Bool-cases, Option,
  none, some, List, [], ◌∷◌, ◌++◌,
}
use linux_web_audio_capture.CondVar.{Event, other, wake, await, wait_for, await_end}
use linux_web_audio_capture.Alarm.{
  Alarm, bounded, Waited, delivered, timed_out, make_alarm, try_ring, collect, wait,
}
use linux_web_audio_capture.Alarm.Delivery.{try_offer, ring_offer}

module _ {T A : Type 0} (offer : A → Option T) where
  -- How often callbacks use the alarm: a callback that rings nothing does not touch it.
  abbrev used : Option T → ℕ
  used none = 0
  used (some v) = 1

  abbrev pub uses : List A → ℕ
  uses [] = 0
  uses (c ∷ cs) = used (offer c) + uses cs

  abbrev pub callbacks_of : List (Event A) → List A
  callbacks_of [] = []
  callbacks_of (wake ∷ es) = callbacks_of es
  callbacks_of (other c ∷ es) = c ∷ callbacks_of es

  uses-append : (cs ds : List A) → uses (cs ++ ds) ≡ uses cs + uses ds
  uses-append [] ds = omega arith
  uses-append (c ∷ cs) ds = omega (arith, uses-append cs ds)

  -- Whatever it waits for, a wait leaves no more callbacks than there were.
  await_fewer :
      (es : List (Event A)) (a : Alarm T)
      → uses (callbacks_of (await (λ b. b.raised) (try_offer offer) es a).1)
        ≤ uses (callbacks_of es)
  unfolding await
  await_fewer [] a = omega arith
  await_fewer (wake ∷ es) a = ground (arith, await_fewer es a)
  await_fewer (other c ∷ es) a = omega (arith, await_fewer es (try_offer offer c a))

  await_offered :
      (o : Option T) (es : List (Event A)) (a : Alarm T)
      → ((await (λ b. b.raised) (try_offer offer) es a).0.raised ≡ true
          → uses (callbacks_of (await (λ b. b.raised) (try_offer offer) es a).1) + 1
            ≤ uses (callbacks_of es))
      → (await (λ b. b.raised) (try_offer offer) es (ring_offer o a)).0.raised ≡ true
      → uses (callbacks_of (await (λ b. b.raised) (try_offer offer) es (ring_offer o a)).1) + 1
        ≤ used o + uses (callbacks_of es)
  await_offered none es a rest raised = omega (arith, rest raised)
  await_offered (some v) es a rest raised = omega (arith, await_fewer es (ring_offer (some v) a))

  -- A wait that an alarm ends has used one callback up.
  await_raised :
      (es : List (Event A)) (a : Alarm T)
      → a.raised ≡ false
      → (await (λ b. b.raised) (try_offer offer) es a).0.raised ≡ true
      → uses (callbacks_of (await (λ b. b.raised) (try_offer offer) es a).1) + 1
        ≤ uses (callbacks_of es)
  unfolding await
  await_raised [] a h raised = ground arith
  await_raised (wake ∷ es) a h raised = ground (arith, await_raised es a h)
  await_raised (other c ∷ es) a h raised = await_offered (offer c) es a (await_raised es a h) raised

  await_silent :
      (es : List (Event A)) (a : Alarm T)
      → (await (λ b. b.raised) (try_offer offer) es a).0.raised ≡ false
      → (await (λ b. b.raised) (try_offer offer) es a).1 ≡ []
  await_silent es a h = ground (arith, await_end (λ b. b.raised) (try_offer offer) es a)

  -- Where the wait left an alarm raised, no result is left; otherwise nothing of the schedule is.
  left_over :
      (unset : T) (es : List (Event A)) (later : List A)
      → uses (callbacks_of es ++ later) ≤ 1
      → let r = await (λ b. b.raised) (try_offer offer) es (make_alarm unset) in
        ((r.0.raised ≡ true) × (uses (callbacks_of r.1 ++ later) ≡ 0))
        ⊎ ((r.0.raised ≡ false) × (uses (callbacks_of r.1 ++ later) ≡ uses later))
  unfolding make_alarm
  left_over unset es later once =
      let r = await (λ b. b.raised) (try_offer offer) es (make_alarm unset) in
      elim (Bool-cases r.0.raised) [
        | inl raised ↦ inl (
          raised,
          omega (
            arith,
            uses-append (callbacks_of es) later,
            await_raised es (make_alarm unset) refl raised,
            uses-append (callbacks_of r.1) later,
          ),
        )
        | inr silent ↦ inr (silent, simp (await_silent es (make_alarm unset) silent) refl)
      ]

-- The memory that the alarm of a query lives in: nothing before it is made and after its only owner, the
-- query, has returned. A write through the raw pointer that finds nothing is counted.
pub record Memory (T : Type 0) : Type 0 where
  pub alarm : Option (Alarm T)
  pub bad_writes : ℕ

module _ {T : Type 0} where
  try_ring_at : T → Option (Alarm T) → Memory T → Memory T
  try_ring_at v none m = record m { bad_writes = m.bad_writes + 1 }
  try_ring_at v (some a) m = record m { alarm = some (try_ring v a).1 }

  -- A callback rings through the raw pointer, or does not touch it.
  unfoldable pub ring_at : Option T → Memory T → Memory T
  unfolding try_ring_at
  ring_at none m = m
  ring_at (some v) m = try_ring_at v m.alarm m

  raised_in : Option (Alarm T) → Bool
  raised_in none = false
  raised_in (some a) = a.raised

  collect_in : Option (Alarm T) → Waited T
  collect_in none = timed_out
  collect_in (some a) = (collect bounded a).0

  -- The alarm is allocated at the start of a query, and freed when it returns.
  unfoldable pub allocate : T → Memory T → Memory T
  allocate unset m = record m { alarm = some (make_alarm unset) }

  unfoldable pub release : Memory T → Memory T
  release m = record m { alarm = none }

module _ {T A : Type 0} (offer : A → Option T) where
  -- Callbacks that run one after the other.
  unfoldable pub run_callbacks : List A → Memory T → Memory T
  unfolding ring_at
  run_callbacks [] m = m
  run_callbacks (c ∷ cs) m = run_callbacks cs (ring_at (offer c) m)

  -- A query over the schedule of its wait: what it waited for, and the memory when the callbacks that the
  -- schedule still holds, and those that come `later`, have run.
  unfoldable pub query : T → List (Event A) → List A → Memory T → Waited T × Memory T
  unfolding ring_at allocate release raised_in collect_in run_callbacks
  query unset es later m =
      let (m', rest) =
        wait_for (λ s. raised_in s.alarm) (λ c. ring_at (offer c)) es (allocate unset m) in
      (collect_in m'.alarm, run_callbacks (callbacks_of offer rest ++ later) (release m'))

  abbrev holding : ℕ → Alarm T → Memory T
  holding n a = record { alarm = some a; bad_writes = n }

  ring_at-holding :
      (o : Option T) (n : ℕ) (a : Alarm T) → ring_at o (holding n a) ≡ holding n (ring_offer o a)
  unfolding ring_at try_ring_at
  ring_at-holding none n a = refl
  ring_at-holding (some v) n a = refl

  -- While the query waits, its callbacks find the alarm.
  await-holding :
      (es : List (Event A)) (n : ℕ) (a : Alarm T)
      → await (λ s. raised_in s.alarm) (λ c. ring_at (offer c)) es (holding n a) ≡ (
        holding n (await (λ b. b.raised) (try_offer offer) es a).0,
        (await (λ b. b.raised) (try_offer offer) es a).1,
      )
  unfolding await raised_in
  await-holding [] n a = refl
  await-holding (wake ∷ es) n a = ground (arith, await-holding es n a)
  await-holding (other c ∷ es) n a =
      rw (ring_at-holding (offer c) n a) (await-holding es n (try_offer offer c a))

  -- Once it has returned, none does.
  ring_at-released :
      (o : Option T) (n : ℕ)
      → ring_at o (record { alarm = none; bad_writes = n })
        ≡ record { alarm = none; bad_writes = n + used offer o }
  unfolding ring_at try_ring_at
  ring_at-released none n = ap (λ k. record { alarm = none; bad_writes = k }) (omega arith)
  ring_at-released (some v) n = refl

  run_callbacks-released :
      (cs : List A) (n : ℕ)
      → (run_callbacks cs (record { alarm = none; bad_writes = n })).bad_writes ≡ n + uses offer cs
  unfolding run_callbacks ring_at try_ring_at
  run_callbacks-released [] n = omega arith
  run_callbacks-released (c ∷ cs) n =
      rw (ring_at-released (offer c) n, run_callbacks)
        (omega (arith, run_callbacks-released cs (n + used offer (offer c))))

  query-await :
      (unset : T) (es : List (Event A)) (later : List A) (m : Memory T)
      → let r = await (λ b. b.raised) (try_offer offer) es (make_alarm unset) in
        ((query unset es later m).0 ≡ (collect bounded r.0).0)
        × ((query unset es later m).1.bad_writes
            ≡ m.bad_writes + uses offer (callbacks_of offer r.1 ++ later))
  unfolding query wait_for make_alarm allocate release raised_in collect_in
  query-await unset es later m =
      rw (await-holding es m.bad_writes (make_alarm unset))
        (refl, run_callbacks-released _ m.bad_writes)

  collect-raised : (a : Alarm T) → a.raised ≡ true → (collect bounded a).0 ≡ delivered a.value
  unfolding collect
  collect-raised a h = ground arith

  collect-silent : (a : Alarm T) → a.raised ≡ false → (collect bounded a).0 ≡ timed_out
  unfolding collect
  collect-silent a h = ground arith

  -- The alarm of a query lives until the query returns, and libpulse keeps a raw pointer to it. A
  -- query waits for what the alarm of Alarm gives it. If libpulse gives at most one result, a query
  -- that has a value leaves no callback that writes to the alarm after its end. One that timed out
  -- does: each later result is written to memory that holds no alarm any more.
  pub late_uses :
      (unset : T) (es : List (Event A)) (later : List A) (m : Memory T)
      → uses offer (callbacks_of offer es ++ later) ≤ 1
      → let (w, m') = query unset es later m in
        (w ≡ (wait (try_offer offer) bounded es (make_alarm unset)).0)
        × (((v : T) × (w ≡ delivered v) × (m'.bad_writes ≡ m.bad_writes))
            ⊎ ((w ≡ timed_out) × (m'.bad_writes ≡ m.bad_writes + uses offer later)))
  unfolding wait wait_for make_alarm
  late_uses unset es later m once =
      let r = await (λ b. b.raised) (try_offer offer) es (make_alarm unset) in
      let (waited, writes) = query-await unset es later m in
      (
        waited,
        elim (left_over offer unset es later once) [
          | inl (raised, no_use) ↦
              inl (r.0.value, waited ∙ collect-raised r.0 raised, omega (arith, writes, no_use))
          | inr (silent, same) ↦
              inr (waited ∙ collect-silent r.0 silent, omega (arith, writes, same))
        ],
      )
