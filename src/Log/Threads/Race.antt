-- ===== src/Log/Threads/Race.antt =====
-- The threshold that threads leave which meet in src/log.cpp.
use linux_web_audio_capture.Base.{
  ℕ, zero, suc, ◌+◌, true, false, ◌≡◌, refl, ◌⊎◌, inl, inr, arith, Option, some, List, [], ◌∷◌,
  Bytes,
}
use linux_web_audio_capture.Log.{
  Level, info, Logger, fresh, store_parsed, parse_env, init_from_env, set_level,
}
use linux_web_audio_capture.Log.Threshold.{or_info, store_parsed-level, store_parsed-initialized}
use linux_web_audio_capture.Log.Threads.{
  Place, asks, stores, ended, marks, sets, move, turn, interleave,
}

-- A thread that queries the level, and where it is.
abbrev pub IsQuery : Place → Type 0
IsQuery asks = Unit {0}
IsQuery stores = Unit {0}
IsQuery ended = Unit {0}
IsQuery (marks l) = ⊥
IsQuery (sets l) = ⊥

abbrev pub Queries : List Place → Type 0
Queries [] = Unit {0}
Queries (p ∷ ps) = IsQuery p × Queries ps

-- How many threads are about to store the level of the environment.
abbrev is_storing : Place → ℕ
is_storing asks = 0
is_storing stores = 1
is_storing ended = 0
is_storing (marks l) = 0
is_storing (sets l) = 0

abbrev pub storing : List Place → ℕ
storing [] = 0
storing (p ∷ ps) = is_storing p + storing ps

-- What a step does: nothing that the others see, the exchange, or the store.
abbrev Effect : Option Bytes → ℕ → Logger → ℕ → Logger → Type 0
Effect env n g n' g' =
    ((n' ≡ n) × (g' ≡ g))
    ⊎ ((g.initialized ≡ false) × (n' ≡ n + 1) × (g' ≡ record g { initialized = true }))
    ⊎ ((n ≡ n' + 1) × (g' ≡ store_parsed (parse_env env) g))

turn_lem :
    (env : Option Bytes) (k : ℕ) (ps : List Place) (g : Logger)
    → Queries ps
    → let (ps', g') = turn env k ps g in Queries ps' × Effect env (storing ps) g (storing ps') g'
unfolding turn move
turn_lem env k [] g q = (tt, inl (refl, refl))
turn_lem env zero (asks ∷ ps) g (_, q) = ground (arith, q)
turn_lem env zero (stores ∷ ps) g (_, q) = ((tt, q), inr (inr (omega arith, refl)))
turn_lem env zero (ended ∷ ps) g (_, q) = ((tt, q), inl (refl, refl))
turn_lem env zero (marks l ∷ ps) g (h, q) = absurd h
turn_lem env zero (sets l ∷ ps) g (h, q) = absurd h
turn_lem env (suc k) (p ∷ ps) g (h, q) =
    let (q', e) = turn_lem env k ps g q in ((h, q'), ground (arith, e))

-- The three stages of the first query: before its exchange, up to its store, and after.
abbrev pub Stage : Option Bytes → ℕ → Logger → Type 0
Stage env n g =
    ((n ≡ 0) × (g.initialized ≡ false) × (g.level ≡ info))
    ⊎ ((n ≡ 1) × (g.initialized ≡ true) × (g.level ≡ info))
    ⊎ ((n ≡ 0) × (g.initialized ≡ true) × (g.level ≡ or_info (parse_env env)))

Effect-Stage :
    (env : Option Bytes) (n n' : ℕ) (g g' : Logger)
    → Effect env n g n' g'
    → Stage env n g
    → Stage env n' g'
Effect-Stage env n n' g g' (inl (same, e)) s = rw (same, e) s
Effect-Stage env n n' g g' (inr (inl (h, up, e))) s = rw e (ground arith)
Effect-Stage env n n' g g' (inr (inr (down, e))) s = rw e (
    ground
      (arith, store_parsed-level (parse_env env) g, store_parsed-initialized (parse_env env) g))

interleave-Stage :
    (env : Option Bytes) (ns : List ℕ) (ps : List Place) (g : Logger)
    → Queries ps
    → Stage env (storing ps) g
    → let (ps', g') = interleave env ns (ps, g) in Stage env (storing ps') g'
unfolding interleave
interleave-Stage env [] ps g q s = s
interleave-Stage env (n ∷ ns) ps g q s =
    let (q', e) = turn_lem env n ps g q in
    interleave-Stage env ns _ _ q' (Effect-Stage env _ _ g _ e s)

-- Any number of threads that query the level, none of which is about to store one at first, in any
-- interleaving of their steps: before the first exchange the level is info, then one thread only is
-- about to store the level of the environment and the others see info still, and after its store
-- the level is that of the environment, or info, with no thread about to store one.
pub level_settles :
    (env : Option Bytes) (ns : List ℕ) (ps : List Place)
    → Queries ps
    → storing ps ≡ 0
    → let (ps', g') = interleave env ns (ps, fresh) in Stage env (storing ps') g'
level_settles env ns ps q none_yet = interleave-Stage env ns ps fresh q (inl (none_yet, refl, refl))

-- A `set_level` that runs between the exchange and the store of the first query is lost: the level
-- of the environment replaces it, if the environment has one, although `set_level` gives the level
-- in either order of the two calls.
pub set_level_lost :
    (env : Option Bytes) (l m : Level)
    → parse_env env ≡ some l
    → ((set_level m (init_from_env env fresh)).level ≡ m)
      × ((init_from_env env (set_level m fresh)).level ≡ m)
      × (interleave env (0 ∷ 1 ∷ 1 ∷ 0 ∷ []) (asks ∷ marks m ∷ [], fresh)
          ≡ (ended ∷ ended ∷ [], record { level = l; initialized = true }))
unfolding interleave turn move set_level init_from_env
set_level_lost env l m h = rw h (refl, refl, refl)
