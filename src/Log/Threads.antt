-- ===== src/Log/Threads.antt =====
-- Threads that call `level` and `set_level` of src/log.cpp at the same time. Each access to an atomic
-- variable is one step.
pub mod Race
use linux_web_audio_capture.Base.{
  ℕ, zero, suc, Bool, true, false, if◌then◌else◌, Option, List, [], ◌∷◌, Bytes,
}
use linux_web_audio_capture.Log.{Level, Logger, store_parsed, parse_env}

-- Where a thread is: before the exchange of `init_from_env`, or after one that it won, before the store;
-- before the first or the second store of `set_level`; or behind its call, up to the load of `level`.
pub data Place : Type 0 where
  asks stores ended : Place
  marks sets : Level → Place

unfoldable pub move : Option Bytes → Place → Logger → Place × Logger
move env asks g = if g.initialized then (ended, g) else (stores, record g { initialized = true })
move env stores g = (ended, store_parsed (parse_env env) g)
move env ended g = (ended, g)
move env (marks l) g = (sets l, record g { initialized = true })
move env (sets l) g = (ended, record g { level = l })

-- A step of thread `n`.
unfoldable pub turn : Option Bytes → ℕ → List Place → Logger → List Place × Logger
turn env n [] g = ([], g)
turn env zero (p ∷ ps) g = let (p', g') = move env p g in (p' ∷ ps, g')
turn env (suc n) (p ∷ ps) g = let (ps', g') = turn env n ps g in (p ∷ ps', g')

unfoldable pub interleave : Option Bytes → List ℕ → List Place × Logger → List Place × Logger
interleave env [] s = s
interleave env (n ∷ ns) (ps, g) = interleave env ns (turn env n ps g)
