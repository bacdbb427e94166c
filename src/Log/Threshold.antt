-- ===== src/Log/Threshold.antt =====
-- What is logged (src/log.cpp): the threshold that a sequence of calls meets, and the lines it leaves.
use linux_web_audio_capture.Base.{
  Bool, true, false, ◌≡◌, refl, ◌∙◌, sym, ap, ◌⊎◌, inl, inr, arith, Option, none, some, List, [],
  ◌∷◌, ◌++◌, Bytes, leb, if◌then◌else◌, append_assoc, append-nil,
}
use linux_web_audio_capture.Log.{
  Level, info, rank, Logger, fresh, store_parsed, parse_env, init_from_env, set_level, level,
  enabled, render, log, Call, sets, logs, step, run,
}

-- The threshold before any `set_level`: the level of the environment, or info.
abbrev pub or_info : Option Level → Level
or_info none = info
or_info (some l) = l

-- The lines that are written, with `threshold` the one in force: a `set_level` replaces it, and a
-- line is written if its level is no less severe.
pub lines : Level → List Call → List Bytes
lines threshold [] = []
lines threshold (sets l ∷ cs) = lines l cs
lines threshold (logs l text ∷ cs) =
    (if leb (rank l) (rank threshold) then render l text ∷ [] else []) ++ lines threshold cs

-- The threshold that the next query gives.
abbrev InForce : Option Bytes → Logger → Level → Type 0
InForce env g t =
    ((g.initialized ≡ true) × (g.level ≡ t))
    ⊎ ((g.initialized ≡ false) × (g.level ≡ info) × (or_info (parse_env env) ≡ t))

pub store_parsed-level :
    (o : Option Level) (g : Logger) → g.level ≡ info → (store_parsed o g).level ≡ or_info o
store_parsed-level none g h = h
store_parsed-level (some l) g h = refl

pub store_parsed-initialized :
    (o : Option Level) (g : Logger) → (store_parsed o g).initialized ≡ g.initialized
store_parsed-initialized none g = refl
store_parsed-initialized (some l) g = refl

init_from_env-InForce :
    (env : Option Bytes) (g : Logger) (t : Level)
    → InForce env g t
    → let g' = init_from_env env g in (g'.initialized ≡ true) × (g'.level ≡ t)
unfolding init_from_env
init_from_env-InForce env g t h = ground (
  arith,
  store_parsed-level (parse_env env) (record g { initialized = true }),
  store_parsed-initialized (parse_env env) (record g { initialized = true }),
)

append_if {ℓ} :
    {A : Type ℓ} (b : Bool) (xs ys : List A)
    → (if b then xs ++ ys else xs) ≡ xs ++ (if b then ys else [])
append_if true xs ys = refl
append_if false xs ys = sym (append-nil xs)

log-lines :
    (env : Option Bytes) (l : Level) (text : Bytes) (g : Logger) (out : List Bytes) (t : Level)
    → InForce env g t
    → (log env l text (g, out)).1
      ≡ out ++ (if leb (rank l) (rank t) then render l text ∷ [] else [])
unfolding log enabled level
log-lines env l text g out t h =
    rw ((init_from_env-InForce env g t h).1)
      (append_if (leb (rank l) (rank t)) out (render l text ∷ []))

run-lines :
    (env : Option Bytes) (cs : List Call) (g : Logger) (out : List Bytes) (t : Level)
    → InForce env g t
    → (run env cs (g, out)).1 ≡ out ++ lines t cs
unfolding run step lines set_level log enabled level
run-lines env [] g out t h = sym (append-nil out)
run-lines env (sets l ∷ cs) g out t h =
    run-lines env cs (record g { initialized = true; level = l }) out l (inl (refl, refl))
run-lines env (logs l text ∷ cs) g out t h =
    run-lines env cs (log env l text (g, out)).0 (log env l text (g, out)).1 t
      (inl (init_from_env-InForce env g t h))
    ∙ ap (λ written. written ++ lines t cs) (log-lines env l text g out t h)
    ∙ append_assoc out _ (lines t cs)

-- What any sequence of calls writes: each line whose level is not above the threshold of its
-- moment, in order. The threshold is that of the last `set_level`; before the first, that of the
-- environment; and info if the environment has none that `parse_level` understands.
pub run_lem :
    (env : Option Bytes) (cs : List Call)
    → (run env cs (fresh, [])).1 ≡ lines (or_info (parse_env env)) cs
run_lem env cs = run-lines env cs fresh [] (or_info (parse_env env)) (inr (refl, refl, refl))
