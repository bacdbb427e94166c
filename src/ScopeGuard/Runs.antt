-- ===== src/ScopeGuard/Runs.antt =====
-- How often the callable of a `scope_guard_t` of src/primitives.h runs.
use mathlib.Core.List.{Memᴰ}
use linux_web_audio_capture.Base.{
  ℕ, zero, suc, ◌+◌, ◌≤◌, Bool, false, ◌≡◌, refl, ◌⊎◌, inl, inr, arith, List, [], ◌∷◌, ◌++◌,
}
use linux_web_audio_capture.ScopeGuard.{
  on_scope_exit, exchange, Use, moves, dismisses, use_guard, use_guards, destroy_all,
}

-- No guard is dismissed.
abbrev OnlyMoves : List Use → Type 0
OnlyMoves [] = Unit {0}
OnlyMoves (moves n ∷ us) = OnlyMoves us
OnlyMoves (dismisses n ∷ us) = ⊥

destroy_all-append :
    (bs : List Bool) (b : Bool)
    → destroy_all (bs ++ (b ∷ [])) ≡ destroy_all bs + destroy_all (b ∷ [])
unfolding destroy_all
destroy_all-append [] b = omega arith
destroy_all-append (c ∷ bs) b = omega (arith, destroy_all-append bs b)

-- Disarming a guard takes the run away that it held.
destroy_all-exchange :
    (n : ℕ) (gs : List Bool)
    → destroy_all (exchange n false gs).1 + destroy_all ((exchange n false gs).0 ∷ [])
      ≡ destroy_all gs
unfolding destroy_all exchange
destroy_all-exchange n [] = refl
destroy_all-exchange zero (b ∷ gs) = omega arith
destroy_all-exchange (suc n) (b ∷ gs) = omega (arith, destroy_all-exchange n gs)

moves-runs : (n : ℕ) (gs : List Bool) → destroy_all (use_guard (moves n) gs) ≡ destroy_all gs
unfolding use_guard
moves-runs n gs = omega (
  arith,
  destroy_all-append (exchange n false gs).1 (exchange n false gs).0,
  destroy_all-exchange n gs,
)

dismisses-runs :
    (n : ℕ) (gs : List Bool) → destroy_all (use_guard (dismisses n) gs) ≤ destroy_all gs
unfolding use_guard
dismisses-runs n gs = omega (arith, destroy_all-exchange n gs)

uses-runs : (us : List Use) (gs : List Bool) → destroy_all (use_guards us gs) ≤ destroy_all gs
unfolding use_guards
uses-runs [] gs = omega arith
uses-runs (moves n ∷ us) gs = omega (arith, uses-runs us (use_guard (moves n) gs), moves-runs n gs)
uses-runs (dismisses n ∷ us) gs =
    omega (arith, uses-runs us (use_guard (dismisses n) gs), dismisses-runs n gs)

runs_undismissed :
    (us : List Use) (gs : List Bool)
    → OnlyMoves us
    → destroy_all (use_guards us gs) ≡ destroy_all gs
unfolding use_guards
runs_undismissed [] gs h = refl
runs_undismissed (moves n ∷ us) gs h =
    omega (arith, runs_undismissed us (use_guard (moves n) gs) h, moves-runs n gs)
runs_undismissed (dismisses n ∷ us) gs h = absurd h

moves_or_dismisses : (us : List Use) → OnlyMoves us ⊎ ((n : ℕ) × Memᴰ (dismisses n) us)
moves_or_dismisses [] = inl tt
moves_or_dismisses (dismisses n ∷ us) = inr (n, Memᴰ.head refl)
moves_or_dismisses (moves n ∷ us) = elim (moves_or_dismisses us) [
  | inl h ↦ inl h
  | inr (k, m) ↦ inr (k, Memᴰ.tail m)
]

-- However a scope guard is moved and dismissed, its callable runs once when all the guards are
-- destroyed, or not at all, and then only if some guard was dismissed.
pub runs_once :
    (us : List Use)
    → (destroy_all (use_guards us on_scope_exit) ≡ 1)
      ⊎ ((destroy_all (use_guards us on_scope_exit) ≡ 0) × ((n : ℕ) × Memᴰ (dismisses n) us))
unfolding destroy_all
runs_once us =
    let runs = uses-runs us on_scope_exit in
    elim (moves_or_dismisses us) [
      | inl h ↦ inl (runs_undismissed us on_scope_exit h)
      | inr k ↦ ground (arith, runs, k)
    ]
