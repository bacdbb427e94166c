-- ===== src/ScopeGuard.antt =====
-- `scope_guard_t` of src/primitives.h. The guards that one `on_scope_exit` leads to are the list of their
-- `_armed` flags, the newest last; all hold the same callable.
pub mod Runs
mod Tests
use linux_web_audio_capture.Base.{
  ℕ, zero, suc, ◌+◌, Bool, true, false, if◌then◌else◌, List, [], ◌∷◌, ◌++◌,
}

-- `on_scope_exit`
abbrev pub on_scope_exit : List Bool
on_scope_exit = true ∷ []

-- Writing the flag of guard `n`, which gives its old value, as `std::exchange` does.
unfoldable pub exchange : ℕ → Bool → List Bool → Bool × List Bool
exchange n v [] = (false, [])
exchange zero v (b ∷ bs) = (b, v ∷ bs)
exchange (suc n) v (b ∷ bs) = let (old, bs') = exchange n v bs in (old, b ∷ bs')

-- `scope_guard_t (scope_guard_t &&)` from guard `n`, and `dismiss` on guard `n`.
pub data Use : Type 0 where
  moves dismisses : ℕ → Use

unfoldable pub use_guard : Use → List Bool → List Bool
use_guard (moves n) gs = let (old, gs') = exchange n false gs in gs' ++ (old ∷ [])
use_guard (dismisses n) gs = (exchange n false gs).1

unfoldable pub use_guards : List Use → List Bool → List Bool
use_guards [] gs = gs
use_guards (u ∷ us) gs = use_guards us (use_guard u gs)

-- The destructors of all guards: how often the callable runs.
unfoldable pub destroy_all : List Bool → ℕ
destroy_all [] = 0
destroy_all (b ∷ bs) = (if b then 1 else 0) + destroy_all bs
