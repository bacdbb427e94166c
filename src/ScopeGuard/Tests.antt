-- ===== src/ScopeGuard/Tests.antt =====
-- A scope guard of src/primitives.h that is moved and dismissed.
use linux_web_audio_capture.Base.{◌≡◌, refl, List, [], ◌∷◌}
use linux_web_audio_capture.ScopeGuard.{
  on_scope_exit, exchange, Use, moves, dismisses, use_guard, use_guards, destroy_all,
}

-- The guard that was moved from is dismissed, which does nothing, and the other is moved once more.
abbrev uses : List Use
uses = moves 0 ∷ dismisses 0 ∷ moves 1 ∷ []

still_runs : destroy_all (use_guards uses on_scope_exit) ≡ 1
unfolding destroy_all use_guards use_guard exchange
still_runs = refl
