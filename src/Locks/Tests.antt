-- ===== src/Locks/Tests.antt =====
-- The mutexes of src/include and src/src, with few threads.
use linux_web_audio_capture.Base.{ℕ, ◌≡◌, refl, none, List, [], ◌∷◌}
use linux_web_audio_capture.Locks.{
  Op, fails_to_connect, calls_back, stops, waits_for_stop, begin, run, turn, turn_in, advance,
  replace, keep,
}
use linux_web_audio_capture.Locks.Progress.{AllDone, no_deadlock}

-- The caller connects, then stops; libpulse calls back; the capture thread sleeps.
abbrev threads : List (List Op)
threads =
    (fails_to_connect 1 ∷ stops 1 ∷ [])
    ∷ (calls_back ∷ calls_back ∷ [])
    ∷ (waits_for_stop 2 ∷ [])
    ∷ []

-- The caller holds `_state_lock`, which the callback wants.
callback_blocks : turn 1 (run (0 ∷ []) (begin threads)) ≡ none
unfolding turn turn_in advance replace keep
callback_blocks = refl

no_deadlock_example :
    (more : List ℕ) × AllDone (run more (run (0 ∷ 2 ∷ 2 ∷ 1 ∷ []) (begin threads)))
no_deadlock_example = no_deadlock threads (0 ∷ 2 ∷ 2 ∷ 1 ∷ [])
