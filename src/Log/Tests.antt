-- ===== src/Log/Tests.antt =====
-- Log lines of src/log.cpp.
use linux_web_audio_capture.Base.{
  true, ◌≡◌, refl, some, List, [], ◌∷◌, ◌++◌, bytes, arith, same_bytes,
}
use linux_web_audio_capture.Log.{
  error, warning, info, debug, parse_level, fresh, render, sets, logs, Call, run, parse_env, step,
  log, enabled, level, init_from_env, set_level,
}
use linux_web_audio_capture.Log.Names.{read_line, read_line-render}
use linux_web_audio_capture.Log.Threads.{asks, marks, ended, interleave}
use linux_web_audio_capture.Log.Threads.Race.{set_level_lost}
use linux_web_audio_capture.Log.Threshold.{lines, or_info, run_lem}

read_line-render_example :
    read_line (render info (bytes "capture started") ++ bytes "[webaudio]")
    ≡ some ((info, bytes "capture started"), bytes "[webaudio]")
read_line-render_example =
    read_line-render info (bytes "capture started") (bytes "[webaudio]") (omega arith)

abbrev calls : List Call
calls = logs info (bytes "a") ∷ logs warning (bytes "b") ∷ sets debug ∷ logs debug (bytes "c") ∷ []

run_lem_example :
    (run (some (bytes "warn")) calls (fresh, [])).1
    ≡ lines (or_info (parse_env (some (bytes "warn")))) calls
run_lem_example = run_lem (some (bytes "warn")) calls

-- What these calls write.
run_written :
    (run (some (bytes "warn")) calls (fresh, [])).1
    ≡ (bytes "[webaudio] warning b" ++ (10 ∷ [])) ∷ (bytes "[webaudio] debug   c" ++ (10 ∷ [])) ∷ []
unfolding run step log enabled level init_from_env set_level parse_level same_bytes render
run_written = refl

set_level_lost_example :
    ((set_level debug (init_from_env (some (bytes "error")) fresh)).level ≡ debug)
    × ((init_from_env (some (bytes "error")) (set_level debug fresh)).level ≡ debug)
    × (interleave (some (bytes "error")) (0 ∷ 1 ∷ 1 ∷ 0 ∷ []) (asks ∷ marks debug ∷ [], fresh)
        ≡ (ended ∷ ended ∷ [], record { level = error; initialized = true }))
unfolding parse_level same_bytes
set_level_lost_example = set_level_lost (some (bytes "error")) error debug refl
