-- ===== src/Log.antt =====
-- src/log.h and src/log.cpp: log lines to stderr, with a threshold that the environment variable
-- WEBA_LOG_LEVEL sets. stderr is the list of the lines written to it.
pub mod Names
pub mod Threshold
pub mod Threads
mod Tests
use linux_web_audio_capture.Base.{
  ℕ, ◌-◌, Bool, true, false, ◌||◌, Option, none, some, List, [], ◌∷◌, ◌++◌, Bytes, bytes, leb,
  length, replicate, ◌==◌, same_bytes, if◌then◌else◌,
}

-- `level_t`, and its values as `int`.
pub data Level : Type 0 where
  error warning info debug : Level

abbrev pub rank : Level → ℕ
rank error = 0
rank warning = 1
rank info = 2
rank debug = 3

-- `to_string`
abbrev pub name : Level → Bytes
name error = bytes "error"
name warning = bytes "warning"
name info = bytes "info"
name debug = bytes "debug"

-- `parse_level`
unfoldable pub parse_level : Bytes → Option Level
unfolding same_bytes
parse_level text =
    if same_bytes text (bytes "error")
    then some error
    else if same_bytes text (bytes "warning") || same_bytes text (bytes "warn")
    then some warning
    else if same_bytes text (bytes "info")
    then some info
    else if same_bytes text (bytes "debug")
    then some debug
    else none

-- `g_level` and `g_level_initialized`, as they start.
pub record Logger : Type 0 where
  pub level : Level
  pub initialized : Bool

abbrev pub fresh : Logger
fresh = record { level = info; initialized = false }

-- What the environment variable makes of the level: nothing if it is not set or not understood.
abbrev store_parsed : Option Level → Logger → Logger
store_parsed none g = g
store_parsed (some l) g = record g { level = l }

abbrev parse_env : Option Bytes → Option Level
parse_env none = none
parse_env (some text) = parse_level text

-- `init_from_env`, with the value of the variable.
unfoldable pub init_from_env : Option Bytes → Logger → Logger
init_from_env env g =
    if g.initialized then g else store_parsed (parse_env env) (record g { initialized = true })

-- `set_level`
unfoldable pub set_level : Level → Logger → Logger
set_level l g = record g { initialized = true; level = l }

-- `level` gives the threshold.
unfoldable pub level : Option Bytes → Logger → Level × Logger
level env g = let g' = init_from_env env g in (g'.level, g')

-- `enabled`
unfoldable pub enabled : Option Bytes → Level → Logger → Bool × Logger
enabled env l g = let (threshold, g') = level env g in (leb (rank l) (rank threshold), g')

-- The bytes of `c_str()` that `%s` prints, and the padding of `%-7s`.
abbrev pub before_nul : Bytes → Bytes
before_nul [] = []
before_nul (b ∷ bs) = if b == 0 then [] else b ∷ before_nul bs

abbrev pub pad : ℕ → Bytes → Bytes
pad width text = text ++ replicate (width - length text) 32

-- What the destructor of `line_t` writes.
unfoldable pub render : Level → Bytes → Bytes
render l text =
    bytes "[webaudio] " ++ (pad 7 (name l) ++ (bytes " " ++ (before_nul text ++ (10 ∷ []))))

-- A statement `WEBA_LOG_... << text`: the line is built and written only if its level is enabled.
unfoldable pub log : Option Bytes → Level → Bytes → Logger × List Bytes → Logger × List Bytes
log env l text (g, stderr) =
    let (shown, g') = enabled env l g in
    (g', if shown then stderr ++ (render l text ∷ []) else stderr)

-- A call of `set_level`, or a log statement; and a sequence of them.
pub data Call : Type 0 where
  sets : Level → Call
  logs : Level → Bytes → Call

unfoldable pub step : Option Bytes → Call → Logger × List Bytes → Logger × List Bytes
step env (sets l) (g, stderr) = (set_level l g, stderr)
step env (logs l text) s = log env l text s

unfoldable pub run : Option Bytes → List Call → Logger × List Bytes → Logger × List Bytes
run env [] s = s
run env (c ∷ cs) s = run env cs (step env c s)
