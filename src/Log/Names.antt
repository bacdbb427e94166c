-- ===== src/Log/Names.antt =====
-- The names of levels, and the lines that carry them (src/log.cpp).
use mathlib.Core.Logic.{◌↔◌}
use mathlib.Core.Option
use linux_web_audio_capture.Base.{
  ◌≢◌, ◌≡◌, refl, ◌⊎◌, inl, inr, arith, Option, none, some, [], ◌∷◌, ◌++◌, Bytes, bytes, ◌==◌,
  if◌then◌else◌, same_bytes, same_bytes_sound, drop, take, append_assoc,
}
use linux_web_audio_capture.Log.{
  Level, error, warning, info, debug, name, parse_level, pad, before_nul, render,
}

-- The names that `parse_level` knows: those that `to_string` gives, and an abbreviation.
abbrev pub Names : Bytes → Level → Type 0
Names text l = (text ≡ name l) ⊎ ((l ≡ warning) × (text ≡ bytes "warn"))

parse_level_sound : (text : Bytes) (l : Level) → parse_level text ≡ some l → Names text l
unfolding parse_level
parse_level_sound text l h = ground (
  arith,
  same_bytes_sound text (bytes "error"),
  same_bytes_sound text (bytes "warning"),
  same_bytes_sound text (bytes "warn"),
  same_bytes_sound text (bytes "info"),
  same_bytes_sound text (bytes "debug"),
)

parse_level-name : (l : Level) → parse_level (name l) ≡ some l
unfolding parse_level
parse_level-name error = refl
parse_level-name warning = refl
parse_level-name info = refl
parse_level-name debug = refl

parse_level-warn : parse_level (bytes "warn") ≡ some warning
unfolding parse_level
parse_level-warn = refl

parse_level_complete : (text : Bytes) (l : Level) → Names text l → parse_level text ≡ some l
parse_level_complete text l (inl e) = rw e (parse_level-name l)
parse_level_complete text l (inr (e, w)) = rw (e, w) parse_level-warn

-- `parse_level` reads a text as a level exactly if it is the level's name, or "warn" for a warning.
pub parse_level_lem : (text : Bytes) (l : Level) → (parse_level text ≡ some l) ↔ Names text l
parse_level_lem text l = (parse_level_sound text l, parse_level_complete text l)

-- A reader of log lines: the tag is fixed, the level stands in seven columns, and the text goes to the
-- end of the line. It gives what follows, too.
abbrev trim : Bytes → Bytes
trim [] = []
trim (b ∷ bs) = if b == 32 then [] else b ∷ trim bs

abbrev to_newline : Bytes → Option (Bytes × Bytes)
to_newline [] = none
to_newline (b ∷ bs) =
    if b == 10 then some ([], bs) else Option.map (λ p. (b ∷ p.0, p.1)) (to_newline bs)

with_level : Option Level → Option (Bytes × Bytes) → Option ((Level × Bytes) × Bytes)
with_level none line = none
with_level (some l) none = none
with_level (some l) (some (text, rest)) = some ((l, text), rest)

unfoldable pub read_line : Bytes → Option ((Level × Bytes) × Bytes)
unfolding with_level
read_line bs =
    if same_bytes (take 11 bs) (bytes "[webaudio] ")
    then with_level (parse_level (trim (take 7 (drop 11 bs)))) (to_newline (drop 19 bs))
    else none

-- A text that `%s` prints whole, on one line.
abbrev pub IsLine : Bytes → Type 0
IsLine [] = Unit {0}
IsLine (b ∷ bs) = (b ≢ 0) × (b ≢ 10) × IsLine bs

to_newline-before_nul :
    (text rest : Bytes)
    → IsLine text
    → to_newline (before_nul text ++ (10 ∷ rest)) ≡ some (text, rest)
to_newline-before_nul [] rest h = refl
to_newline-before_nul (b ∷ bs) rest (z, n, more) =
    ground (arith, to_newline-before_nul bs rest more)

read_line-render_any :
    (l : Level) (text tail : Bytes) {out : Bytes × Bytes}
    → to_newline (before_nul text ++ tail) ≡ some out
    → read_line (bytes "[webaudio] " ++ (pad 7 (name l) ++ (32 ∷ before_nul text ++ tail)))
      ≡ some ((l, out.0), out.1)
unfolding read_line same_bytes parse_level
read_line-render_any error text tail h = rw h
read_line-render_any warning text tail h = rw h
read_line-render_any info text tail h = rw h
read_line-render_any debug text tail h = rw h

render-append :
    (l : Level) (text rest : Bytes)
    → render l text ++ rest
      ≡ bytes "[webaudio] " ++ (pad 7 (name l) ++ (32 ∷ before_nul text ++ (10 ∷ rest)))
unfolding render
render-append error text rest = simp (append_assoc)
render-append warning text rest = simp (append_assoc)
render-append info text rest = simp (append_assoc)
render-append debug text rest = simp (append_assoc)

-- A log line tells its level and its text, if the text has no NUL and no line break: a reader gets
-- both back, and what was written behind the line.
pub read_line-render :
    (l : Level) (text rest : Bytes)
    → IsLine text
    → read_line (render l text ++ rest) ≡ some ((l, text), rest)
read_line-render l text rest h =
    rw (render-append l text rest)
      (read_line-render_any l text (10 ∷ rest) (to_newline-before_nul text rest h))
