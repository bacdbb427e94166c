-- ===== src/Capture/Period.antt =====
-- `frame_period_text` of src/capture.cpp. What `snprintf` makes of the conversion "%.3f" of a number of
-- microseconds, as a `double` divided by 1000, is a parameter: a double and its printing are not modelled.
pub mod Text
use mathlib.Core.List.{reverse}
use linux_web_audio_capture.Base.{
  ℕ, ◌*◌, ◌/◌, List, [], ◌∷◌, ◌++◌, Bytes, bytes, to_string, take, if◌then◌else◌, ◌==◌,
}
use linux_web_audio_capture.Capture.{frame_period}

-- The loop that pops zeros, and the pop of a decimal point, on the text with its last byte first.
abbrev pub pop_zeros : Bytes → Bytes
pop_zeros [] = []
pop_zeros (b ∷ []) = b ∷ []
pop_zeros (b ∷ c ∷ bs) = if b == 48 then pop_zeros (c ∷ bs) else b ∷ c ∷ bs

abbrev pub pop_point : Bytes → Bytes
pop_point [] = []
pop_point (b ∷ bs) = if b == 46 then bs else b ∷ bs

abbrev pub trim : Bytes → Bytes
trim text = reverse (pop_point (pop_zeros (reverse text)))

-- The text of a period of `us` microseconds. `char text[32]` holds 31 bytes and a NUL.
unfoldable pub period_text : (ℕ → Bytes) → ℕ → Bytes
period_text print_3f us =
    let whole = us / 1000 in
    if us == whole * 1000
    then to_string whole ++ bytes " ms"
    else trim (take 31 (print_3f us)) ++ bytes " ms"

unfoldable pub frame_period_text : (ℕ → Bytes) → ℕ → ℕ → Bytes
frame_period_text print_3f frame_samples sample_rate =
    period_text print_3f (frame_period frame_samples sample_rate)
