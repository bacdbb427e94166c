-- ===== src/Base/Text.antt =====
-- Texts as their bytes: literals, and `std::to_string` of an unsigned number.
use Prim.Native.Char.{code}
use Prim.Native.String.{String}
use Prim.Native.Nat.{ℕ, zero, suc, ◌+◌, ◌/◌, ◌%◌}
use mathlib.Core.Bool.{Bool, true, false, ◌&&◌}
use mathlib.Core.List.{List, [], ◌∷◌}
use native.Mathlib.Omega.{arith}
use mathlib.Core.Path.{◌≡◌, refl}
use linux_web_audio_capture.Base.Tests.{ltb, ◌==◌, if◌then◌else◌}

-- The bytes of an ASCII text.
abbrev pub bytes : String → List ℕ
bytes String.[] = []
bytes (String.◌∷◌ c s) = code c ∷ bytes s

-- `std::string::operator==`
unfoldable pub same_bytes : List ℕ → List ℕ → Bool
same_bytes [] [] = true
same_bytes [] (b ∷ bs) = false
same_bytes (a ∷ xs) [] = false
same_bytes (a ∷ xs) (b ∷ bs) = a == b && same_bytes xs bs

pub same_bytes_sound : (xs bs : List ℕ) → same_bytes xs bs ≡ true → xs ≡ bs
unfolding same_bytes
same_bytes_sound [] [] h = refl
same_bytes_sound [] (b ∷ bs) h = cc
same_bytes_sound (a ∷ xs) [] h = cc
same_bytes_sound (a ∷ xs) (b ∷ bs) h = ground (arith, same_bytes_sound xs bs)

pub same_bytes_refl : (bs : List ℕ) → same_bytes bs bs ≡ true
unfolding same_bytes
same_bytes_refl [] = refl
same_bytes_refl (b ∷ bs) = ground (arith, same_bytes_refl bs)

-- `std::string::empty`
abbrev pub empty : List ℕ → Bool
empty [] = true
empty (b ∷ bs) = false

-- The decimal digits of `n` before `rest`, on fuel: each round takes one digit off.
unfoldable pub decimal : ℕ → ℕ → List ℕ → List ℕ
decimal zero n rest = rest
decimal (suc fuel) n rest =
    let more = decimal fuel (n / 10) ((48 + n % 10) ∷ rest) in
    if ltb n 10 then (48 + n) ∷ rest else more

-- `std::to_string`. A number has at most as many digits as one more than itself.
unfoldable pub to_string : ℕ → List ℕ
unfolding decimal
to_string n = decimal (suc n) n []
