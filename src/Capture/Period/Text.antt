-- ===== src/Capture/Period/Text.antt =====
-- What the text of a period tells (src/capture.cpp).
use mathlib.Core.List.{reverse, reverse_aux, reverse_aux-eq, reverse-reverse, reverse-append}
use native.Mathlib.Nat.{div-le_self}
use linux_web_audio_capture.Base.{
  ℕ, zero, suc, ◌+◌, ◌-◌, ◌*◌, ◌/◌, ◌%◌, ◌^◌, ◌≤◌, ◌<◌, Bool, ◌&&◌, ◌≡◌, refl, ap, ◌∙◌, ◌≢◌, inl,
  inr, arith, [], ◌∷◌, ◌++◌, append_assoc, Bytes, bytes, decimal, to_string, length, length-append,
  take, take_all, if◌then◌else◌, ◌==◌, leb, ltb, Bool-cases,
}
use linux_web_audio_capture.Capture.{frame_period}
use linux_web_audio_capture.Capture.Period.{
  pop_zeros, pop_point, trim, period_text, frame_period_text,
}

-- A reader of such texts: digits up to the first byte that is none, then a fraction of three digits at
-- most, each counted by its weight.
abbrev is_digit : ℕ → Bool
is_digit b = leb 48 b && leb b 57

abbrev digits : ℕ → Bytes → ℕ × Bytes
digits acc [] = (acc, [])
digits acc (b ∷ bs) = if is_digit b then digits (acc * 10 + (b - 48)) bs else (acc, b ∷ bs)

abbrev fraction : ℕ → Bytes → ℕ
fraction weight [] = 0
fraction weight (b ∷ bs) = if is_digit b then (b - 48) * weight + fraction (weight / 10) bs else 0

-- The microseconds that a text of milliseconds stands for.
read_rest : ℕ × Bytes → ℕ
read_rest (ms, []) = ms * 1000
read_rest (ms, b ∷ bs) = if b == 46 then ms * 1000 + fraction 100 bs else ms * 1000

unfoldable pub read_period : Bytes → ℕ
unfolding read_rest
read_period text = read_rest (digits 0 text)

digits-decimal :
    (fuel n : ℕ) (rest : Bytes) → n < fuel → digits 0 (decimal fuel n rest) ≡ digits n rest
unfolding decimal
digits-decimal zero n rest h = absurd (omega arith)
digits-decimal (suc fuel) n rest h = elim (Bool-cases (ltb n 10)) [
  | inl small ↦ ground (arith)
  | inr large ↦
      rw large (digits-decimal fuel (n / 10) ((48 + n % 10) ∷ rest) (ground arith) ∙ ground arith)
]

length-decimal :
    (fuel n k : ℕ) (rest : Bytes)
    → n < fuel
    → n < 10 ^ suc k
    → length (decimal fuel n rest) ≤ suc k + length rest
unfolding decimal
length-decimal zero n k rest h b = absurd (omega arith)
length-decimal (suc fuel) n zero rest h b = ground arith
length-decimal (suc fuel) n (suc k) rest h b =
    ground (arith, length-decimal fuel (n / 10) k ((48 + n % 10) ∷ rest))

-- The three digits of `m` thousandths, and those that are kept, in both directions.
abbrev kept : ℕ → Bytes
kept m =
    if m % 10 == 0
    then (if m / 10 % 10 == 0
        then (48 + m / 100) ∷ []
        else (48 + m / 100) ∷ (48 + m / 10 % 10) ∷ [])
    else (48 + m / 100) ∷ (48 + m / 10 % 10) ∷ (48 + m % 10) ∷ []

abbrev kept_back : ℕ → Bytes → Bytes
kept_back m rest =
    if m % 10 == 0
    then (if m / 10 % 10 == 0
        then (48 + m / 100) ∷ rest
        else (48 + m / 10 % 10) ∷ (48 + m / 100) ∷ rest)
    else (48 + m % 10) ∷ (48 + m / 10 % 10) ∷ (48 + m / 100) ∷ rest

-- What "%.3f" makes of `n` thousandths, where it is exact.
abbrev pub thousandths : ℕ → Bytes
thousandths n =
    let m = n % 1000 in
    to_string (n / 1000) ++ (46 ∷ (48 + m / 100) ∷ (48 + m / 10 % 10) ∷ (48 + m % 10) ∷ [])

popped :
    (m : ℕ) (rest : Bytes)
    → m ≢ 0
    → m < 1000
    → pop_point (pop_zeros ((48 + m % 10) ∷ (48 + m / 10 % 10) ∷ (48 + m / 100) ∷ 46 ∷ rest))
      ≡ kept_back m (46 ∷ rest)
popped m rest h b = ground arith

reverse_back : (text rest : Bytes) → reverse_aux (reverse text) rest ≡ text ++ rest
reverse_back text rest =
    reverse_aux-eq (reverse text) rest ∙ ap (λ t. t ++ rest) (reverse-reverse text)

reverse-kept_back :
    (m : ℕ) (text : Bytes) → reverse (kept_back m (46 ∷ reverse text)) ≡ text ++ (46 ∷ kept m)
reverse-kept_back m text = ground (
  arith,
  reverse_back text (46 ∷ (48 + m / 100) ∷ []),
  reverse_back text (46 ∷ (48 + m / 100) ∷ (48 + m / 10 % 10) ∷ []),
  reverse_back text (46 ∷ (48 + m / 100) ∷ (48 + m / 10 % 10) ∷ (48 + m % 10) ∷ []),
)

fraction-kept : (m : ℕ) (rest : Bytes) → m < 1000 → fraction 100 (kept m ++ (32 ∷ rest)) ≡ m
fraction-kept m rest h = ground arith

decimal-append :
    (fuel n : ℕ) (rest more : Bytes) → decimal fuel n rest ++ more ≡ decimal fuel n (rest ++ more)
unfolding decimal
decimal-append zero n rest more = refl
decimal-append (suc fuel) n rest more =
    ground (arith, decimal-append fuel (n / 10) ((48 + n % 10) ∷ rest) more)

-- The digits of a number are read as the number, up to what follows them.
digits-to_string : (n : ℕ) (rest : Bytes) → digits 0 (to_string n ++ rest) ≡ digits n rest
unfolding to_string
digits-to_string n rest =
    ap (digits 0) (decimal-append (suc n) n [] rest) ∙ digits-decimal (suc n) n rest (omega arith)

length-to_string : (n : ℕ) → n < 10 ^ 20 → length (to_string n) ≤ 20
unfolding to_string
length-to_string n h = length-decimal (suc n) n 19 [] (omega arith) (omega arith)

-- Zeros and a point are trimmed off what "%.3f" gives, and the buffer holds it.
trim-thousandths :
    (n : ℕ)
    → n % 1000 ≢ 0
    → n < 10 ^ 20
    → trim (take 31 (thousandths n)) ≡ to_string (n / 1000) ++ (46 ∷ kept (n % 1000))
trim-thousandths n h b =
    let q = to_string (n / 1000) in
    let m = n % 1000 in
    let tail = 46 ∷ (48 + m / 100) ∷ (48 + m / 10 % 10) ∷ (48 + m % 10) ∷ [] in
    ap trim (
      take_all 31 (q ++ tail)
        (omega (arith, length-append q tail, length-to_string (n / 1000) (omega (arith, b)))))
    ∙ ap (λ t. reverse (pop_point (pop_zeros t))) (reverse-append q tail)
    ∙ ap reverse (popped m (reverse q) h (omega arith))
    ∙ reverse-kept_back m q

read_whole : (n : ℕ) (rest : Bytes) → read_period (to_string n ++ (32 ∷ rest)) ≡ n * 1000
unfolding read_period read_rest
read_whole n rest = rw (digits-to_string n (32 ∷ rest))

read_kept :
    (n m : ℕ) (rest : Bytes)
    → m < 1000
    → read_period (to_string n ++ (46 ∷ kept m ++ (32 ∷ rest))) ≡ n * 1000 + m
unfolding read_period read_rest
read_kept n m rest h =
    rw (digits-to_string n (46 ∷ kept m ++ (32 ∷ rest)))
      (ap (λ f. n * 1000 + f) (fraction-kept m rest h))

-- The text of a period tells the period: a reader gets the microseconds back, if "%.3f" printed them
-- exactly.
frame_period-lt :
    (frame_samples sample_rate : ℕ)
    → frame_samples < 2 ^ 32
    → frame_period frame_samples sample_rate < 10 ^ 20
unfolding frame_period
frame_period-lt frame_samples sample_rate h =
    omega (arith, div-le_self (frame_samples * 1_000_000) sample_rate)

read_period-period_text :
    (print_3f : ℕ → Bytes) (us : ℕ)
    → print_3f us ≡ thousandths us
    → us < 10 ^ 20
    → read_period (period_text print_3f us) ≡ us
unfolding period_text
read_period-period_text print_3f us exact b = elim (Bool-cases (us == us / 1000 * 1000)) [
  | inl whole ↦ rw whole (read_whole (us / 1000) (bytes "ms") ∙ ground arith)
  | inr broken ↦
      rw (broken, exact)
        (ap (λ t. read_period (t ++ bytes " ms")) (trim-thousandths us (ground arith) b)
          ∙ ap read_period
              (append_assoc (to_string (us / 1000)) (46 ∷ kept (us % 1000)) (bytes " ms"))
          ∙ read_kept (us / 1000) (us % 1000) (bytes "ms") (omega arith)
          ∙ omega arith)
]

-- The text of a period tells the period: a reader of milliseconds gets the microseconds of
-- `frame_period` back, for a `uint32_t` frame size, if "%.3f" prints them exactly.
pub read_period-frame_period_text :
    (print_3f : ℕ → Bytes) (frame_samples sample_rate : ℕ)
    → frame_samples < 2 ^ 32
    → (print_3f (frame_period frame_samples sample_rate)
        ≡ thousandths (frame_period frame_samples sample_rate))
    → read_period (frame_period_text print_3f frame_samples sample_rate)
      ≡ frame_period frame_samples sample_rate
unfolding frame_period_text
read_period-frame_period_text print_3f frame_samples sample_rate h exact =
    read_period-period_text print_3f (frame_period frame_samples sample_rate) exact
      (frame_period-lt frame_samples sample_rate h)
