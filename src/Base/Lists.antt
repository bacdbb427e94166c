-- ===== src/Base/Lists.antt =====
-- Byte buffers: lists measured and indexed by native numbers, with the reads and writes of a
-- block at an offset that `memcpy` and `memset` make.
use Prim.Native.Nat.{ℕ, zero, suc, ◌+◌, ◌-◌, ◌≤◌, min}
use mathlib.Core.Path.{◌≡◌, refl, ap}
use mathlib.Core.List.{List, [], ◌∷◌, ◌++◌}
use native.Mathlib.Omega.{arith}

module _ {ℓ} {A : Type ℓ} where
  abbrev pub length : List A → ℕ
  length [] = 0
  length (x ∷ xs) = suc (length xs)

  abbrev pub take : ℕ → List A → List A
  take zero xs = []
  take (suc n) [] = []
  take (suc n) (x ∷ xs) = x ∷ take n xs

  abbrev pub drop : ℕ → List A → List A
  drop zero xs = xs
  drop (suc n) [] = []
  drop (suc n) (x ∷ xs) = drop n xs

  abbrev pub replicate : ℕ → A → List A
  replicate zero a = []
  replicate (suc n) a = a ∷ replicate n a

  -- The block of `n` entries at offset `off`.
  abbrev pub slice : ℕ → ℕ → List A → List A
  slice off n xs = take n (drop off xs)

  -- A block written over the entries from offset `i` on. What would fall behind the end is lost.
  abbrev pub overwrite : List A → ℕ → List A → List A
  overwrite [] i ys = []
  overwrite (x ∷ xs) (suc i) ys = x ∷ overwrite xs i ys
  overwrite (x ∷ xs) zero [] = x ∷ xs
  overwrite (x ∷ xs) zero (y ∷ ys) = y ∷ overwrite xs zero ys

module _ {ℓ} {A : Type ℓ} where
  pub length-append : (xs ys : List A) → length (xs ++ ys) ≡ length xs + length ys
  length-append [] ys = omega arith
  length-append (x ∷ xs) ys = omega (arith, length-append xs ys)

  pub length-take : (n : ℕ) (xs : List A) → length (take n xs) ≡ min n (length xs)
  length-take zero xs = omega arith
  length-take (suc n) [] = omega arith
  length-take (suc n) (x ∷ xs) = omega (arith, length-take n xs)

  pub length-drop : (n : ℕ) (xs : List A) → length (drop n xs) ≡ length xs - n
  length-drop zero xs = omega arith
  length-drop (suc n) [] = omega arith
  length-drop (suc n) (x ∷ xs) = omega (arith, length-drop n xs)

  pub length-replicate : (n : ℕ) (a : A) → length (replicate n a) ≡ n
  length-replicate zero a = refl
  length-replicate (suc n) a = ap suc (length-replicate n a)

  pub take_all : (n : ℕ) (xs : List A) → length xs ≤ n → take n xs ≡ xs
  take_all zero [] h = refl
  take_all zero (x ∷ xs) h = absurd (omega arith)
  take_all (suc n) [] h = refl
  take_all (suc n) (x ∷ xs) h = ap (◌∷◌ x) (take_all n xs (omega arith))

  pub length-overwrite :
      (xs : List A) (i : ℕ) (ys : List A) → length (overwrite xs i ys) ≡ length xs
  length-overwrite [] i ys = refl
  length-overwrite (x ∷ xs) (suc i) ys = ap suc (length-overwrite xs i ys)
  length-overwrite (x ∷ xs) zero [] = refl
  length-overwrite (x ∷ xs) zero (y ∷ ys) = ap suc (length-overwrite xs zero ys)

  -- What was written is what a read of the same block gives.
  pub slice-overwrite_self :
      (xs : List A) (off : ℕ) (ys : List A)
      → off + length ys ≤ length xs
      → slice off (length ys) (overwrite xs off ys) ≡ ys
  slice-overwrite_self [] zero [] h = refl
  slice-overwrite_self [] zero (y ∷ ys) h = absurd (omega arith)
  slice-overwrite_self [] (suc off) ys h = absurd (omega arith)
  slice-overwrite_self (x ∷ xs) (suc off) ys h = slice-overwrite_self xs off ys (omega arith)
  slice-overwrite_self (x ∷ xs) zero [] h = refl
  slice-overwrite_self (x ∷ xs) zero (y ∷ ys) h =
      ap (◌∷◌ y) (slice-overwrite_self xs zero ys (omega arith))

  -- A read of a block that ends before the written one is not changed by the write.
  pub slice-overwrite_before :
      (xs : List A) (a n off : ℕ) (ys : List A)
      → a + n ≤ off
      → slice a n (overwrite xs off ys) ≡ slice a n xs
  slice-overwrite_before xs a zero off ys h = refl
  slice-overwrite_before [] a (suc n) off ys h = refl
  slice-overwrite_before (x ∷ xs) zero (suc n) zero ys h = absurd (omega arith)
  slice-overwrite_before (x ∷ xs) (suc a) (suc n) zero ys h = absurd (omega arith)
  slice-overwrite_before (x ∷ xs) zero (suc n) (suc off) ys h =
      ap (◌∷◌ x) (slice-overwrite_before xs zero n off ys (omega arith))
  slice-overwrite_before (x ∷ xs) (suc a) (suc n) (suc off) ys h =
      slice-overwrite_before xs a (suc n) off ys (omega arith)

  drop-overwrite :
      (xs : List A) (a off : ℕ) (ys : List A)
      → off + length ys ≤ a
      → drop a (overwrite xs off ys) ≡ drop a xs
  drop-overwrite [] a off ys h = refl
  drop-overwrite (x ∷ xs) zero (suc off) ys h = absurd (omega arith)
  drop-overwrite (x ∷ xs) (suc a) (suc off) ys h = drop-overwrite xs a off ys (omega arith)
  drop-overwrite (x ∷ xs) a zero [] h = refl
  drop-overwrite (x ∷ xs) zero zero (y ∷ ys) h = absurd (omega arith)
  drop-overwrite (x ∷ xs) (suc a) zero (y ∷ ys) h = drop-overwrite xs a zero ys (omega arith)

  -- Nor is a read of a block that begins behind it.
  pub slice-overwrite_after :
      (xs : List A) (a n off : ℕ) (ys : List A)
      → off + length ys ≤ a
      → slice a n (overwrite xs off ys) ≡ slice a n xs
  slice-overwrite_after xs a n off ys h = ap (take n) (drop-overwrite xs a off ys h)

  -- A block written at the start of a buffer that can hold it.
  pub overwrite-start :
      (xs ys : List A) → length ys ≤ length xs → overwrite xs zero ys ≡ ys ++ drop (length ys) xs
  overwrite-start [] [] h = refl
  overwrite-start [] (y ∷ ys) h = absurd (omega arith)
  overwrite-start (x ∷ xs) [] h = refl
  overwrite-start (x ∷ xs) (y ∷ ys) h = ap (◌∷◌ y) (overwrite-start xs ys (omega arith))
