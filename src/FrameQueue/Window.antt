-- ===== src/FrameQueue/Window.antt =====
-- The frames that lie in the flat storage of src/frame_queue.h, slot by slot round the ring.
use native.Mathlib.Decide.{dec_lt}
use native.Mathlib.Nat.{add-zero, mod-eq-sub-mod, mod-add-mod, mod-eq_of_lt}
use linux_web_audio_capture.Base.{
  ℕ, zero, suc, ◌+◌, ◌-◌, ◌*◌, ◌%◌, ◌≤◌, ◌<◌, ◌≡◌, refl, ap, ap₂, ◌∙◌, ◌≢◌, ◌⊎◌, inl, inr, arith,
  List, [], ◌∷◌, ◌++◌, Bytes, length, slice, overwrite, slice-overwrite_self,
  slice-overwrite_before, slice-overwrite_after,
}
use linux_web_audio_capture.FrameQueue.Inv.{slot-end-le}

-- Slot `i`, with slots of `sb` bytes.
abbrev pub slot : Bytes → ℕ → ℕ → Bytes
slot storage sb i = slice (i * sb) sb storage

-- The frames in the `n` slots from `h` on, going round at `cap`.
abbrev pub window : Bytes → ℕ → ℕ → ℕ → ℕ → List Bytes
window storage sb cap h zero = []
window storage sb cap h (suc n) = slot storage sb h ∷ window storage sb cap ((h + 1) % cap) n

module _ (storage : Bytes) (sb cap : ℕ) where
  pub length-window : (first count : ℕ) → length (window storage sb cap first count) ≡ count
  length-window first zero = refl
  length-window first (suc count) = omega (arith, length-window ((first + 1) % cap) count)

  pub window_of_ne_zero :
      (first count : ℕ)
      → count ≢ 0
      → window storage sb cap first count
        ≡ slot storage sb first ∷ window storage sb cap ((first + 1) % cap) (count - 1)
  window_of_ne_zero first zero filled = absurd (filled refl)
  window_of_ne_zero first (suc count) filled =
      ap (λ left. slot storage sb first ∷ window storage sb cap ((first + 1) % cap) left)
        (omega arith)

  -- A frame written to one slot is what that slot holds, and the other slots hold what they held.
  slot-overwrite_self :
      (i : ℕ) (frame : Bytes)
      → length frame ≡ sb
      → i < cap
      → cap * sb ≤ length storage
      → slot (overwrite storage (i * sb) frame) sb i ≡ frame
  slot-overwrite_self i frame e h m = rw (← e) (
      slice-overwrite_self storage (i * length frame) frame
        (rw e (omega (arith, slot-end-le i cap sb h))))

  slot-overwrite_ne :
      (i j : ℕ) (frame : Bytes)
      → length frame ≡ sb
      → i ≢ j
      → slot (overwrite storage (i * sb) frame) sb j ≡ slot storage sb j
  slot-overwrite_ne i j frame e h = elim (dec_lt i j) [
    | yes lt ↦
        slice-overwrite_after storage (j * sb) sb (i * sb) frame
          (omega (arith, slot-end-le i j sb lt))
    | no ge ↦
        slice-overwrite_before storage (j * sb) sb (i * sb) frame (slot-end-le j i sb (omega arith))
  ]

-- An index less than two rounds from the start is reduced by one round at most.
within_two_rounds :
    (size index : ℕ)
    → index < size + size
    → ((index < size) × (index % size ≡ index)) ⊎ ((size ≤ index) × (index % size ≡ index - size))
within_two_rounds size index b = elim (dec_lt index size) [
  | yes below ↦ inl (below, mod-eq_of_lt below)
  | no past ↦
      let back : index - size < size = omega arith in
      inr (omega arith, mod-eq-sub-mod (omega arith) ∙ mod-eq_of_lt back)
]

-- Fewer than `cap` steps round the ring do not come back to where they began.
steps_away : (cap first n : ℕ) → first < cap → suc n < cap → (first + suc n) % cap ≢ first
steps_away cap first n inside few =
    omega (arith, within_two_rounds cap (first + suc n) (omega arith))

one_further : (cap h n : ℕ) → (h + suc n) % cap ≡ ((h + 1) % cap + n) % cap
one_further cap h n = rw mod-add-mod (ap (λ k. k % cap) (omega arith))

-- A frame written to the slot behind the last one is the new last frame.
pub window-overwrite :
    (storage : Bytes) (sb cap : ℕ) (frame : Bytes) (n h i : ℕ)
    → length frame ≡ sb
    → cap * sb ≤ length storage
    → h < cap
    → n < cap
    → i ≡ (h + n) % cap
    → window (overwrite storage (i * sb) frame) sb cap h (suc n)
      ≡ window storage sb cap h n ++ (frame ∷ [])
window-overwrite storage sb cap frame zero h i e m hh hn at =
    ap (λ f. f ∷ [])
      (rw (at ∙ ap (λ k. k % cap) (add-zero h) ∙ mod-eq_of_lt hh)
        (slot-overwrite_self storage sb cap h frame e hh m))
window-overwrite storage sb cap frame (suc n) h i e m hh hn at =
    ap₂ ◌∷◌ (slot-overwrite_ne storage sb cap i h frame e (rw at (steps_away cap h n hh hn))) (
      window-overwrite storage sb cap frame n ((h + 1) % cap) i e m (omega arith) (omega arith)
        (at ∙ one_further cap h n))
