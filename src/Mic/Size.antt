-- ===== src/Mic/Size.antt =====
-- The sizes in src/pulse_mic.cpp: bytes of a frame, and the fragment size asked of the server.
use linux_web_audio_capture.Base.{
  ℕ, ◌*◌, ◌^◌, ◌≤◌, ◌<◌, ◌≡◌, refl, ◌↔◌, ◌⊎◌, inl, inr, arith, none, some, u32, u64,
}
use linux_web_audio_capture.Format.{SampleFormat, f32le, s16le, s32le, other_format}
use linux_web_audio_capture.Mic.{
  PaFormat, pa_float32le, pa_s16le, pa_s32le, MicFormat, map_sample_format, bytes_per_sample_of,
  frame_bytes, fragment_size,
}

-- The two tables of sample sizes agree: `map_sample_format` accepts a format exactly if
-- `bytes_per_sample_of` gives it a size, from 1 to 4 bytes, and then gives the same size.
pub sample_sizes_agree :
    (f : SampleFormat)
    → ((map_sample_format f ≡ none) × (bytes_per_sample_of f ≡ 0))
      ⊎ ((p : PaFormat) × (map_sample_format f ≡ some (p, bytes_per_sample_of f))
          × (0 < bytes_per_sample_of f)
          × (bytes_per_sample_of f ≤ 4))
unfolding map_sample_format bytes_per_sample_of
sample_sizes_agree f32le = inr (pa_float32le, refl, omega arith, omega arith)
sample_sizes_agree s16le = inr (pa_s16le, refl, omega arith, omega arith)
sample_sizes_agree s32le = inr (pa_s32le, refl, omega arith, omega arith)
sample_sizes_agree (other_format n) = inl (refl, refl)

-- No product of two factors in range wraps in a `size_t`.
pub samples-le :
    (samples channels : ℕ) → samples < 2 ^ 32 → channels ≤ 8 → samples * channels ≤ 2 ^ 35
samples-le samples channels s c = grind arith

-- A product `p` of samples and channels, taken in `uint32_t` and in `size_t`.
abbrev Agrees : ℕ → ℕ → Type 0
Agrees p b =
    (u32 (u32 p * b) ≡ u32 (u64 (u64 p * b)))
    × ((u32 (u32 p * b) ≡ u64 (u64 p * b)) ↔ (u64 (u64 p * b) < 2 ^ 32))

size-Agrees : (p : ℕ) → p ≤ 2 ^ 35 → (f : SampleFormat) → Agrees p (bytes_per_sample_of f)
unfolding bytes_per_sample_of
size-Agrees p h f32le = omega arith
size-Agrees p h s16le = omega arith
size-Agrees p h s32le = omega arith
size-Agrees p h (other_format n) = omega arith

-- For a `uint32_t` frame size and eight channels at most, `fragsize` is the size of a frame modulo
-- 2 ^ 32, and so is the size of a frame exactly where that is less than 2 ^ 32 bytes.
pub fragment_size_lem :
    (f : MicFormat)
    → f.frame_samples < 2 ^ 32
    → f.channels ≤ 8
    → let fragsize = fragment_size f (bytes_per_sample_of f.format) in
      (fragsize ≡ u32 (frame_bytes f)) × ((fragsize ≡ frame_bytes f) ↔ (frame_bytes f < 2 ^ 32))
unfolding fragment_size frame_bytes
fragment_size_lem f s c =
    size-Agrees (f.frame_samples * f.channels) (samples-le f.frame_samples f.channels s c) f.format
