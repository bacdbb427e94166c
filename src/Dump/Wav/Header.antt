-- ===== src/Dump/Wav/Header.antt =====
-- The header that examples/webacap-dump.c writes, read back.
use linux_web_audio_capture.Base.{
  ℕ, ◌+◌, ◌-◌, ◌*◌, ◌/◌, ◌%◌, ◌^◌, ◌≤◌, ◌<◌, true, ◌≡◌, refl, ap, ◌∙◌, arith, some, [], ◌∷◌, Bytes,
  length, same_bytes, u32,
}
use linux_web_audio_capture.Format.{SampleFormat, f32le, s16le, s32le, other_format}
use linux_web_audio_capture.Capture.{FormatInfo}
use linux_web_audio_capture.Dump.Wav.{le, Wav, well_formed, read_wav, wav_of, Fits}
use linux_web_audio_capture.Dump.{
  new_file, fwrite, put_u32le, put_u16le, sample_bytes, wav_format_code, put_header, put_sizes,
}

-- The four and the two bytes of a number.
abbrev le32 : ℕ → Bytes → Bytes
le32 v rest = v % 256 ∷ v / 2 ^ 8 % 256 ∷ v / 2 ^ 16 % 256 ∷ v / 2 ^ 24 % 256 ∷ rest

abbrev le16 : ℕ → Bytes → Bytes
le16 v rest = v % 256 ∷ v / 2 ^ 8 % 256 ∷ rest

-- The header over its two sizes.
abbrev pub header : FormatInfo → ℕ → ℕ → Bytes → Bytes
header i riff_size data_size rest =
    let channels = i.channels % 2 ^ 16 in
    82
    ∷ 73
    ∷ 70
    ∷ 70
    ∷ le32 riff_size (
        87
        ∷ 65
        ∷ 86
        ∷ 69
        ∷ 102
        ∷ 109
        ∷ 116
        ∷ 32
        ∷ le32 16 (
            le16 (wav_format_code i.format) (
              le16 channels (
                le32 i.sample_rate (
                  le32 (u32 (u32 (i.sample_rate * channels) * sample_bytes i.format)) (
                    le16 (channels * sample_bytes i.format % 2 ^ 16) (
                      le16 (sample_bytes i.format * 8)
                        (100 ∷ 97 ∷ 116 ∷ 97 ∷ le32 data_size rest))))))))

pub put_header-header :
    (i : FormatInfo) → put_header i new_file ≡ record { content = header i 0 0 []; position = 44 }
unfolding put_header put_u32le put_u16le fwrite
put_header-header i = refl

pub put_sizes-header :
    (i : FormatInfo) (data_bytes : Bytes) (end : ℕ)
    → (put_sizes 44 (record { content = header i 0 0 data_bytes; position = end })).content
      ≡ header i (u32 (36 + u32 (end - 44))) (u32 (end - 44)) data_bytes
unfolding put_sizes put_u32le fwrite
put_sizes-header i data_bytes end = refl

le32_value : (v : ℕ) → v < 2 ^ 32 → le (le32 v []) ≡ v
le32_value v h = omega arith

le16_value : (v : ℕ) → v < 2 ^ 16 → le (le16 v []) ≡ v
le16_value v h = omega arith

-- A header with right sizes is well formed.
header-well_formed :
    (i : FormatInfo) (data_bytes : Bytes)
    → 36 + length data_bytes < 2 ^ 32
    → well_formed (header i (36 + length data_bytes) (length data_bytes) data_bytes) ≡ true
unfolding same_bytes
header-well_formed i data_bytes h =
    ground (arith, le32_value (36 + length data_bytes) h, le32_value (length data_bytes))

code-le : (f : SampleFormat) → (wav_format_code f ≤ 3) × (1 ≤ sample_bytes f) × (sample_bytes f ≤ 4)
code-le f32le = omega arith
code-le s16le = omega arith
code-le s32le = omega arith
code-le (other_format n) = omega arith

le-mul : (a b : ℕ) → 1 ≤ b → a ≤ a * b
le-mul a b h = grind arith

channels_kept : (i : FormatInfo) → Fits i → i.channels % 2 ^ 16 ≡ i.channels
channels_kept i fits = omega (arith, fits.channels)

byte_rate_kept :
    (i : FormatInfo)
    → Fits i
    → u32 (u32 (i.sample_rate * (i.channels % 2 ^ 16)) * sample_bytes i.format)
      ≡ i.sample_rate * i.channels * sample_bytes i.format
byte_rate_kept i fits =
    let product = i.sample_rate * i.channels in
    let first : u32 product ≡ product =
      omega (arith, fits.byte_rate, le-mul product (sample_bytes i.format) (code-le i.format).1) in
    ap (λ c. u32 (u32 (i.sample_rate * c) * sample_bytes i.format)) (channels_kept i fits)
    ∙ ap (λ p. u32 (p * sample_bytes i.format)) first
    ∙ omega (arith, fits.byte_rate)

block_small : (c b : ℕ) → c ≤ 8 → b ≤ 4 → c * b ≤ 32
block_small c b hc hb = grind arith

block_align_kept :
    (i : FormatInfo)
    → Fits i
    → i.channels % 2 ^ 16 * sample_bytes i.format % 2 ^ 16 ≡ i.channels * sample_bytes i.format
block_align_kept i fits =
    ap (λ c. c * sample_bytes i.format % 2 ^ 16) (channels_kept i fits)
    ∙ omega
        (arith, block_small i.channels (sample_bytes i.format) fits.channels (code-le i.format).2)

-- The fields of the header, read back.
header-fields :
    (i : FormatInfo)
    → Fits i
    → (le (le16 (wav_format_code i.format) []) ≡ wav_format_code i.format)
      × (le (le16 (i.channels % 2 ^ 16) []) ≡ i.channels)
      × (le (le32 i.sample_rate []) ≡ i.sample_rate)
      × (le (le32 (u32 (u32 (i.sample_rate * (i.channels % 2 ^ 16)) * sample_bytes i.format)) [])
          ≡ i.sample_rate * i.channels * sample_bytes i.format)
      × (le (le16 (i.channels % 2 ^ 16 * sample_bytes i.format % 2 ^ 16) [])
          ≡ i.channels * sample_bytes i.format)
      × (le (le16 (sample_bytes i.format * 8) []) ≡ 8 * sample_bytes i.format)
header-fields i fits = (
  le16_value _ (omega (arith, code-le i.format)),
  le16_value _ (omega (arith, fits.channels)) ∙ channels_kept i fits,
  le32_value _ fits.sample_rate,
  le32_value _ (omega arith) ∙ byte_rate_kept i fits,
  le16_value _ (omega arith) ∙ block_align_kept i fits,
  le16_value _ (omega (arith, code-le i.format)) ∙ omega arith,
)

wav_ext :
    {a a' b b' c c' d d' e e' f f' : ℕ} (bs : Bytes)
    → a ≡ a'
    → b ≡ b'
    → c ≡ c'
    → d ≡ d'
    → e ≡ e'
    → f ≡ f'
    → ◌≡◌ {A = Wav}
        (record {
          format_code = a;
          channels = b;
          sample_rate = c;
          byte_rate = d;
          block_align = e;
          bits = f;
          samples = bs;
        })
        (record {
          format_code = a';
          channels = b';
          sample_rate = c';
          byte_rate = d';
          block_align = e';
          bits = f';
          samples = bs;
        })
wav_ext bs p q r s t u = cc

pub read_wav-header :
    (i : FormatInfo) (data_bytes : Bytes)
    → Fits i
    → 36 + length data_bytes < 2 ^ 32
    → read_wav (header i (36 + length data_bytes) (length data_bytes) data_bytes)
      ≡ some (wav_of i data_bytes)
unfolding read_wav
read_wav-header i data_bytes fits h =
    let (p, q, r, s, t, u) = header-fields i fits in
    rw (header-well_formed i data_bytes h) (ap some (wav_ext data_bytes p q r s t u))
