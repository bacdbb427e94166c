-- ===== src/Mic/Opening.antt =====
-- `mic_t::open` of src/pulse_mic.cpp: when a stream opens, and what was asked of the server for it.
use linux_web_audio_capture.Base.{
  ℕ, ◌^◌, ◌≤◌, ◌<◌, ◌≡◌, refl, sym, ap, ◌∙◌, ◌≢◌, ◌⊎◌, inl, inr, arith, true, false, none, some, [],
  ◌∷◌, Bytes, length, empty, Bool-cases, ◌==◌,
}
use linux_web_audio_capture.Mic.{
  PaFormat, MicFormat, ChannelMap, Request, NewAnswer, new_stream, new_failed, Mic, opened, request,
  map_sample_format, build_channel_map, channels_supported, bytes_per_sample_of, frame_bytes,
  finish_open, open_mic,
}
use linux_web_audio_capture.Mic.Layout.{channel_map_of_supported}
use linux_web_audio_capture.Mic.Size.{sample_sizes_agree, fragment_size_lem}

pub supported_channels-le : (channels : ℕ) → channels_supported channels ≡ true → channels ≤ 8
unfolding channels_supported
supported_channels-le channels h = ground arith

empty_of_ne_nil : (bs : Bytes) → bs ≢ [] → empty bs ≡ false
empty_of_ne_nil [] h = absurd (h refl)
empty_of_ne_nil (b ∷ bs) h = refl

-- What an open stream means: the server gave it for a request that describes the configured format,
-- in fragments of one frame if the frame is smaller than 2 ^ 32 bytes.
pub record Describes (r : Request) (monitor : Bytes) (f : MicFormat) : Type 0 where
  pub device : r.device ≡ monitor
  pub rate : r.spec_rate ≡ f.sample_rate
  pub channels : r.spec_channels ≡ f.channels
  pub mapped : r.channel_map.channels ≡ f.channels
  pub positions : length r.channel_map.positions ≡ f.channels
  pub encoding : map_sample_format f.format ≡ some (r.spec_format, bytes_per_sample_of f.format)
  pub one_frame : frame_bytes f < 2 ^ 32 → r.fragsize ≡ frame_bytes f

module _ (pa_simple_new : Request → NewAnswer) (monitor : Bytes) (f : MicFormat) where
  -- The guards of `open`, with what the two tables give, as one condition.
  record Passed (pa : PaFormat) (m : ChannelMap) : Type 0 where
    named : empty monitor ≡ false
    supported : channels_supported f.channels ≡ true
    sized : f.frame_samples ≢ 0
    encoding : map_sample_format f.format ≡ some (pa, bytes_per_sample_of f.format)
    layout : build_channel_map f.channels ≡ some m

  open_mic_of_Passed :
      {pa : PaFormat} {m : ChannelMap}
      → Passed pa m
      → open_mic pa_simple_new monitor f
        ≡ finish_open (pa_simple_new (request monitor f pa (bytes_per_sample_of f.format) m))
  unfolding open_mic
  open_mic_of_Passed p = ground (arith, p.named, p.supported, p.sized, p.encoding, p.layout)

  -- Either every guard of `open` passes, or it gives no stream.
  guards :
      ((pa : PaFormat) × (m : ChannelMap) × Passed pa m)
      ⊎ ((mic : Mic) → open_mic pa_simple_new monitor f ≢ opened mic)
  unfolding open_mic
  guards = elim (Bool-cases (empty monitor)) [
    | inl e ↦ inr (λ mic. ground arith)
    | inr named ↦ elim (channel_map_of_supported f.channels) [
      | inl (u, _) ↦ inr (λ mic. ground arith)
      | inr (s, (m, layout, _, _, _)) ↦ elim (Bool-cases (f.frame_samples == 0)) [
        | inl z ↦ inr (λ mic. ground arith)
        | inr nz ↦ elim (sample_sizes_agree f.format) [
          | inl (e, _) ↦ inr (λ mic. ground arith)
          | inr (pa, e, _, _) ↦ inl (
            pa,
            m,
            record {
              named = named;
              supported = s;
              sized = ground arith;
              encoding = e;
              layout = layout;
            },
          )
        ]
      ]
    ]
  ]

  request-Describes :
      {pa : PaFormat} {m : ChannelMap}
      → f.frame_samples < 2 ^ 32
      → Passed pa m
      → Describes (request monitor f pa (bytes_per_sample_of f.format) m) monitor f
  request-Describes {pa} {m} h p = record {
    device = refl;
    rate = refl;
    channels = ground (arith, supported_channels-le f.channels p.supported);
    mapped = ground (arith, channel_map_of_supported f.channels, p.layout, p.supported);
    positions = ground (arith, channel_map_of_supported f.channels, p.layout, p.supported);
    encoding = p.encoding;
    one_frame = (fragment_size_lem f h (supported_channels-le f.channels p.supported)).1.1;
  }

  finish_open_sound :
      (a : NewAnswer) {mic : Mic}
      → finish_open a ≡ opened mic
      → (s : ℕ) × (a ≡ new_stream s) × (mic.stream ≡ some s)
  unfolding finish_open
  finish_open_sound (new_stream s) h = (s, refl, ground arith)
  finish_open_sound (new_failed text) h = cc

  -- A stream that `open` returns was given by the server for a request that describes the format,
  -- on the monitor that was named, where the frame size is a `uint32_t`.
  pub open_mic_sound :
      {mic : Mic}
      → f.frame_samples < 2 ^ 32
      → open_mic pa_simple_new monitor f ≡ opened mic
      → (r : Request) × Describes r monitor f
        × ((s : ℕ) × (pa_simple_new r ≡ new_stream s) × (mic.stream ≡ some s))
  open_mic_sound {mic} h e = elim guards [
    | inl (pa, m, p) ↦ (
      request monitor f pa (bytes_per_sample_of f.format) m,
      request-Describes h p,
      finish_open_sound (pa_simple_new (request monitor f pa (bytes_per_sample_of f.format) m))
          (sym (open_mic_of_Passed p) ∙ e),
    )
    | inr refused ↦ absurd (refused mic e)
  ]

  passes :
      monitor ≢ []
      → channels_supported f.channels ≡ true
      → f.frame_samples ≢ 0
      → map_sample_format f.format ≢ none
      → (pa : PaFormat) × (m : ChannelMap) × Passed pa m
  passes named supported sized known = elim (channel_map_of_supported f.channels) [
    | inl (u, _) ↦ absurd (ground arith)
    | inr (s, (m, layout, _, _, _)) ↦ elim (sample_sizes_agree f.format) [
      | inl (e, _) ↦ absurd (known e)
      | inr (pa, e, _, _) ↦ (
        pa,
        m,
        record {
          named = empty_of_ne_nil monitor named;
          supported = supported;
          sized = sized;
          encoding = e;
          layout = layout;
        },
      )
    ]
  ]

  -- `open` succeeds on a named monitor, with a supported channel count, a known format and a frame
  -- that is not empty, if the server grants every stream.
  pub open_mic_complete :
      monitor ≢ []
      → channels_supported f.channels ≡ true
      → f.frame_samples ≢ 0
      → map_sample_format f.format ≢ none
      → ((r : Request) → (s : ℕ) × (pa_simple_new r ≡ new_stream s))
      → (mic : Mic) × (open_mic pa_simple_new monitor f ≡ opened mic)
  unfolding finish_open
  open_mic_complete named supported sized known granted =
      let (pa, m, p) = passes named supported sized known in
      let (s, e) = granted (request monitor f pa (bytes_per_sample_of f.format) m) in
      (record { stream = some s }, open_mic_of_Passed p ∙ ap finish_open e)
