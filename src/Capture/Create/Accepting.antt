-- ===== src/Capture/Create/Accepting.antt =====
-- `weba_capture_create` of src/capture.cpp: what it accepts, and what it makes of it.
use linux_web_audio_capture.Base.{
  ℕ, ◌*◌, ◌^◌, ◌≤◌, ◌<◌, max, Bool, true, false, ◌≡◌, refl, subst, ◌≢◌, ◌↔◌, ◌⊎◌, inl, inr, sym, ap,
  ◌∙◌, arith, Option, none, some, ltb, ltb→lt, ap₂, length, u64, replicate, Bool-cases,
}
use linux_web_audio_capture.Format.{SampleFormat, f32le, s16le, s32le, other_format, err_nomem}
use linux_web_audio_capture.FrameQueue.{
  FrameQueue, unset, Init, sized, returned, threw_length_error, max_size,
}
use linux_web_audio_capture.FrameQueue
use linux_web_audio_capture.FrameQueue.Inv.{IsValid, init-IsValid, init-shape}
use linux_web_audio_capture.Mic.{MicFormat, channels_supported, bytes_per_sample_of}
use linux_web_audio_capture.Mic
use linux_web_audio_capture.Capture.{Capture, frame_bytes}
use linux_web_audio_capture.Capture.Create.{
  Config, fresh, configure, is_known, created, not_created, threw, with_queue, validated, create,
}

-- The bytes of a frame that the queue is sized for are those that `mic_t::frame_bytes` gives for
-- the format of the stream.
pub frame_bytes-agree :
    (c : Capture)
    → frame_bytes c
      ≡ Mic.frame_bytes (record {
        sample_rate = c.sample_rate;
        channels = c.channels;
        format = c.format;
        frame_samples = c.frame_samples;
      })
unfolding frame_bytes Mic.frame_bytes bytes_per_sample_of
frame_bytes-agree c = go c.format
  where
    go :
        (f : SampleFormat)
        → frame_bytes (record c { format = f })
          ≡ Mic.frame_bytes (record {
            sample_rate = c.sample_rate;
            channels = c.channels;
            format = f;
            frame_samples = c.frame_samples;
          })
    go f32le = refl
    go s16le = refl
    go s32le = refl
    go (other_format n) = refl

-- What a handle is made of.
pub record Sound (c : Capture) : Type 0 where
  pub rate : c.sample_rate ≢ 0
  pub samples : c.frame_samples ≢ 0
  pub layout : channels_supported c.channels ≡ true
  pub known : is_known c.format ≡ true
  pub queue : IsValid c.queue
  pub slots : c.queue.slot_bytes ≡ frame_bytes c
  pub quiet : (c.queue.count ≡ 0) × (c.queue.closed ≡ false) × (c.pending_flags ≡ 0)
  pub idle : (c.running ≡ false) × (c.thread ≡ false)

-- The size of the queue's storage as a number, not a `size_t`.
abbrev pub storage_size : Capture → ℕ
storage_size c = max c.queue_frames 1 * frame_bytes c

with_queue-created :
    (c : Capture) (i : Init) {c' : Capture}
    → with_queue c i ≡ created c'
    → (q : FrameQueue) × (i ≡ returned true q) × (c' ≡ record c { queue = q })
unfolding with_queue
with_queue-created c (returned true q) h = (q, refl, ground arith)
with_queue-created c (returned false q) h = cc
with_queue-created c threw_length_error h = cc

-- What the guards of `weba_capture_create` let through.
validated-created :
    (room : ℕ → Bool) (c : Capture) {c' : Capture}
    → validated room c ≡ created c'
    → (c.sample_rate ≢ 0)
      × (c.frame_samples ≢ 0)
      × (channels_supported c.channels ≡ true)
      × (is_known c.format ≡ true)
      × (with_queue c (FrameQueue.init room c.queue (frame_bytes c) c.queue_frames) ≡ created c')
unfolding validated
validated-created room c h = ground arith

create-created :
    (room : ℕ → Bool) (has_handle has_out : Bool) (cfg : Option Config) {c : Capture}
    → create room has_handle has_out cfg ≡ created c
    → validated room (configure cfg fresh) ≡ created c
unfolding create
create-created room has_handle has_out cfg h = ground arith

-- A handle holds the configuration, and a queue.
pub create-configured :
    (room : ℕ → Bool) (has_handle has_out : Bool) (cfg : Option Config) {c : Capture}
    → create room has_handle has_out cfg ≡ created c
    → (q : FrameQueue) × (c ≡ record (configure cfg fresh) { queue = q })
create-configured room has_handle has_out cfg h =
    let c0 = configure cfg fresh in
    let (_, _, _, _, made) =
      validated-created room c0 (create-created room has_handle has_out cfg h) in
    let (q, _, eq) =
      with_queue-created c0 (FrameQueue.init room c0.queue (frame_bytes c0) c0.queue_frames) made in
    (q, eq)

-- The queue of a new handle.
pub create-shape :
    (room : ℕ → Bool) (has_handle has_out : Bool) (cfg : Option Config) {c : Capture}
    → create room has_handle has_out cfg ≡ created c
    → (c.queue.count ≡ 0)
      × (c.queue.dropped ≡ 0)
      × (c.queue.capacity ≡ max (configure cfg fresh).queue_frames 1)
create-shape room has_handle has_out cfg h =
    let c0 = configure cfg fresh in
    let (_, _, _, _, made) =
      validated-created room c0 (create-created room has_handle has_out cfg h) in
    let (q, init, eq) =
      with_queue-created c0 (FrameQueue.init room c0.queue (frame_bytes c0) c0.queue_frames) made in
    let shape = init-shape room c0.queue (frame_bytes c0) c0.queue_frames init in
    subst
      (λ (c : Capture).
        (c.queue.count ≡ 0) × (c.queue.dropped ≡ 0) × (c.queue.capacity ≡ max c0.queue_frames 1))
      (sym eq) (shape.2, shape.4, shape.1)

configure-fresh :
    (cfg : Option Config)
    → let c = configure cfg fresh in
      (c.pending_flags ≡ 0) × (c.running ≡ false) × (c.thread ≡ false)
unfolding configure fresh
configure-fresh none = (refl, refl, refl)
configure-fresh (some g) = (refl, refl, refl)

frame_bytes-queue :
    (c : Capture) (q : FrameQueue) → frame_bytes (record c { queue = q }) ≡ frame_bytes c
unfolding frame_bytes
frame_bytes-queue c q = refl

queued-Sound :
    (room : ℕ → Bool) (c : Capture) (q : FrameQueue)
    → storage_size c < 2 ^ 64
    → FrameQueue.init room c.queue (frame_bytes c) c.queue_frames ≡ returned true q
    → c.sample_rate ≢ 0
    → c.frame_samples ≢ 0
    → channels_supported c.channels ≡ true
    → is_known c.format ≡ true
    → (c.pending_flags ≡ 0) × (c.running ≡ false) × (c.thread ≡ false)
    → Sound (record c { queue = q })
queued-Sound room c q h e rate samples layout known start =
    let s = init-shape room c.queue (frame_bytes c) c.queue_frames e in
    record {
      rate = rate;
      samples = samples;
      layout = layout;
      known = known;
      queue = init-IsValid room c.queue (frame_bytes c) c.queue_frames h e;
      slots = s.0 ∙ sym (frame_bytes-queue c q);
      quiet = (s.2, s.3, start.0);
      idle = (start.1, start.2);
    }

-- A handle that `weba_capture_create` gives has a rate, a frame size, a supported channel count and
-- a known format, no thread and no pending flags, and an empty, open, valid queue with slots of one
-- frame, if the size of the queue's storage fits a `size_t`.
pub create-Sound :
    (room : ℕ → Bool) (has_handle has_out : Bool) (cfg : Option Config) {c : Capture}
    → storage_size (configure cfg fresh) < 2 ^ 64
    → create room has_handle has_out cfg ≡ created c
    → Sound c
create-Sound room has_handle has_out cfg {c} h e =
    let c0 = configure cfg fresh in
    let (rate, samples, layout, known, made) =
      validated-created room c0 (create-created room has_handle has_out cfg e) in
    let (q, init, eq) =
      with_queue-created c0 (FrameQueue.init room c0.queue (frame_bytes c0) c0.queue_frames) made in
    subst Sound (sym eq)
      (queued-Sound room c0 q h init rate samples layout known (configure-fresh cfg))

-- A configuration that the guards let through.
pub record Acceptable (c : Capture) : Type 0 where
  pub rate : c.sample_rate ≢ 0
  pub samples : c.frame_samples ≢ 0
  pub layout : channels_supported c.channels ≡ true
  pub known : is_known c.format ≡ true
  pub nonempty : frame_bytes c ≢ 0

supported-pos : (channels : ℕ) → channels_supported channels ≡ true → channels ≢ 0
unfolding channels_supported
supported-pos channels h = ground arith

validated-of-Acceptable :
    (room : ℕ → Bool) (c : Capture)
    → Acceptable c
    → validated room c ≡ with_queue c (FrameQueue.init room c.queue (frame_bytes c) c.queue_frames)
unfolding validated
validated-of-Acceptable room c a = ground (arith, a.layout, supported-pos c.channels a.layout)

create-of-Acceptable :
    (room : ℕ → Bool) (cfg : Option Config)
    → let c = configure cfg fresh in
      Acceptable c
      → create room true true cfg
        ≡ with_queue c (FrameQueue.init room c.queue (frame_bytes c) c.queue_frames)
unfolding create
create-of-Acceptable room cfg a = validated-of-Acceptable room (configure cfg fresh) a

init-ways :
    (room : ℕ → Bool) (q : FrameQueue) (slot_bytes capacity : ℕ)
    → slot_bytes ≢ 0
    → let n = u64 (max capacity 1 * slot_bytes) in
      ((max_size < n) × (FrameQueue.init room q slot_bytes capacity ≡ threw_length_error))
      ⊎ ((n ≤ max_size)
          × (room n ≡ true)
          × ((r : FrameQueue) × (FrameQueue.init room q slot_bytes capacity ≡ returned true r)))
      ⊎ ((n ≤ max_size)
          × (room n ≡ false)
          × (FrameQueue.init room q slot_bytes capacity ≡ returned false q))
unfolding FrameQueue.init
init-ways room q slot_bytes capacity h =
    let n = u64 (max capacity 1 * slot_bytes) in
    elim (Bool-cases (ltb max_size n)) [
      | inl big ↦ inl (ltb→lt max_size n big, ground arith)
      | inr fits ↦ elim (Bool-cases (room n)) [
        | inl yes_room ↦ inr (
            inl (ground arith, yes_room, (sized (replicate n 0) slot_bytes capacity, ground arith)))
        | inr no_room ↦ inr (inr (ground arith, no_room, ground arith))
      ]
    ]

short_storage :
    (q : FrameQueue) (size : ℕ)
    → length q.storage ≡ u64 size
    → q.capacity * q.slot_bytes ≡ size
    → (length q.storage < q.capacity * q.slot_bytes) ↔ (2 ^ 64 ≤ size)
short_storage q size e e' = omega arith

-- What comes of an acceptable configuration, by the size of the queue's storage as the `size_t`
-- that the code computes. Past the greatest size of a vector, `std::length_error` leaves the C
-- function. Otherwise the handle is created if the allocator has room, and its storage has that
-- size, which is less than the slots need exactly where the product has wrapped. Without room the
-- status is `WEBA_ERR_NOMEM`.
pub create_ways :
    (room : ℕ → Bool) (cfg : Option Config)
    → Acceptable (configure cfg fresh)
    → let c = configure cfg fresh in
      let n = u64 (storage_size c) in
      ((max_size < n) × (create room true true cfg ≡ threw))
      ⊎ ((n ≤ max_size)
          × (room n ≡ true)
          × ((d : Capture) × (create room true true cfg ≡ created d)
              × (length d.queue.storage ≡ n)
              × ((length d.queue.storage < d.queue.capacity * d.queue.slot_bytes)
                  ↔ (2 ^ 64 ≤ storage_size c))))
      ⊎ ((n ≤ max_size) × (room n ≡ false) × (create room true true cfg ≡ not_created err_nomem))
unfolding with_queue
create_ways room cfg a =
    let c = configure cfg fresh in
    let made = create-of-Acceptable room cfg a in
    elim (init-ways room c.queue (frame_bytes c) c.queue_frames a.nonempty) [
      | inl (big, e) ↦ inl (big, made ∙ ap (with_queue c) e)
      | inr (inl (fits, r, (q, e))) ↦ inr (
          inl (
            fits,
            r,
            (
              record c { queue = q },
              made ∙ ap (with_queue c) e,
              (init-shape room c.queue (frame_bytes c) c.queue_frames e).5,
              short_storage q (storage_size c)
                  (init-shape room c.queue (frame_bytes c) c.queue_frames e).5
                  (ap₂ ◌*◌ (init-shape room c.queue (frame_bytes c) c.queue_frames e).1
                    (init-shape room c.queue (frame_bytes c) c.queue_frames e).0),
            ),
          ))
      | inr (inr (fits, r, e)) ↦ inr (inr (fits, r, made ∙ ap (with_queue c) e))
    ]
