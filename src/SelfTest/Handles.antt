-- ===== src/SelfTest/Handles.antt =====
-- The handles that tests/webaudio_selftest.cpp makes and starts.
use linux_web_audio_capture.Base.{
  ℕ, max, ◌≤◌, Bool, true, false, ◌≡◌, refl, ◌∙◌, ap, subst, arith, inl, inr, Option, none, some,
  List, [], Bytes, empty,
}
use linux_web_audio_capture.Format.{ok, err_pulse, err_format, Target}
use linux_web_audio_capture.Control
use linux_web_audio_capture.Control.{
  Control, Connect, ContextState, Server, returned, unconnected, resolve_target,
}
use linux_web_audio_capture.Control.Resolving.{resolve_target_lem}
use linux_web_audio_capture.FrameQueue.{FrameQueue, max_size}
use linux_web_audio_capture.Mic
use linux_web_audio_capture.Capture.{Capture, frame_bytes}
use linux_web_audio_capture.Capture.Create.{
  Config, config_defaults, fresh, configure, create, created, not_created,
}
use linux_web_audio_capture.Capture.Create.Accepting.{
  Acceptable, storage_size, create-Sound, create_ways, create-configured, create-shape,
}
use linux_web_audio_capture.Api.{started, with_control, with_target, start}
use linux_web_audio_capture.Api.Starting.{start_of_idle, made}

-- The configuration of a handle with `n` channels that is to record `s`.
abbrev pub config_with : ℕ → Option Bytes → Config
config_with n s = record config_defaults { channels = n; sink = s }

abbrev pub handle_with : ℕ → Option Bytes → FrameQueue → Capture
handle_with n s q = record (configure (some (config_with n s)) fresh) { queue = q }

-- The handle is made.
pub record Handle (room : ℕ → Bool) (n : ℕ) (s : Option Bytes) : Type 0 where
  pub queue : FrameQueue
  pub created_so : create room true true (some (config_with n s)) ≡ created (handle_with n s queue)
  pub opened : queue.closed ≡ false
  pub shape :
      (queue.count ≡ 0)
      × (queue.dropped ≡ 0)
      × (queue.capacity ≡ max (configure (some (config_with n s)) fresh).queue_frames 1)

abbrev Fits : ℕ → Option Bytes → Type 0
Fits n s =
    Acceptable (configure (some (config_with n s)) fresh)
    × (storage_size (configure (some (config_with n s)) fresh) ≤ max_size)

-- With room, an acceptable configuration makes a handle.
handle_of :
    (room : ℕ → Bool) (n : ℕ) (s : Option Bytes)
    → ((k : ℕ) → room k ≡ true)
    → Fits n s
    → Handle room n s
handle_of room n s rooms (a, fits) = elim (create_ways room (some (config_with n s)) a) [
  | inl (big, _) ↦ absurd (omega (arith, big, fits))
  | inr (inl (_, _, (d, e, _, _))) ↦
      let (q, same) = create-configured room true true (some (config_with n s)) e in
      let sound = create-Sound room true true (some (config_with n s)) (omega (arith, fits)) e in
      record {
        queue = q;
        created_so = e ∙ ap created same;
        opened = subst (λ c. c.queue.closed ≡ false) same sound.quiet.1;
        shape =
            subst
              (λ (c : Capture).
                (c.queue.count ≡ 0)
                × (c.queue.dropped ≡ 0)
                × (c.queue.capacity
                    ≡ max (configure (some (config_with n s)) fresh).queue_frames 1))
              same (create-shape room true true (some (config_with n s)) e);
      }
  | inr (inr (_, none_left, _)) ↦ cc (none_left, rooms _)
]

mono-Fits : (s : Option Bytes) → Fits 1 s
unfolding configure fresh config_defaults frame_bytes Mic.channels_supported
mono-Fits s = (
  record {
    rate = omega arith;
    samples = omega arith;
    layout = refl;
    known = refl;
    nonempty = omega arith;
  },
  omega arith,
)

stereo-Fits : (s : Option Bytes) → Fits 2 s
unfolding configure fresh config_defaults frame_bytes Mic.channels_supported
stereo-Fits s = (
  record {
    rate = omega arith;
    samples = omega arith;
    layout = refl;
    known = refl;
    nonempty = omega arith;
  },
  omega arith,
)

surround51-Fits : (s : Option Bytes) → Fits 6 s
unfolding configure fresh config_defaults frame_bytes Mic.channels_supported
surround51-Fits s = (
  record {
    rate = omega arith;
    samples = omega arith;
    layout = refl;
    known = refl;
    nonempty = omega arith;
  },
  omega arith,
)

surround71-Fits : (s : Option Bytes) → Fits 8 s
unfolding configure fresh config_defaults frame_bytes Mic.channels_supported
surround71-Fits s = (
  record {
    rate = omega arith;
    samples = omega arith;
    layout = refl;
    known = refl;
    nonempty = omega arith;
  },
  omega arith,
)

-- The counts that the test tries.
pub mono_handle : (room : ℕ → Bool) → ((k : ℕ) → room k ≡ true) → Handle room 1 none
mono_handle room rooms = handle_of room 1 none rooms (mono-Fits none)

pub stereo_handle :
    (room : ℕ → Bool) (s : Option Bytes) → ((k : ℕ) → room k ≡ true) → Handle room 2 s
stereo_handle room s rooms = handle_of room 2 s rooms (stereo-Fits s)

pub surround51_handle : (room : ℕ → Bool) → ((k : ℕ) → room k ≡ true) → Handle room 6 none
surround51_handle room rooms = handle_of room 6 none rooms (surround51-Fits none)

pub surround71_handle : (room : ℕ → Bool) → ((k : ℕ) → room k ≡ true) → Handle room 8 none
surround71_handle room rooms = handle_of room 8 none rooms (surround71-Fits none)

pub three_refused :
    (room : ℕ → Bool) → create room true true (some (config_with 3 none)) ≡ not_created err_format
unfolding create configure fresh config_defaults Mic.channels_supported
three_refused room = refl

-- A start with a connection and a target, and one without a target.
pub start_with_target :
    (e : Connect) (s : Server) (ds : List ContextState) (q : FrameQueue) (k : Control) (t : Target)
    → Control.init e unconnected ≡ returned ok k
    → resolve_target s [] k ≡ (k, some t)
    → let c = handle_with 2 none q in start e s ds c ≡ started ok (made c k t)
unfolding with_control with_target configure fresh config_defaults
start_with_target e s ds q k t up found =
    start_of_idle e s ds (handle_with 2 none q) refl ∙ rw (up, found) refl

pub start_without_target :
    (e : Connect) (s : Server) (ds : List ContextState) (name : Bytes) (q : FrameQueue)
    (k : Control)
    → Control.init e unconnected ≡ returned ok k
    → (resolve_target s name k).1 ≡ none
    → (d : Capture) × (start e s ds (handle_with 2 (some name) q) ≡ started err_pulse d)
      × (empty d.error ≡ false)
unfolding with_control with_target configure fresh config_defaults
start_without_target e s ds name q k up unknown = elim (resolve_target_lem s name k) [
  | inl (t, found, _) ↦ cc (found, unknown)
  | inr (m, failed, text) ↦ (
    record (handle_with 2 (some name) q) {
      control = Control.shutdown ds (record k { error = m });
      error = m;
    },
    start_of_idle e s ds (handle_with 2 (some name) q) refl ∙ rw (up, failed) refl,
    text,
  )
]
