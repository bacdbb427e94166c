-- ===== src/Capture/Read/Setup.antt =====
-- What stays as it is while `weba_capture_read_frame` (src/capture.cpp) runs: the configuration, and
-- the pacing state, which only the consumer writes.
use linux_web_audio_capture.Base.{◌≡◌, refl, ◌∙◌, List, [], ◌∷◌, arith}
use linux_web_audio_capture.Capture.{
  Capture, Act, pushes, reopens, requests_stop, closes, ends, act, acts,
}

-- The configuration of `c` is that of `d`.
pub record SameSetup (d c : Capture) : Type 0 where
  pub sample_rate : c.sample_rate ≡ d.sample_rate
  pub channels : c.channels ≡ d.channels
  pub frame_samples : c.frame_samples ≡ d.frame_samples
  pub format : c.format ≡ d.format
  pub fixed_rate : c.fixed_rate ≡ d.fixed_rate

-- So is the pacing state.
pub record SamePace (d c : Capture) : Type 0 where
  pub setup : SameSetup d c
  pub deadline : c.next_deadline ≡ d.next_deadline
  pub valid : c.deadline_valid ≡ d.deadline_valid

pub SameSetup-refl : (c : Capture) → SameSetup c c
SameSetup-refl c = record {
  sample_rate = refl;
  channels = refl;
  frame_samples = refl;
  format = refl;
  fixed_rate = refl;
}

pub SameSetup-trans : {c d e : Capture} → SameSetup c d → SameSetup d e → SameSetup c e
SameSetup-trans p q = record {
  sample_rate = q.sample_rate ∙ p.sample_rate;
  channels = q.channels ∙ p.channels;
  frame_samples = q.frame_samples ∙ p.frame_samples;
  format = q.format ∙ p.format;
  fixed_rate = q.fixed_rate ∙ p.fixed_rate;
}

pub SamePace-refl : (c : Capture) → SamePace c c
SamePace-refl c = record { setup = SameSetup-refl c; deadline = refl; valid = refl }

pub SamePace-trans : {c d e : Capture} → SamePace c d → SamePace d e → SamePace c e
SamePace-trans p q = record {
  setup = SameSetup-trans p.setup q.setup;
  deadline = q.deadline ∙ p.deadline;
  valid = q.valid ∙ p.valid;
}

act-SamePace : (a : Act) (c : Capture) → SamePace c (act a c)
unfolding act
act-SamePace (pushes frame) c = ground arith
act-SamePace reopens c = ground arith
act-SamePace requests_stop c = ground arith
act-SamePace ends c = ground arith
act-SamePace closes c = ground arith

-- Nothing that another thread does changes them.
pub acts-SamePace : (more : List Act) (c : Capture) → SamePace c (acts more c)
unfolding acts
acts-SamePace [] c = SamePace-refl c
acts-SamePace (a ∷ more) c = SamePace-trans (act-SamePace a c) (acts-SamePace more (act a c))
