-- ===== src/Capture/Flags.antt =====
-- The frame flags of include/webacapture.h: the flags that wait for the next frame, and what a frame
-- reports.
use Prim.Native.Nat.{bit_and, bit_or}
use linux_web_audio_capture.Base.{
  ℕ, Bool, true, false, ◌||◌, ◌≡◌, sym, ap, subst, ◌⊎◌, inl, inr, ◌==◌, if◌then◌else◌, List, [],
  ◌∷◌, arith,
}
use linux_web_audio_capture.Capture.{
  Capture, Act, pushes, reopens, requests_stop, closes, ends, act, acts, discontinuity, silence,
  underrun, reinit,
}

-- Whether a word of flags has a flag.
abbrev pub has : ℕ → ℕ → Bool
has flags flag = bit_and flags flag == flag

-- The flags that wait are none, or the two of a reopen.
abbrev pub IsPending : ℕ → Type 0
IsPending p = (p ≡ 0) ⊎ (p ≡ 9)

pub or_reopen-IsPending : (p : ℕ) → IsPending p → IsPending (bit_or p 9)
or_reopen-IsPending p (inl e) = inr (ap (λ n. bit_or n 9) e)
or_reopen-IsPending p (inr e) = inr (ap (λ n. bit_or n 9) e)

act-IsPending :
    (a : Act) (c : Capture) → IsPending c.pending_flags → IsPending (act a c).pending_flags
unfolding act
act-IsPending (pushes frame) c h = h
act-IsPending reopens c h = or_reopen-IsPending c.pending_flags h
act-IsPending requests_stop c h = h
act-IsPending closes c h = h
act-IsPending ends c h = h

-- What other threads raise is the pair of flags of a reopen, and nothing else.
pub acts-IsPending :
    (more : List Act) (c : Capture)
    → IsPending c.pending_flags
    → IsPending (acts more c).pending_flags
unfolding acts
acts-IsPending [] c h = h
acts-IsPending (a ∷ more) c h = acts-IsPending more (act a c) (act-IsPending a c h)

-- The word that a frame reports, as `weba_capture_read_frame` puts it together.
abbrev pub word : ℕ → Bool → Bool → ℕ
word pending lost silent =
    let flags = bit_or pending (if lost then discontinuity else 0) in
    if silent then bit_or flags (bit_or silence underrun) else flags

-- Each flag means one thing.
pub record Means (pending : ℕ) (lost silent : Bool) (flags : ℕ) : Type 0 where
  pub silence_flag : has flags silence ≡ silent
  pub underrun_flag : has flags underrun ≡ silent
  pub reinit_flag : has flags reinit ≡ (pending == 9)
  pub discontinuity_flag : has flags discontinuity ≡ (lost || pending == 9)

Means-word_at :
    (lost silent : Bool)
    → Means 0 lost silent (word 0 lost silent) × Means 9 lost silent (word 9 lost silent)
Means-word_at true true = ground arith
Means-word_at true false = ground arith
Means-word_at false true = ground arith
Means-word_at false false = ground arith

pub Means-word :
    (p : ℕ) (lost silent : Bool) → IsPending p → Means p lost silent (word p lost silent)
Means-word p lost silent (inl e) =
    subst (λ n. Means n lost silent (word n lost silent)) (sym e) (Means-word_at lost silent).0
Means-word p lost silent (inr e) =
    subst (λ n. Means n lost silent (word n lost silent)) (sym e) (Means-word_at lost silent).1
