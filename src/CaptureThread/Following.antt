-- ===== src/CaptureThread/Following.antt =====
-- Which stream the capture thread of src/capture.cpp holds: it leaves a pinned sink only when reading
-- fails, and follows the default sink when that moves.
use linux_web_audio_capture.Base.{
  false, ◌≡◌, refl, ◌⊎◌, inl, inr, arith, none, some, Bytes, Option-cases, empty,
}
use linux_web_audio_capture.Capture.{Capture, frame_bytes}
use linux_web_audio_capture.Control.{resolve_target}
use linux_web_audio_capture.Mic.{Read, did_read, did_not_read, read, Mic}
use linux_web_audio_capture.CaptureThread.{
  Place, at_top, resolving, opening, reading, rechecking, waiting, exiting, exited, Worker, Env, at,
  step,
}

-- The reads of a place that gives its stream up.
abbrev GivesUp : Place → Env → Worker → Capture → Mic → Type 0
GivesUp p e w c m =
    (p ≡ reading)
    × ((text : Bytes) × (read e.pa_simple_read m w.buffer (frame_bytes c) ≡ did_not_read text))

Read-cases :
    (r : Read) → ((out : Bytes) × (r ≡ did_read out)) ⊎ ((text : Bytes) × (r ≡ did_not_read text))
Read-cases (did_read out) = inl (out, refl)
Read-cases (did_not_read text) = inr (text, refl)

at-GivesUp :
    (p : Place) (e : Env) (w : Worker) (c : Capture) (m : Mic)
    → empty c.requested_sink ≡ false
    → w.mic ≡ some m
    → (at p e w c).0.mic ≡ none
    → GivesUp p e w c m
unfolding at
at-GivesUp at_top e w c m pinned has lost = absurd (ground arith)
at-GivesUp resolving e w c m pinned has lost =
    absurd (ground (arith, Option-cases (resolve_target e.server c.requested_sink c.control).1))
at-GivesUp (opening t) e w c m pinned has lost = absurd (ground arith)
at-GivesUp reading e w c m pinned has lost =
    elim (Read-cases (read e.pa_simple_read m w.buffer (frame_bytes c))) [
      | inl (out, x) ↦ absurd (ground arith)
      | inr (text, x) ↦ (refl, (text, x))
    ]
at-GivesUp rechecking e w c m pinned has lost = absurd (ground arith)
at-GivesUp waiting e w c m pinned has lost = absurd (ground arith)
at-GivesUp exiting e w c m pinned has lost = absurd (ground arith)
at-GivesUp exited e w c m pinned has lost = absurd (ground arith)

-- Where a sink was asked for by name, a step in which the thread gives up its stream is a read that
-- fails: the stream is not given up because the default sink is another.
pub pinned_stream_kept :
    (e : Env) (w : Worker) (c : Capture) (m : Mic)
    → empty c.requested_sink ≡ false
    → w.mic ≡ some m
    → (step e (w, c)).0.mic ≡ none
    → (w.place ≡ reading)
      × ((text : Bytes) × (read e.pa_simple_read m w.buffer (frame_bytes c) ≡ did_not_read text))
unfolding step
pinned_stream_kept e w c m pinned has lost = at-GivesUp w.place e w c m pinned has lost
