-- ===== src/Capture/Read/Stream.antt =====
-- A stream of frames from `weba_capture_read_frame` (src/capture.cpp) with fixed-rate output, while
-- the capture runs and its queue is open.
use linux_web_audio_capture.Base.{
  ℕ, ◌+◌, ◌≤◌, ◌<◌, ◌⊎◌, inl, inr, true, ◌≡◌, refl, sym, subst, arith, some, List, [], ◌∷◌, Bytes,
  length,
}
use linux_web_audio_capture.Capture.{Capture, acts}
use linux_web_audio_capture.Capture.Read.{
  read_one, read_none, read_error, Round, Outcome, finished, unfinished, Local, Call, loop, round,
  follow, read_frame, next_deadline_after, timeout_ns,
}
use linux_web_audio_capture.Capture.Read.Setup.{acts-SamePace}
use linux_web_audio_capture.Capture.Read.Cadence.{Paces, Paces-SamePace, Ends}
use linux_web_audio_capture.Capture.Read.Ending.{call_of}
use linux_web_audio_capture.Capture.Read.Session.{
  Input, call, call-Ends, capture_after, frames_given, run,
}
use linux_web_audio_capture.Capture.Read.Open.{StaysOpen, RoundStaysOpen, Flows, acts-Flows}
use linux_web_audio_capture.Capture.Read.Gives.{
  Gives, follow-Gives, round_paced, sleep_us_reaches, at_round,
}

-- In one of the rounds the clock is at `d`, or later, and nobody has closed the queue or ended the thread by
-- then.
abbrev pub Comes : ℕ → List Round → Type 0
Comes d [] = ⊥
Comes d (r ∷ rs) = RoundStaysOpen r × ((d ≤ r.now) ⊎ Comes d rs)

-- A call on `c` with a buffer of one frame at least and a timeout that reaches a millisecond past the
-- deadline of the next frame, whose rounds reach that deadline, while nobody closes the queue or ends the
-- thread.
pub record Patient (c : Capture) (i : Input) : Type 0 where
  pub buffer : Bytes
  pub dst : i.dst ≡ some buffer
  pub room : c.frame_samples ≤ i.dst_capacity_frames
  pub before : StaysOpen i.before
  pub time : c.next_deadline + 1_000_000 ≤ i.entered + timeout_ns i.timeout_ms
  pub rounds : Comes c.next_deadline i.rounds

-- So are the calls of a sequence, each on the capture that the one before left.
unfoldable pub AllPatient : Capture → List Input → Type 0
AllPatient c [] = Unit {0}
AllPatient c (i ∷ is) = Patient c i × AllPatient (capture_after (call i c)) is

later-Comes : {d now : ℕ} {T : Type 0} → (d ≤ now) ⊎ T → now < d → T
later-Comes (inl due) early = absurd (omega (arith, due, early))
later-Comes (inr t) early = t

-- A round before the deadline goes on to the next, however long its sleep lasts.
rounds-Gives :
    (rs : List Round) (d p : ℕ) (k : Call) (l : Local)
    → Comes d rs
    → Paces d p l.capture
    → Flows l.capture
    → d + 1_000_000 ≤ k.call_deadline
    → Gives (loop k rs l)
unfolding loop follow
rounds-Gives [] d p k l t h flows room = absurd t
rounds-Gives (r ∷ rs) d p k l (o, t) h flows room = elim (round_paced k r l o h flows) [
  | inl gives ↦ follow-Gives (round k r l) (loop k rs) gives
  | inr (early, inl none_left) ↦
      absurd (omega (arith, none_left, sleep_us_reaches k r.now d room early))
  | inr (early, inr (_, e)) ↦
      subst (λ n. Gives (follow n (loop k rs))) (sym e)
        (rounds-Gives rs d p k (at_round r l) (later-Comes t early)
          (Paces-SamePace h (acts-SamePace r.before l.capture))
          (acts-Flows r.before l.capture o.0 flows) room)
]

pub read_frame-loop :
    (c : Capture) (buffer : Bytes) (i : Input)
    → c.running ≡ true
    → c.frame_samples ≤ i.dst_capacity_frames
    → read_frame c (some buffer) i.dst_capacity_frames i.wants_info i.timeout_ms i.entered i.rounds
      ≡ loop
          (call_of i.wants_info i.entered i.timeout_ms)
          i.rounds
          (record { capture = c; dst = buffer; total = 0 })
unfolding read_frame
read_frame-loop c buffer i runs room = ground (arith, runs, room)

pub call-Gives :
    {d p : ℕ} (i : Input) (c : Capture) → Patient c i → Paces d p c → Flows c → Gives (call i c)
call-Gives {d} i c t h flows =
    let c' = acts i.before c in
    let s = acts-SamePace i.before c in
    let k = call_of i.wants_info i.entered i.timeout_ms in
    let flows' = acts-Flows i.before c t.before flows in
    rw t.dst (
      subst Gives
        (sym
          (read_frame-loop c' t.buffer i flows'.1 (omega (arith, s.setup.frame_samples, t.room))))
        (rounds-Gives i.rounds _ _ k (record { capture = c'; dst = t.buffer; total = 0 })
          (rw (← h.deadline) t.rounds) (Paces-SamePace h s) flows'
          (omega (arith, h.deadline, t.time))))

-- What a call that gives a frame leaves for the next.
pub record Ready (p : ℕ) (o : Outcome) : Type 0 where
  next : ℕ
  given : frames_given o ≡ 1
  paces : Paces next p (capture_after o)
  flows : Flows (capture_after o)

pub Ready-of-Gives : (d p : ℕ) (rs : List Round) (o : Outcome) → Gives o → Ends d p rs o → Ready p o
Ready-of-Gives d p rs (finished read_one dst info c) g (r, m, due, h) = record {
  next = next_deadline_after d p r.after;
  given = refl;
  paces = h;
  flows = g;
}
Ready-of-Gives d p rs (finished read_none dst info c) g e = absurd g
Ready-of-Gives d p rs (finished (read_error s) dst info c) g e = absurd g
Ready-of-Gives d p rs (unfinished c) g e = absurd g

-- Every call gives a frame. With fixed-rate output, in any sequence of calls on a running capture
-- with an open queue and a deadline that is set, each call returns 1, where each has a buffer of
-- one frame at least, a timeout that reaches a millisecond past the deadline of its frame, and a
-- round whose clock is at that deadline or later, and where, up to that round, nobody closes the
-- queue and the capture thread does not end. Stop requests, after which the sleeps return at once,
-- pushes and reopens may come between, and the queue may be empty.
pub every_call_gives :
    (is : List Input) (d p : ℕ) (c : Capture)
    → Paces d p c
    → Flows c
    → AllPatient c is
    → (run is c).0 ≡ length is
unfolding run AllPatient
every_call_gives [] d p c h flows t = refl
every_call_gives (i ∷ is) d p c h flows (t, more) =
    let next =
      Ready-of-Gives d p i.rounds (call i c) (call-Gives i c t h flows) (call-Ends d p i c h) in
    omega (
      arith,
      next.given,
      every_call_gives is next.next p (capture_after (call i c)) next.paces next.flows more,
    )
