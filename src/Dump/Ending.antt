-- ===== src/Dump/Ending.antt =====
-- When the recording loop of examples/webacap-dump.c comes to its end.
use linux_web_audio_capture.Base.{
  ℕ, ◌+◌, ◌*◌, ◌≤◌, true, false, ◌≡◌, refl, ◌∙◌, some, List, [], ◌∷◌, Bytes, pos,
}
use linux_web_audio_capture.Capture.{Capture, FormatInfo, acts}
use linux_web_audio_capture.Capture.Read.{
  Round, read_one, read_none, read_error, Outcome, finished, unfinished, read_frame, sleep_us,
}
use linux_web_audio_capture.Capture.Read.Setup.{acts-SamePace}
use linux_web_audio_capture.Capture.Read.Ending.{Finished, at_top, call_of, read_frame-Finished}
use linux_web_audio_capture.Capture.Read.Steady.{Steady, acts-Fixed, read_frame-Steady}
use linux_web_audio_capture.Dump.{Dump, put_frame, Turn, after_read, record_frames, opened, dump}

-- The rounds of a call at the clock `entered`: there are two at least, and the second begins no earlier
-- than the sleep that the first asks for is over.
abbrev pub SleepsEnough : ℕ → List Round → Capture → Type 0
SleepsEnough entered [] c = ⊥
SleepsEnough entered (r ∷ []) c = ⊥
SleepsEnough entered (r ∷ r' ∷ rs) c =
    r.now + 1000 * sleep_us (call_of true entered (pos 1000)) r.now (at_top r c).next_deadline
    ≤ r'.now

SleepingAfter : Outcome → (Bytes → Capture → Type 0) → Type 0
SleepingAfter (finished read_one buffer frame c) more = more buffer c
SleepingAfter (finished read_none buffer frame c) more = more buffer c
SleepingAfter (finished (read_error s) buffer frame c) more = Unit {0}
SleepingAfter (unfinished c) more = Unit {0}

-- So are those of every call of the loop, each on the capture that the one before left.
unfoldable pub AllSleepEnough : FormatInfo → List Turn → Bytes → Capture → Type 0
unfolding SleepingAfter
AllSleepEnough i [] buffer c = Unit {0}
AllSleepEnough i (t ∷ ts) buffer c =
    SleepsEnough t.entered t.rounds (acts t.before c)
    × SleepingAfter
        (read_frame (acts t.before c) (some buffer) i.frame_samples true (pos 1000) t.entered
          t.rounds)
        (AllSleepEnough i ts)

call-Finished :
    (c : Capture) (buffer : Bytes) (room entered : ℕ) (rs : List Round)
    → c.fixed_rate ≡ true
    → SleepsEnough entered rs c
    → Finished (read_frame c (some buffer) room true (pos 1000) entered rs)
call-Finished c buffer room entered [] f h = absurd h
call-Finished c buffer room entered (r ∷ []) f h = absurd h
call-Finished c buffer room entered (r ∷ r' ∷ rs) f h =
    read_frame-Finished c (some buffer) room true (pos 1000) entered r r' rs f h

after_read-in_call :
    (i : FormatInfo) (d : Dump) (o : Outcome) (more : Dump → Dump) (H : Bytes → Capture → Type 0)
    → d.in_call ≡ false
    → Finished o
    → Steady d.capture.thread_abandoned d.capture.frame_samples o
    → SleepingAfter o H
    → ((e : Dump)
        → e.in_call ≡ false
        → e.capture.fixed_rate ≡ true
        → H e.buffer e.capture
        → (more e).in_call ≡ false)
    → (after_read i d o more).in_call ≡ false
unfolding after_read put_frame SleepingAfter
after_read-in_call i d (finished read_one buffer frame c) more H over fin f h rest =
    rest _ refl f.0 h
after_read-in_call i d (finished read_none buffer frame c) more H over fin f h rest =
    rest _ over f.0 h
after_read-in_call i d (finished (read_error s) buffer frame c) more H over fin f h rest = over
after_read-in_call i d (unfinished c) more H over fin f h rest = absurd fin

record_frames-in_call :
    (i : FormatInfo) (ts : List Turn) (d : Dump)
    → d.in_call ≡ false
    → d.capture.fixed_rate ≡ true
    → AllSleepEnough i ts d.buffer d.capture
    → (record_frames i ts d).in_call ≡ false
unfolding record_frames AllSleepEnough
record_frames-in_call i [] d over f h = over
record_frames-in_call i (t ∷ ts) d over f (enough, more) =
    let c = acts t.before d.capture in
    let f' = (acts-SamePace t.before d.capture).setup.fixed_rate ∙ f in
    after_read-in_call i d _ (record_frames i ts) (AllSleepEnough i ts) over
      (call-Finished c d.buffer i.frame_samples t.entered t.rounds f' enough)
      (read_frame-Steady d.capture.thread_abandoned d.capture.frame_samples c (some d.buffer)
        i.frame_samples true (pos 1000) t.entered t.rounds
        (acts-Fixed d.capture.thread_abandoned d.capture.frame_samples t.before d.capture
          (f, refl, refl)))
      more (record_frames-in_call i ts)

-- A recording with fixed-rate output is over when there is no time for another turn, if each of its calls
-- sleeps as long as it asks for.
pub dump-in_call :
    (i : FormatInfo) (ts : List Turn) (buffer : Bytes) (c : Capture)
    → c.fixed_rate ≡ true
    → AllSleepEnough i ts buffer c
    → (dump i ts buffer c).in_call ≡ false
unfolding dump
dump-in_call i ts buffer c f h =
    let over = record_frames-in_call i ts (opened i buffer c) refl f h in rw over
