-- ===== src/SelfTest/Passing.antt =====
-- When tests/webaudio_selftest.cpp passes.
use linux_web_audio_capture.Base.{
  ℕ, ◌≤◌, ◌+◌, Bool, true, false, if◌then◌else◌, ◌≡◌, ◌≢◌, refl, ap, arith, inl, inr, none, some,
  List, [], ◌∷◌, Bytes, bytes, length, empty, same_bytes,
}
use linux_web_audio_capture.CondVar.{wait_for}
use linux_web_audio_capture.Format.{Target, ok}
use linux_web_audio_capture.FrameQueue.{FrameQueue}
use linux_web_audio_capture.Control
use linux_web_audio_capture.Control.{Control, returned, unconnected, resolve_target}
use linux_web_audio_capture.Capture.{Capture, publish_format, array_text, frame_period}
use linux_web_audio_capture.Capture.Create.{config_defaults, fresh, configure}
use linux_web_audio_capture.Capture.Read.{Round, read_frame}
use linux_web_audio_capture.Capture.Read.Session.{capture_after}
use linux_web_audio_capture.Api.{stop, stop_act, has_ended, asked}
use linux_web_audio_capture.Api.Starting.{made}
use linux_web_audio_capture.Api.Stopping.{stop_lem}
use linux_web_audio_capture.Api.Queries.{get_format, is_running, last_error, code, strerror}
use linux_web_audio_capture.SelfTest.{
  World, early_checks, fresh_checks, bad_checks, format_checks, last_checks, reading, main,
  unknown_sink, contains, same_status, exit_status, thrown, format_of, not_read, read_scratch,
}
use linux_web_audio_capture.SelfTest.Reads.{Turn}
use linux_web_audio_capture.SelfTest.Streaming.{InTime, first-AllRead}
use linux_web_audio_capture.SelfTest.Gaps.{turns_pushed, TurnsUnbroken, read_frames-gaps}
use linux_web_audio_capture.SelfTest.Handles.{
  Handle, handle_with, mono_handle, stereo_handle, surround51_handle, surround71_handle,
  three_refused, start_with_target, start_without_target,
}

-- An allocator with room, a server that is there, the default sink with its monitor and no sink of the
-- name that is unknown, 50 reads whose sleeps last as long as they ask for, without a reopen and with no more
-- frames pushed than the queue has slots, and a thread that ends in time.
pub record Healthy (w : World) : Type 0 where
  pub rooms : (n : ℕ) → w.room n ≡ true
  pub control : Control
  pub target : Target
  pub connected : Control.init w.connect unconnected ≡ returned ok control
  pub resolved : resolve_target w.server [] control ≡ (control, some target)
  pub monitor : contains (bytes ".monitor") (array_text target.monitor) ≡ true
  pub bad_control : Control
  pub bad_connected : Control.init w.bad_connect unconnected ≡ returned ok bad_control
  pub unknown : (resolve_target w.bad_server unknown_sink bad_control).1 ≡ none
  pub first : Turn
  pub rest : List Turn
  pub turns : w.turns ≡ first ∷ rest
  pub fifty : length w.turns ≡ 50
  pub round : Round
  pub rounds : List Round
  pub begins : first.rounds ≡ round ∷ rounds
  pub in_time : InTime (round.now + 20_000_000) 20_000_000 w.turns
  pub unbroken : TurnsUnbroken w.turns
  pub few : turns_pushed w.turns ≤ 100
  pub ends : (c : Capture) → (wait_for has_ended stop_act w.during_stop (asked c)).1 ≢ []

early_checks-pass :
    (w : World)
    → ((n : ℕ) → w.room n ≡ true)
    → early_checks w
      ≡ true ∷ true ∷ true ∷ true ∷ true ∷ true ∷ true ∷ true ∷ true ∷ true ∷ true ∷ true ∷ []
unfolding early_checks config_defaults strerror code same_bytes same_status
early_checks-pass w rooms =
    rw
      (
        (mono_handle w.room rooms).created_so,
        (stereo_handle w.room none rooms).created_so,
        (surround51_handle w.room rooms).created_so,
        (surround71_handle w.room rooms).created_so,
        three_refused w.room,
      )
      refl

not_thrown : (w : World) → ((n : ℕ) → w.room n ≡ true) → thrown w ≡ false
unfolding config_defaults
not_thrown w rooms =
    rw
      (
        (mono_handle w.room rooms).created_so,
        (stereo_handle w.room none rooms).created_so,
        (surround51_handle w.room rooms).created_so,
        (surround71_handle w.room rooms).created_so,
        three_refused w.room,
      )
      refl

-- The handle that is started, which runs then.
abbrev running : {w : World} → Healthy w → FrameQueue → Capture
running h q = made (handle_with 2 none q) h.control h.target

fresh_checks-pass :
    (q : FrameQueue)
    → (fresh_checks (handle_with 2 none q) ≡ true ∷ true ∷ true ∷ true ∷ [])
      × (capture_after (read_scratch config_defaults.frame_samples (handle_with 2 none q))
          ≡ handle_with 2 none q)
unfolding fresh_checks is_running read_frame configure fresh config_defaults same_status code
fresh_checks-pass q = (refl, refl)

bad_checks-pass : (w : World) → Healthy w → bad_checks w ≡ some (true ∷ true ∷ [])
unfolding bad_checks same_status code last_error config_defaults
bad_checks-pass w h =
    let made_so = stereo_handle w.room (some unknown_sink) h.rooms in
    let (d, failed, text) =
      start_without_target w.bad_connect w.bad_server w.bad_failed_start unknown_sink made_so.queue
        h.bad_control h.bad_connected h.unknown in
    rw (made_so.created_so, failed, text) refl

contains-nonempty : (text : Bytes) → contains (bytes ".monitor") text ≡ true → empty text ≡ false
contains-nonempty [] e = cc e
contains-nonempty (b ∷ bs) e = refl

format_checks-pass :
    (w : World) (h : Healthy w) (q : FrameQueue)
    → format_checks (running h q) ≡ true ∷ true ∷ true ∷ true ∷ true ∷ true ∷ true ∷ []
unfolding format_checks get_format publish_format configure fresh config_defaults same_status code
    read_frame
format_checks-pass w h q =
    rw (contains-nonempty (array_text h.target.monitor) h.monitor, h.monitor) refl

-- All 50 reads give a frame.
reading-AllRead :
    (w : World) (h : Healthy w) (q : FrameQueue)
    → q.closed ≡ false
    → let d = reading w (running h q) in
      (d.frames ≡ 50)
      × (d.failed ≡ false)
      × (d.in_call ≡ false)
      × (d.capture.thread_abandoned ≡ false)
unfolding reading get_format publish_format configure fresh config_defaults frame_period
reading-AllRead w h q opened =
    let c = running h q in
    let all =
      first-AllRead (format_of c) h.first h.round h.rounds h.rest (not_read c) h.begins
        (refl, refl, refl) (opened, refl) refl (rw h.turns at h.in_time) in
    let fifty : length (h.first ∷ h.rest) ≡ 50 = rw h.turns at h.fifty in
    rw h.turns (omega (arith, all.frames, fifty), all.failed, all.in_call, all.kept)

-- The end of a healthy run.
stopped :
    (w : World)
    → Healthy w
    → (c : Capture) → c.thread_abandoned ≡ false
    → let d = stop w.during_stop w.at_disconnect c in
      (d.running ≡ false) × ((stop [] [] d).running ≡ false)
stopped w h c kept = elim (stop_lem w.during_stop w.at_disconnect c kept).3 [
  | inr (_, _, _, _, late) ↦ absurd (h.ends c late)
  | inl (kept', idle, _) ↦
      let d = stop w.during_stop w.at_disconnect c in
      let alone = (stop_lem w.during_stop w.at_disconnect c kept).2 in
      elim (stop_lem [] [] d kept').3 [
        | inl (_, idle', _) ↦ (idle, idle')
        | inr (_, joinable, _, _, _) ↦ cc (alone, joinable)
      ]
]

-- None of them is flagged as a discontinuity.
reading-gaps :
    (w : World) (h : Healthy w) (c : Handle w.room 2 none)
    → (reading w (running h c.queue)).gaps ≡ 0
unfolding reading publish_format configure fresh config_defaults
reading-gaps w h c =
    let q = running h c.queue in
    read_frames-gaps w.turns (format_of q) (not_read q) h.unbroken
      (refl, refl, (c.shape.1, omega (arith, c.shape, h.few), omega (arith, c.shape)))

last_checks-pass :
    (w : World) (h : Healthy w) (c : Handle w.room 2 none)
    → last_checks w (reading w (running h c.queue))
      ≡ true ∷ true ∷ w.in_time ∷ true ∷ true ∷ true ∷ []
unfolding last_checks is_running
last_checks-pass w h c =
    let (frames, fine, _, kept) = reading-AllRead w h c.queue c.opened in
    let (idle, idle') = stopped w h (reading w (running h c.queue)).capture kept in
    rw (idle', idle, frames, fine, reading-gaps w h c) refl

status_of : (b : Bool) → exit_status (b ∷ true ∷ true ∷ true ∷ []) ≡ (if b then 0 else 1)
status_of true = refl
status_of false = refl

-- The self test passes. Where the allocator has room, a server accepts the connection, resolves the
-- default sink to a monitor by name and does not know the sink that the test names, each of the 50
-- reads has two rounds and sleeps as long as it asks for, nobody closes the queue, ends the capture
-- thread or reopens a stream meanwhile, no more frames are pushed than the queue has slots, and the
-- wait of the stop is over before its time is: all checks pass, but perhaps that of the clocks. So
-- the exit status is 0 if the cadence matches the clock, and 1 otherwise.
pub main_passes : (w : World) → Healthy w → main w ≡ some (if w.in_time then 0 else 1)
unfolding main config_defaults is_running
main_passes w h =
    let c = stereo_handle w.room none h.rooms in
    let q = c.queue in
    let (fresh_so, refused) = fresh_checks-pass q in
    let starts =
      start_with_target w.connect w.server w.failed_start q h.control h.target h.connected
        h.resolved in
    let (_, _, back, _) = reading-AllRead w h q c.opened in
    rw
      (
        not_thrown w h.rooms,
        c.created_so,
        early_checks-pass w h.rooms,
        fresh_so,
        refused,
        starts,
        bad_checks-pass w h,
        format_checks-pass w h q,
        last_checks-pass w h c,
        back,
      )
      (ap some (status_of w.in_time))
