-- ===== src/CaptureThread/Reopening.antt =====
-- How the capture thread of src/capture.cpp reopens its stream, and what it tells the consumer.
use Prim.Native.Nat.{bit_or}
use linux_web_audio_capture.Base.{
  true, false, ◌≡◌, refl, arith, none, some, [], ◌∷◌, Bytes, same_bytes,
}
use linux_web_audio_capture.Format.{Target}
use linux_web_audio_capture.Capture.{
  Capture, frame_bytes, set_error, publish_format, reinit, discontinuity,
}
use linux_web_audio_capture.Control.{Control, resolve_target}
use linux_web_audio_capture.Mic.{opened, open_mic, Mic, did_not_read, read}
use linux_web_audio_capture.CaptureThread.{
  at_top, reading, rechecking, waiting, Worker, Env, at, step, steps, mic_format, raise_reopen,
  check_at, is_check_due, recheck, moved, did,
}

-- From the top of the loop, without a stream but after an earlier one, with no stop requested, a
-- sink that resolves to `t` and a stream that opens as `m`, three steps bring the thread to its
-- next read: it reads from `m`, records the monitor of `t`, has raised the flags of a reopen, and
-- has not touched the queue.
pub reopen_steps :
    (e0 e1 e2 : Env) (w : Worker) (c : Capture) (k : Control) (t : Target) (m : Mic)
    → w.place ≡ at_top
    → w.mic ≡ none
    → w.had_stream ≡ true
    → c.stop_requested ≡ false
    → resolve_target e1.server c.requested_sink c.control ≡ (k, some t)
    → open_mic e2.pa_simple_new t.monitor (mic_format c) ≡ opened m
    → let (w', c') = steps (e0 ∷ e1 ∷ e2 ∷ []) (w, c) in
      (w'.place ≡ reading)
      × (w'.mic ≡ some m)
      × (c'.current_monitor ≡ t.monitor)
      × (c'.pending_flags ≡ (raise_reopen c).pending_flags)
      × (c'.queue ≡ c.queue)
unfolding steps step at publish_format
reopen_steps e0 e1 e2 w c k t m p n had s r o = ground (arith, p, n, had, s, r, o)

recheck_moved :
    (e : Env) (w : Worker) (c : Capture) (k : Control) (t : Target)
    → w.place ≡ rechecking
    → is_check_due e c ≡ true
    → resolve_target e.server [] c.control ≡ (k, some t)
    → same_bytes t.monitor c.current_monitor ≡ false
    → step e (w, c) ≡ (
      record w { place = at_top; mic = none },
      record c { next_sink_check = check_at e.later c; control = k },
    )
unfolding step at recheck moved
recheck_moved e w c k t p due r other_monitor = ground (arith, p, due, r, other_monitor)

-- The default sink is followed. From a recheck that is due, where the default sink has become one
-- with another monitor and stays it, with no stop requested and a stream that opens on that
-- monitor, four steps bring the thread to its next read: it reads from the new stream, records the
-- new monitor, has raised the flags of a reopen, and has not touched the queue.
pub default_sink_followed :
    (e e0 e1 e2 : Env) (w : Worker) (c : Capture) (k k' : Control) (t : Target) (m : Mic)
    → w.place ≡ rechecking
    → w.had_stream ≡ true
    → c.stop_requested ≡ false
    → is_check_due e c ≡ true
    → resolve_target e.server [] c.control ≡ (k, some t)
    → same_bytes t.monitor c.current_monitor ≡ false
    → resolve_target e1.server c.requested_sink k ≡ (k', some t)
    → open_mic e2.pa_simple_new t.monitor (mic_format c) ≡ opened m
    → let (w', c') = steps (e ∷ e0 ∷ e1 ∷ e2 ∷ []) (w, c) in
      (w'.place ≡ reading)
      × (w'.mic ≡ some m)
      × (c'.current_monitor ≡ t.monitor)
      × (c'.pending_flags ≡ (raise_reopen c).pending_flags)
      × (c'.queue ≡ c.queue)
unfolding steps
default_sink_followed e e0 e1 e2 w c k k' t m p had s due r other_monitor r' o =
    rw (recheck_moved e w c k t p due r other_monitor) (
      reopen_steps e0 e1 e2 (record w { place = at_top; mic = none })
        (record c { next_sink_check = check_at e.later c; control = k }) k' t m refl refl had s r'
        o)

read_failed :
    (e : Env) (w : Worker) (c : Capture) (m : Mic) (text : Bytes)
    → w.place ≡ reading
    → w.mic ≡ some m
    → read e.pa_simple_read m w.buffer (frame_bytes c) ≡ did_not_read text
    → step e (w, c) ≡ (record w { place = waiting; mic = none }, raise_reopen (set_error text c))
unfolding step at did
read_failed e w c m text p n r = ground (arith, p, n, r)

waited_out :
    (e : Env) (w : Worker) (c : Capture)
    → w.place ≡ waiting
    → c.stop_requested ≡ false
    → step e (w, c) ≡ (record w { place = at_top }, c)
unfolding step at
waited_out e w c p s = ground (arith, p, s)

-- A read that fails once can be reported twice. It raises the flags of a reopen, and if the
-- consumer takes them before the stream is back, no stop is requested, the sink resolves and the
-- stream opens, the same two flags are raised again for the same gap.
pub read_failure_reported_twice :
    (e e' e0 e1 e2 : Env) (w : Worker) (c : Capture) (k : Control) (t : Target) (m m' : Mic)
    (text : Bytes)
    → w.place ≡ reading
    → w.mic ≡ some m
    → w.had_stream ≡ true
    → c.stop_requested ≡ false
    → read e.pa_simple_read m w.buffer (frame_bytes c) ≡ did_not_read text
    → resolve_target e1.server c.requested_sink c.control ≡ (k, some t)
    → open_mic e2.pa_simple_new t.monitor (mic_format c) ≡ opened m'
    → let (w1, c1) = step e (w, c) in
      let (w2, c2) = steps (e' ∷ e0 ∷ e1 ∷ e2 ∷ []) (w1, record c1 { pending_flags = 0 }) in
      (c1.pending_flags ≡ (raise_reopen c).pending_flags)
      × (w2.place ≡ reading)
      × (w2.mic ≡ some m')
      × (c2.pending_flags ≡ bit_or reinit discontinuity)
read_failure_reported_twice e e' e0 e1 e2 w c k t m m' text p n had s failed r o =
    rw (read_failed e w c m text p n failed) (
      unfold steps in
      let c1 = record (raise_reopen (set_error text c)) { pending_flags = 0 } in
      rw (waited_out e' (record w { place = waiting; mic = none }) c1 refl s) (
        let (reads, opens, _, flags, _) =
          reopen_steps e0 e1 e2 (record w { place = at_top; mic = none }) c1 k t m' refl refl had s
            r o in
        (refl, reads, opens, flags)))
