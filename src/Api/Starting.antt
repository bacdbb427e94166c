-- ===== src/Api/Starting.antt =====
-- What `weba_capture_start` of src/capture.cpp leaves behind.
use linux_web_audio_capture.Base.{
  Bool-cases, subst, true, false, ◌≡◌, refl, sym, ◌⊎◌, inl, inr, arith, ◌∙◌, none, some, List,
  empty, take,
}
use linux_web_audio_capture.Format.{Status, ok, err_state, Target}
use linux_web_audio_capture.Control
use linux_web_audio_capture.Control.{
  Control, ContextState, Connect, Init, returned, process_terminated, Server, resolve_target,
}
use linux_web_audio_capture.Control.Lifecycle.{init_lem}
use linux_web_audio_capture.Control.Resolving.{Resolved, resolve_target_lem}
use linux_web_audio_capture.Capture.{Capture, publish_format}
use linux_web_audio_capture.Api.{started, is_ok, with_target, with_control, start}
use linux_web_audio_capture.Api.Queries.{get_format, is_running, last_error}

-- A handle `d` that a successful start made of `c`: it runs, with a thread, and its format names the sink
-- that the server resolved.
pub record Running (s : Server) (c d : Capture) : Type 0 where
  pub target : Target
  pub resolved : Resolved s c.requested_sink d.control target
  pub runs : is_running (some d) ≡ 1
  pub joinable : d.thread ≡ true
  pub unstopped : d.stop_requested ≡ false
  pub rate : d.fixed_rate ≡ c.fixed_rate
  pub format : get_format (some d) true ≡ (
    ok,
    some (record {
      sample_rate = c.sample_rate;
      channels = c.channels;
      frame_samples = c.frame_samples;
      format = c.format;
      sink_name = take 255 target.sink;
      monitor_name = take 255 target.monitor;
    }),
  )

-- A failed start: it runs no more than before, and says why, unless the handle was running already.
abbrev pub Refused : Status → Capture → Capture → Type 0
Refused status c d =
    (is_ok status ≡ false)
    × (d.running ≡ c.running)
    × (d.thread ≡ c.thread)
    × (((c.running ≡ true) × (status ≡ err_state)) ⊎ (empty (last_error (some d)) ≡ false))

with_target-Refused :
    (ds : List ContextState) (c : Capture) (k : Control) {status : Status} {d : Capture}
    → c.running ≡ false
    → empty k.error ≡ false
    → with_target ds c (k, none) ≡ started status d
    → Refused status c d
unfolding with_target last_error
with_target-Refused ds c k idle e h = ground (arith, h)

-- The handle that a start makes once it has its target.
abbrev pub made : Capture → Control → Target → Capture
made c k t = record (publish_format t (record c { control = k })) {
  stop_requested = false;
  running = true;
  thread = true;
}

made-Running :
    (s : Server) (c : Capture) (k : Control) (t : Target)
    → Resolved s c.requested_sink k t
    → Running s c (made c k t)
unfolding publish_format get_format is_running
made-Running s c k t r = record {
  target = t;
  resolved = r;
  runs = refl;
  joinable = refl;
  unstopped = refl;
  rate = refl;
  format = refl;
}

with_target-made :
    (ds : List ContextState) (c : Capture) (k : Control) (t : Target) {status : Status}
    {d : Capture}
    → with_target ds c (k, some t) ≡ started status d
    → (status ≡ ok) × (made c k t ≡ d)
unfolding with_target
with_target-made ds c k t h = elim (Bool-cases c.thread) [
  | inl e ↦ cc (rw e at h)
  | inr e ↦ let h' = rw e at h in (cc h', cc h')
]

with_resolved :
    (s : Server) (ds : List ContextState) (c : Capture) (k : Control) {status : Status}
    {d : Capture}
    → c.running ≡ false
    → with_target ds c (resolve_target s c.requested_sink k) ≡ started status d
    → ((status ≡ ok) × Running s c d) ⊎ Refused status c d
with_resolved s ds c k {status} {d} idle h = elim (resolve_target_lem s c.requested_sink k) [
  | inl (t, e, r) ↦
      let (done, same) = with_target-made ds c k t (rw e at h) in
      inl (done, subst (Running s c) same (made-Running s c k t r))
  | inr (m, e, text) ↦ inr (with_target-Refused ds c (record k { error = m }) idle text (rw e at h))
]

with_control_ways :
    (s : Server) (ds : List ContextState) (c : Capture) (e : Connect) (i : Init) {status : Status}
    {d : Capture}
    → Control.init e c.control ≡ i
    → c.running ≡ false
    → with_control s ds c i ≡ started status d
    → ((status ≡ ok) × Running s c d) ⊎ Refused status c d
unfolding with_control last_error
with_control_ways s ds c e process_terminated i idle h = cc
with_control_ways s ds c e (returned st k) i idle h = elim (init_lem e c.control i) [
  | inl (fine, _, _, _, _) ↦ with_resolved s ds c k idle (rw fine at h)
  | inr (failed, text) ↦ inr (ground (arith, rw failed at h, text))
]

pub start_of_idle :
    (e : Connect) (s : Server) (ds : List ContextState) (c : Capture)
    → c.running ≡ false
    → start e s ds c ≡ with_control s ds c (Control.init e c.control)
unfolding start
start_of_idle e s ds c h = ground arith

start_of_running :
    (e : Connect) (s : Server) (ds : List ContextState) (c : Capture) {status : Status}
    {d : Capture}
    → c.running ≡ true
    → start e s ds c ≡ started status d
    → Refused status c d
unfolding start last_error
start_of_running e s ds c runs h = ground (arith, h, runs)

with_resolved-made :
    (s : Server) (ds : List ContextState) (c : Capture) (k : Control) {d : Capture}
    → with_target ds c (resolve_target s c.requested_sink k) ≡ started ok d
    → (k' : Control) × (t : Target) × (made c k' t ≡ d)
unfolding with_target
with_resolved-made s ds c k h = elim (resolve_target_lem s c.requested_sink k) [
  | inl (t, e, _) ↦ (k, t, (with_target-made ds c k t (rw e at h)).1)
  | inr (_, e, _) ↦ cc (rw e at h)
]

with_control-made :
    (s : Server) (ds : List ContextState) (c : Capture) (i : Init) {d : Capture}
    → with_control s ds c i ≡ started ok d
    → (k : Control) × (t : Target) × (made c k t ≡ d)
unfolding with_control
with_control-made s ds c process_terminated h = cc
with_control-made s ds c (returned st k) h = elim (Bool-cases (is_ok st)) [
  | inl fine ↦ with_resolved-made s ds c k (rw fine at h)
  | inr failed ↦ ground (arith, rw failed at h, failed)
]

-- A successful start of a handle that does not run changes the control, the format's names, and the
-- three fields that say that it runs.
pub start-made :
    (e : Connect) (s : Server) (ds : List ContextState) (c : Capture) {d : Capture}
    → c.running ≡ false
    → start e s ds c ≡ started ok d
    → (k : Control) × (t : Target) × (made c k t ≡ d)
start-made e s ds c idle h =
    with_control-made s ds c (Control.init e c.control) (sym (start_of_idle e s ds c idle) ∙ h)

-- What a `weba_capture_start` that returns leaves behind. If it was successful, the capture runs
-- with a thread and no stop requested, and `weba_capture_get_format` gives the configured rate,
-- channels, frame size and sample format, and the names of the sink and of the monitor that the
-- server resolved, cut to 255 bytes each. Otherwise the status is another, `running` and the thread
-- are what they were, and `weba_capture_last_error` gives a reason that is not empty, unless the
-- capture was running already, which gives `WEBA_ERR_STATE`.
pub start_lem :
    (e : Connect) (s : Server) (ds : List ContextState) (c : Capture) {status : Status}
    {d : Capture}
    → start e s ds c ≡ started status d
    → ((status ≡ ok) × Running s c d) ⊎ Refused status c d
start_lem e s ds c h = elim (Bool-cases c.running) [
  | inl runs ↦ inr (start_of_running e s ds c runs h)
  | inr idle ↦
      with_control_ways s ds c e (Control.init e c.control) refl idle
        (sym (start_of_idle e s ds c idle) ∙ h)
]
