-- ===== src/Api/Restarting.antt =====
-- Starting a capture again after `weba_capture_stop` (src/capture.cpp).
use mathlib.Core.List.{Memᴰ}
use linux_web_audio_capture.Base.{
  true, false, ◌≡◌, refl, sym, ◌∙◌, ap, subst, inl, inr, arith, none, List,
}
use linux_web_audio_capture.CondVar.{Event}
use linux_web_audio_capture.Format.{Status}
use linux_web_audio_capture.Control
use linux_web_audio_capture.Control.{
  Control, ContextState, context_terminated, Connect, Init, returned, process_terminated, Server,
  resolve_target,
}
use linux_web_audio_capture.Control.Lifecycle.{no_restart}
use linux_web_audio_capture.Capture.{Capture}
use linux_web_audio_capture.Api.{started, is_ok, with_control, with_target, start, StopAct, stop}
use linux_web_audio_capture.Api.Starting.{start_of_idle}
use linux_web_audio_capture.Api.Stopping.{stop_lem}

-- A start whose control resolves no target fails.
with_control_failing :
    (s : Server) (ds : List ContextState) (c : Capture) (i : Init) {status : Status} {c' : Capture}
    → ((st : Status) (k : Control)
        → i ≡ returned st k
        → (resolve_target s c.requested_sink k).1 ≡ none)
    → with_control s ds c i ≡ started status c'
    → is_ok status ≡ false
unfolding with_control with_target
with_control_failing s ds c process_terminated none_found h = cc
with_control_failing s ds c (returned st k) none_found h = ground (arith, none_found st k refl, h)

-- A handle that was connected cannot be started again once `weba_capture_stop` has joined its
-- thread, where libpulse reports the disconnection to the state callback: whatever status a later
-- `weba_capture_start` returns, it is not `WEBA_OK`.
pub restart_fails :
    (e : Connect) (s : Server) (es : List (Event StopAct)) (ds ds' : List ContextState)
    (c : Capture) {status : Status} {c' : Capture}
    → c.thread_abandoned ≡ false
    → c.control.ctx ≡ true
    → Memᴰ context_terminated ds
    → (stop es ds c).thread_abandoned ≡ false
    → start e s ds' (stop es ds c) ≡ started status c'
    → is_ok status ≡ false
restart_fails e s es ds ds' c fresh connected m joined h = elim (stop_lem es ds c fresh).3 [
  | inl (_, idle, released) ↦
      with_control_failing s ds' (stop es ds c) (Control.init e (stop es ds c).control)
        (λ st k i.
          ap (λ p. p.1)
            (no_restart s (stop es ds c).requested_sink ds e c.control connected m
              (subst (λ control. Control.init e control ≡ returned st k) released i)))
        (sym (start_of_idle e s ds' (stop es ds c) idle) ∙ h)
  | inr (abandoned, _, _, _, _) ↦ cc (abandoned, joined)
]
