-- ===== src/Api/Abandoned.antt =====
-- Starting a capture of src/capture.cpp again after a stop that gave its thread up.
use linux_web_audio_capture.Base.{true, false, ◌≡◌, refl, ap, ◌∙◌, inl, inr, List}
use linux_web_audio_capture.CondVar.{Event}
use linux_web_audio_capture.Control.{ContextState, Connect, Server}
use linux_web_audio_capture.Control.Lifecycle.{Accepts, init_over_thread}
use linux_web_audio_capture.Capture.{Capture}
use linux_web_audio_capture.Api.{
  start_terminated, with_control, start, StopAct, thread_ends, stop_act, stop,
}
use linux_web_audio_capture.Api.Starting.{start_of_idle}
use linux_web_audio_capture.Api.Stopping.{stop_lem}

-- A start after a stop that gave the thread up ends the process. Where the thread of a connected
-- capture was abandoned by `weba_capture_stop` and has ended since, `weba_capture_start` connects
-- again although the control was not shut down, and assigns over its joinable thread, if the server
-- accepts the request.
pub start_after_abandoned :
    (e : Connect) (s : Server) (es : List (Event StopAct)) (ds ds' : List ContextState)
    (c : Capture)
    → c.thread_abandoned ≡ false
    → c.control.thread ≡ true
    → (stop es ds c).thread_abandoned ≡ true
    → Accepts e
    → start e s ds' (stop_act thread_ends (stop es ds c)) ≡ start_terminated
unfolding stop_act with_control
start_after_abandoned e s es ds ds' c fresh connected abandoned a =
    elim (stop_lem es ds c fresh).3 [
      | inl (joined, _, _) ↦ cc (joined, abandoned)
      | inr (_, _, _, kept, _) ↦
          let ended = stop_act thread_ends (stop es ds c) in
          let over =
            init_over_thread e (stop es ds c).control a (ap (λ k. k.thread) kept ∙ connected) in
          start_of_idle e s ds' ended refl ∙ ap (with_control s ds' ended) over
    ]
