-- ===== src/Api/Stopping.antt =====
-- What `weba_capture_stop` of src/capture.cpp leaves behind.
use linux_web_audio_capture.Base.{true, false, ◌≡◌, refl, ap, ◌∙◌, ◌⊎◌, inl, inr, arith, List, []}
use linux_web_audio_capture.CondVar.{Event, wait_for, wait_for_inv, wait_for_end}
use linux_web_audio_capture.FrameQueue
use linux_web_audio_capture.Control
use linux_web_audio_capture.Control.{ContextState}
use linux_web_audio_capture.Control.Lifecycle.{shutdown_lem}
use linux_web_audio_capture.Capture.{Capture, act, closes, pushes, reopens, requests_stop, ends}
use linux_web_audio_capture.Api.{
  StopAct, thread_ends, shares, stop_act, leave_thread, release, asked, has_ended, stop, destroy,
  freed, leaked,
}

-- What the wait of `stop` keeps: the stop stays requested, the queue closed, and the control, the
-- abandonment and the thread object are left to `stop`.
pub record Asked (c d : Capture) : Type 0 where
  pub requested : d.stop_requested ≡ true
  pub closed : d.queue.closed ≡ true
  pub control : d.control ≡ c.control
  pub abandoned : d.thread_abandoned ≡ c.thread_abandoned

closed-push :
    (q : FrameQueue.FrameQueue) (f : List _)
    → q.closed ≡ true
    → (FrameQueue.push q f).1.closed ≡ true
unfolding FrameQueue.push
closed-push q f h = ground arith

stop_act-Asked : (c : Capture) (a : StopAct) (d : Capture) → Asked c d → Asked c (stop_act a d)
unfolding stop_act act FrameQueue.close
stop_act-Asked c thread_ends d h = record {
  requested = h.requested;
  closed = h.closed;
  control = h.control;
  abandoned = h.abandoned;
}
stop_act-Asked c (shares (pushes f)) d h = record {
  requested = h.requested;
  closed = closed-push d.queue f h.closed;
  control = h.control;
  abandoned = h.abandoned;
}
stop_act-Asked c (shares reopens) d h = record {
  requested = h.requested;
  closed = h.closed;
  control = h.control;
  abandoned = h.abandoned;
}
stop_act-Asked c (shares requests_stop) d h = record {
  requested = refl;
  closed = h.closed;
  control = h.control;
  abandoned = h.abandoned;
}
stop_act-Asked c (shares ends) d h = record {
  requested = h.requested;
  closed = h.closed;
  control = h.control;
  abandoned = h.abandoned;
}
stop_act-Asked c (shares closes) d h = record {
  requested = h.requested;
  closed = refl;
  control = h.control;
  abandoned = h.abandoned;
}

asked-Asked : (c : Capture) → Asked c (asked c)
unfolding FrameQueue.close
asked-Asked c = record { requested = refl; closed = refl; control = refl; abandoned = refl }

-- The handle when the wait of `stop` for the thread is over.
abbrev pub waited : List (Event StopAct) → Capture → Capture
waited es c = (wait_for has_ended stop_act es (asked c)).0

pub waited-Asked : (es : List (Event StopAct)) (c : Capture) → Asked c (waited es c)
waited-Asked es c =
    wait_for_inv (Asked c) has_ended stop_act (stop_act-Asked c) es (asked c) (asked-Asked c)

-- After `weba_capture_stop` on a handle whose thread was not abandoned before, a stop is requested,
-- the queue is closed, and there is no joinable thread. Either the thread has ended (or there was
-- none), the handle does not run, and its control is shut down; or a thread still ran when the
-- whole wait was over, is abandoned, and the control is left alone.
pub stop_lem :
    (es : List (Event StopAct)) (ds : List ContextState) (c : Capture)
    → c.thread_abandoned ≡ false
    → let d = stop es ds c in
      (d.stop_requested ≡ true)
      × (d.queue.closed ≡ true)
      × (d.thread ≡ false)
      × (((d.thread_abandoned ≡ false)
            × (d.running ≡ false)
            × (d.control ≡ Control.shutdown ds c.control))
          ⊎ ((d.thread_abandoned ≡ true)
              × (c.thread ≡ true)
              × (d.running ≡ true)
              × (d.control ≡ c.control)
              × ((wait_for has_ended stop_act es (asked c)).1 ≡ [])))
unfolding stop leave_thread release FrameQueue.close
stop_lem es ds c h =
    let k = waited-Asked es c in
    ground (
      arith,
      k.requested,
      k.closed,
      k.control,
      k.abandoned,
      wait_for_end has_ended stop_act es (asked c),
    )

-- `weba_capture_destroy` on a handle whose thread was not abandoned before frees it only when the
-- stop has left no thread of the capture or of the control behind, and leaks it while the capture
-- thread still runs.
pub destroy_lem :
    (es : List (Event StopAct)) (ds : List ContextState) (c : Capture)
    → c.thread_abandoned ≡ false
    → ((destroy es ds c ≡ freed)
        × ((stop es ds c).thread ≡ false)
        × ((stop es ds c).running ≡ false)
        × ((stop es ds c).control.thread ≡ false))
      ⊎ ((destroy es ds c ≡ leaked (stop es ds c)) × ((stop es ds c).running ≡ true))
unfolding destroy
destroy_lem es ds c h = elim (stop_lem es ds c h).3 [
  | inl (joined, idle, released) ↦ inl (
    ground (arith, joined),
    (stop_lem es ds c h).2,
    idle,
    ap (λ k. k.thread) released ∙ (shutdown_lem ds [] c.control).2,
  )
  | inr (abandoned, _, runs, _, _) ↦ inr (ground (arith, abandoned), runs)
]
