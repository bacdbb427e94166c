-- ===== src/Control/Lifecycle.antt =====
-- `init` and `shutdown` of src/pulse_control.cpp: what they leave behind, and what a control that was
-- shut down or that failed to connect is still good for.
use mathlib.Core.List.{Memᴰ}
use linux_web_audio_capture.Base.{
  true, false, ◌≡◌, refl, ◌⊎◌, arith, none, List, [], ◌∷◌, Bytes, bytes, empty,
}
use linux_web_audio_capture.CondVar.{Event, other, wake, await, wait_for, wait_for_inv}
use linux_web_audio_capture.Format.{Status, ok, err_pulse}
use linux_web_audio_capture.Control.{
  Control, ContextState, context_ready, context_failed, context_terminated, context_other,
  state_callback, callbacks, Connect, returned, process_terminated, init, shutdown, set_error,
  ready, connecting_over, Server, resolve_target,
}

-- The handles of a control are those of another.
abbrev SameHandles : Control → Control → Type 0
SameHandles d c = (c.mainloop ≡ d.mainloop) × (c.ctx ≡ d.ctx) × (c.thread ≡ d.thread)

state_callback-SameHandles :
    (d : Control) (s : ContextState) (c : Control)
    → SameHandles d c
    → SameHandles d (state_callback s c)
unfolding state_callback
state_callback-SameHandles d s c h = ground arith

callbacks-SameHandles :
    (d : Control) (ss : List ContextState) (c : Control)
    → SameHandles d c
    → SameHandles d (callbacks ss c)
unfolding callbacks
callbacks-SameHandles d [] c h = h
callbacks-SameHandles d (s ∷ ss) c h =
    callbacks-SameHandles d ss (state_callback s c) (state_callback-SameHandles d s c h)

wait-SameHandles :
    (es : List (Event ContextState)) (c : Control)
    → SameHandles c (wait_for connecting_over state_callback es c).0
wait-SameHandles es c =
    wait_for_inv (SameHandles c) connecting_over state_callback (state_callback-SameHandles c) es c
      (refl, refl, refl)

-- Where `init` returns, it was successful and leaves a context, a running main loop and a
-- connection that became ready, or it failed with `WEBA_ERR_PULSE` and stores a message that is not
-- empty.
pub init_lem :
    (e : Connect) (c : Control) {s : Status} {c' : Control}
    → init e c ≡ returned s c'
    → ((s ≡ ok)
        × (c'.mainloop ≡ true)
        × (c'.ctx ≡ true)
        × (c'.thread ≡ true)
        × (c'.is_ready ≡ true))
      ⊎ ((s ≡ err_pulse) × (empty c'.error ≡ false))
unfolding init
init_lem e c h = ground (
  arith,
  callbacks-SameHandles (record c { mainloop = true; ctx = true }) e.during_connect
      (record c { mainloop = true; ctx = true }) (refl, refl, refl),
  wait-SameHandles e.during_wait
      (record (callbacks e.during_connect (record c { mainloop = true; ctx = true })) {
        thread = true;
      }),
)

-- `shutdown` releases the main loop, the context and the thread, and is no longer ready, whatever
-- is reported during the disconnect; a second one changes nothing.
pub shutdown_lem :
    (ds ds' : List ContextState) (c : Control)
    → let c' = shutdown ds c in
      (c'.mainloop ≡ false)
      × (c'.ctx ≡ false)
      × (c'.thread ≡ false)
      × (c'.is_ready ≡ false)
      × (shutdown ds' c' ≡ c')
unfolding shutdown
shutdown_lem ds ds' c = ground (
  arith,
  callbacks-SameHandles (record c { thread = false }) ds (record c { thread = false })
      (refl, refl, refl),
)

-- `_terminated` is never reset.
abbrev IsTerminated : Control → Type 0
IsTerminated c = c.terminated ≡ true

state_callback-IsTerminated :
    (s : ContextState) (c : Control) → IsTerminated c → IsTerminated (state_callback s c)
unfolding state_callback
state_callback-IsTerminated s c h = ground arith

callbacks-IsTerminated :
    (ss : List ContextState) (c : Control) → IsTerminated c → IsTerminated (callbacks ss c)
unfolding callbacks
callbacks-IsTerminated [] c h = h
callbacks-IsTerminated (s ∷ ss) c h =
    callbacks-IsTerminated ss (state_callback s c) (state_callback-IsTerminated s c h)

callbacks_terminate :
    (ss : List ContextState) (c : Control)
    → Memᴰ context_terminated ss
    → IsTerminated (callbacks ss c)
unfolding callbacks state_callback
callbacks_terminate [] c m = elim m [ ]
callbacks_terminate (s ∷ ss) c (Memᴰ.head e) =
    callbacks-IsTerminated ss (state_callback s c) (unfold state_callback in ground arith)
callbacks_terminate (s ∷ ss) c (Memᴰ.tail m) = callbacks_terminate ss (state_callback s c) m

init-IsTerminated :
    (e : Connect) (c : Control) {s : Status} {c' : Control}
    → IsTerminated c
    → init e c ≡ returned s c'
    → IsTerminated c'
unfolding init
init-IsTerminated e c t h = ground (
  arith,
  callbacks-IsTerminated e.during_connect (record c { mainloop = true; ctx = true }),
  wait_for_inv IsTerminated connecting_over state_callback state_callback-IsTerminated e.during_wait
      (record (callbacks e.during_connect (record c { mainloop = true; ctx = true })) {
        thread = true;
      }),
)

-- A control cannot be used again after `shutdown` disconnected a context, where libpulse reports
-- the disconnection to the state callback: whatever a later `init` returns, `resolve_target` says
-- that there is no connection, also when `init` succeeded.
pub no_restart :
    (s : Server) (requested : Bytes) (ds : List ContextState) (e : Connect) (c : Control)
    {status : Status} {c' : Control}
    → c.ctx ≡ true
    → Memᴰ context_terminated ds
    → init e (shutdown ds c) ≡ returned status c'
    → resolve_target s requested c'
      ≡ (set_error (bytes "not connected to the audio server") c', none)
unfolding resolve_target ready
no_restart s requested ds e c {status} {c'} up m h =
    ground (arith, init-IsTerminated e (shutdown ds c) {s = status} {c' = c'} gone h)
  where
    gone : IsTerminated (shutdown ds c)
    gone = unfold shutdown in ground (arith, callbacks_terminate ds (record c { thread = false }) m)

-- A server that lets a connection be made and then never reports that it is ready or has failed.
abbrev pub Unready : ContextState → Type 0
Unready context_ready = ⊥
Unready context_failed = ⊥
Unready context_terminated = Unit {0}
Unready context_other = Unit {0}

abbrev pub Silent : List (Event ContextState) → Type 0
Silent [] = Unit {0}
Silent (wake ∷ es) = Silent es
Silent (other s ∷ es) = Unready s × Silent es

abbrev IsWaiting : Control → Type 0
IsWaiting c = (c.thread ≡ true) × (c.is_ready ≡ false) × (c.failed ≡ false)

state_callback-IsWaiting :
    (s : ContextState) (c : Control) → Unready s → IsWaiting c → IsWaiting (state_callback s c)
unfolding state_callback
state_callback-IsWaiting context_ready c u h = absurd u
state_callback-IsWaiting context_failed c u h = absurd u
state_callback-IsWaiting context_terminated c u h = h
state_callback-IsWaiting context_other c u h = h

await-IsWaiting :
    (es : List (Event ContextState)) (c : Control)
    → Silent es
    → IsWaiting c
    → IsWaiting (await connecting_over state_callback es c).0
unfolding await
await-IsWaiting [] c q h = h
await-IsWaiting (other s ∷ es) c q h =
    await-IsWaiting es (state_callback s c) q.1 (state_callback-IsWaiting s c q.0 h)
await-IsWaiting (wake ∷ es) c q h = ground (arith, await-IsWaiting es c q h)

wait-IsWaiting :
    (es : List (Event ContextState)) (c : Control)
    → Silent es
    → IsWaiting c
    → IsWaiting (wait_for connecting_over state_callback es c).0
unfolding wait_for
wait-IsWaiting es c q h = ground (arith, await-IsWaiting es c q h)

-- Libpulse can make a main loop and a context, and `pa_context_connect` accepts the request and
-- reports nothing yet.
pub record Accepts (e : Connect) : Type 0 where
  pub mainloop : e.new_mainloop ≡ true
  pub context : e.new_context ≡ true
  pub accepted : e.refused ≡ none
  pub nothing_yet : e.during_connect ≡ []

-- An `init` on a control whose main loop thread was not joined assigns over it.
pub init_over_thread :
    (e : Connect) (c : Control) → Accepts e → c.thread ≡ true → init e c ≡ process_terminated
unfolding init callbacks
init_over_thread e c a t = ground (arith, a.mainloop, a.context, a.accepted, a.nothing_yet, t)

-- An `init` on a control that never connected, with a server that accepts the request and then
-- stays silent, times out and leaves its thread running. Another `init` on that control, without a
-- `shutdown` between them, assigns over the joinable thread, which ends the process, if the server
-- accepts that request too.
pub init_after_timeout :
    (e e' : Connect) (c : Control)
    → Accepts e
    → Accepts e'
    → Silent e.during_wait
    → c.thread ≡ false
    → c.is_ready ≡ false
    → c.failed ≡ false
    → (c' : Control) × (init e c ≡ returned err_pulse c') × (init e' c' ≡ process_terminated)
unfolding init callbacks
init_after_timeout e e' c a a' q t r f = (
  set_error (bytes "timed out connecting to the audio server") waited,
  ground (arith, a.mainloop, a.context, a.accepted, a.nothing_yet, silent),
  init_over_thread e' (set_error (bytes "timed out connecting to the audio server") waited) a'
      silent.0,
)
  where
    started : Control
    started = record c { mainloop = true; ctx = true; thread = true }

    waited : Control
    waited = (wait_for connecting_over state_callback e.during_wait started).0

    silent : IsWaiting waited
    silent = wait-IsWaiting e.during_wait started q (refl, r, f)
