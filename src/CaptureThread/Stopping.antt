-- ===== src/CaptureThread/Stopping.antt =====
-- How the capture thread (`capture_loop` of src/capture.cpp) ends.
use linux_web_audio_capture.Base.{
  ℕ, ◌≤◌, ◌<◌, true, false, suc, ◌≡◌, refl, sym, ap, ◌∙◌, ◌⊎◌, inl, inr, arith, List, [], ◌∷◌,
  length, Option-cases,
}
use linux_web_audio_capture.Capture.{Capture, publish_format}
use linux_web_audio_capture.Control.{resolve_target}
use linux_web_audio_capture.CaptureThread.{
  Place, at_top, resolving, opening, reading, rechecking, waiting, exiting, exited, Worker, Env, at,
  step, steps,
}

-- How many steps are left, at most, once the stop is requested.
abbrev pub steps_left : Place → ℕ
steps_left exited = 0
steps_left exiting = 1
steps_left waiting = 2
steps_left at_top = 2
steps_left rechecking = 3
steps_left reading = 4
steps_left (opening t) = 5
steps_left resolving = 6

at_nearer :
    (p : Place) (e : Env) (w : Worker) (c : Capture)
    → c.stop_requested ≡ true
    → let (w', c') = at p e w c in
      (c'.stop_requested ≡ true)
      × ((p ≡ exited → c.running ≡ false) → w'.place ≡ exited → c'.running ≡ false)
      × ((p ≡ exited) ⊎ (steps_left w'.place < steps_left p))
unfolding at publish_format
at_nearer at_top e w c h = ground arith
at_nearer resolving e w c h =
    ground (arith, Option-cases (resolve_target e.server c.requested_sink c.control).1)
at_nearer (opening t) e w c h = ground arith
at_nearer reading e w c h = ground arith
at_nearer rechecking e w c h = ground arith
at_nearer waiting e w c h = ground arith
at_nearer exiting e w c h = ground arith
at_nearer exited e w c h = ground arith

exited_of_none_left : (p : Place) → steps_left p ≤ 0 → p ≡ exited
exited_of_none_left exited h = refl
exited_of_none_left exiting h = absurd (omega arith)
exited_of_none_left waiting h = absurd (omega arith)
exited_of_none_left at_top h = absurd (omega arith)
exited_of_none_left rechecking h = absurd (omega arith)
exited_of_none_left reading h = absurd (omega arith)
exited_of_none_left (opening t) h = absurd (omega arith)
exited_of_none_left resolving h = absurd (omega arith)

fewer_left :
    (p p' : Place) (n : ℕ)
    → (p ≡ exited) ⊎ (steps_left p' < steps_left p)
    → (p ≡ exited → p' ≡ exited)
    → steps_left p ≤ suc n
    → steps_left p' ≤ n
fewer_left p p' n (inl e) keep h = omega (arith, ap steps_left (keep e))
fewer_left p p' n (inr l) keep h = omega (arith, l)

stays_exited :
    (p : Place) (e : Env) (w : Worker) (c : Capture)
    → p ≡ w.place
    → p ≡ exited
    → (at p e w c).0.place ≡ exited
unfolding at
stays_exited p e w c h x = rw x (sym h ∙ x)

-- Once a stop is requested, the thread is behind its loop after as many steps as its place has
-- left, six at most, whatever the environment answers, and `running` is false then, if it was false
-- already for a thread that had ended before. (A read which never returns takes no step: the thread
-- stays before it.)
pub stop_ends_thread :
    (es : List Env) (w : Worker) (c : Capture)
    → c.stop_requested ≡ true
    → (w.place ≡ exited → c.running ≡ false)
    → steps_left w.place ≤ length es
    → let (w', c') = steps es (w, c) in (w'.place ≡ exited) × (c'.running ≡ false)
unfolding steps step
stop_ends_thread [] w c h r n = let x = exited_of_none_left w.place n in (x, r x)
stop_ends_thread (e ∷ es) w c h r n =
    let (w', c') = at w.place e w c in
    let s = at_nearer w.place e w c h in
    stop_ends_thread es w' c' s.0 (s.1 r)
      (fewer_left w.place w'.place (length es) s.2 (stays_exited w.place e w c refl) n)
