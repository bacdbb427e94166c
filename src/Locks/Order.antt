-- ===== src/Locks/Order.antt =====
-- The order of the mutexes, which every operation of src/include and src/src keeps, and which a step of any
-- thread keeps as well.
use linux_web_audio_capture.Base.{
  ℕ, zero, suc, ◌<◌, Bool, true, false, if◌then◌else◌, ◌≡◌, refl, arith, sym, subst, Option, none,
  some, List, [], ◌∷◌, ◌++◌,
}
use linux_web_audio_capture.Locks.{
  Lock, Action, acquires, releases, once, sleeps, waits, Op, program, stop_lock, state_lock,
  log_line, shutdown, control_set_error, ask_to_stop, logs, pushes_frame, closes_queue, rings,
  calls_back, sets_control_error, gets_control_error, asks_ready, shuts_down, sets_error,
  gets_error, uses_format, stops_idle, pops_frame, waits_alarm, connects, fails_to_connect, queries,
  fails_query, waits_for_stop, stops, abandons, Thread, starts, rank, is_held, give_up, advance,
  replace, keep, turn_in,
}

-- Mutexes that come before `l`.
abbrev pub Below : Lock → List Lock → Type 0
Below l [] = Unit {0}
Below l (h ∷ hs) = (rank h < rank l) × Below l hs

-- What is left takes mutexes in their order, releases the last one first, and ends without any.
abbrev pub Fine : List Lock → List Action → Type 0
Fine [] [] = Unit {0}
Fine (h ∷ hs) [] = ⊥
Fine hs (acquires l ∷ rest) = Below l hs × Fine (l ∷ hs) rest
Fine [] (releases l ∷ rest) = ⊥
Fine (h ∷ hs) (releases l ∷ rest) = (h ≡ l) × Fine hs rest

abbrev pub AllFine : List Thread → Type 0
AllFine [] = Unit {0}
AllFine (t ∷ ts) = Fine t.held t.rest × AllFine ts

Fine-append : (hs : List Lock) (p q : List Action) → Fine hs p → Fine [] q → Fine hs (p ++ q)
Fine-append [] [] q h h' = h'
Fine-append (l ∷ hs) [] q h h' = absurd h
Fine-append [] (acquires l ∷ p) q (b, h) h' = (b, Fine-append (l ∷ []) p q h h')
Fine-append (m ∷ hs) (acquires l ∷ p) q (b, h) h' = (b, Fine-append (l ∷ m ∷ hs) p q h h')
Fine-append [] (releases l ∷ p) q h h' = absurd h
Fine-append (m ∷ hs) (releases l ∷ p) q (e, h) h' = (e, Fine-append hs p q h h')

Fine-once : (l : Lock) → Fine [] (once l)
Fine-once l = (tt, (refl, tt))

Fine-sleeps : (n : ℕ) (l : Lock) (p : List Action) → Fine (l ∷ []) p → Fine (l ∷ []) (sleeps n l p)
Fine-sleeps zero l p h = h
Fine-sleeps (suc n) l p h = (refl, (tt, Fine-sleeps n l p h))

Fine-waits : (n : ℕ) (l : Lock) → Fine [] (waits n l)
Fine-waits n l = (tt, Fine-sleeps n l (releases l ∷ []) (refl, tt))

-- An operation that waits and then does `p`.
Fine-waits_then : (n : ℕ) (l : Lock) (p : List Action) → Fine [] p → Fine [] (waits n l ++ p)
Fine-waits_then n l p h = Fine-append [] (waits n l) p (Fine-waits n l) h

Fine-once_twice : (l m : Lock) → Fine [] (once l ++ once m)
Fine-once_twice l m = (tt, (refl, (tt, (refl, tt))))

Fine-stop : (p : List Action) → Fine [] p → Fine [] (ask_to_stop ++ p)
Fine-stop p h = (tt, (refl, (tt, (refl, h))))

Fine-program : (o : Op) → Fine [] (program o)
Fine-program logs = Fine-once _
Fine-program pushes_frame = Fine-once _
Fine-program closes_queue = Fine-once _
Fine-program rings = Fine-once _
Fine-program calls_back = Fine-once _
Fine-program sets_control_error = Fine-once_twice _ _
Fine-program gets_control_error = Fine-once _
Fine-program asks_ready = Fine-once _
Fine-program shuts_down = Fine-once _
Fine-program sets_error = Fine-once_twice _ _
Fine-program gets_error = Fine-once _
Fine-program uses_format = Fine-once _
Fine-program stops_idle = Fine-stop shutdown (Fine-once _)
Fine-program (pops_frame n) = Fine-waits n _
Fine-program (waits_alarm n) = Fine-waits n _
Fine-program (connects n) = Fine-waits_then n _ log_line (Fine-once _)
Fine-program (fails_to_connect n) = (
  tt,
  Fine-sleeps n state_lock _ ((omega arith, tt), (refl, ((omega arith, tt), (refl, (refl, tt))))),
)
Fine-program (queries n) = Fine-waits n _
Fine-program (fails_query n) = Fine-waits_then n _ control_set_error (Fine-once_twice _ _)
Fine-program (waits_for_stop n) = Fine-waits n _
Fine-program (stops n) =
    Fine-stop (waits n stop_lock ++ shutdown) (Fine-waits_then n stop_lock shutdown (Fine-once _))
Fine-program (abandons n) =
    Fine-stop (waits n stop_lock ++ log_line) (Fine-waits_then n stop_lock log_line (Fine-once _))

pub Fine-starts : (os : List Op) → Fine [] (starts os)
Fine-starts [] = tt
Fine-starts (o ∷ os) = Fine-append [] (program o) (starts os) (Fine-program o) (Fine-starts os)

-- A step keeps every thread fine.
abbrev pub FineIf : Option Thread → Type 0
FineIf none = Unit {0}
FineIf (some t) = Fine t.held t.rest

abbrev pub AllFineIf : Option (List Thread) → Type 0
AllFineIf none = Unit {0}
AllFineIf (some ts) = AllFine ts

unless-FineIf : (b : Bool) (t : Thread) → Fine t.held t.rest → FineIf (if b then none else some t)
unless-FineIf true t h = tt
unless-FineIf false t h = h

give_up_last : (l m : Lock) (hs : List Lock) → m ≡ l → give_up l (m ∷ hs) ≡ hs
give_up_last l m hs e = rw e (ground arith)

advance-FineIf :
    (all : List Thread) (hs : List Lock) (p : List Action) → Fine hs p → FineIf (advance all hs p)
unfolding advance
advance-FineIf all hs [] h = tt
advance-FineIf all [] (acquires l ∷ p) (b, h) =
    unless-FineIf (is_held l all) (record { held = l ∷ []; rest = p }) h
advance-FineIf all (m ∷ hs) (acquires l ∷ p) (b, h) =
    unless-FineIf (is_held l all) (record { held = l ∷ m ∷ hs; rest = p }) h
advance-FineIf all [] (releases l ∷ p) h = absurd h
advance-FineIf all (m ∷ hs) (releases l ∷ p) (e, h) =
    subst (λ ks. Fine ks p) (sym (give_up_last l m hs e)) h

replace-AllFineIf :
    (o : Option Thread) (ts : List Thread) → FineIf o → AllFine ts → AllFineIf (replace o ts)
unfolding replace
replace-AllFineIf none ts h hs = tt
replace-AllFineIf (some t) ts h hs = (h, hs)

keep-AllFineIf :
    (t : Thread) (o : Option (List Thread))
    → Fine t.held t.rest
    → AllFineIf o
    → AllFineIf (keep t o)
unfolding keep
keep-AllFineIf t none h hs = tt
keep-AllFineIf t (some ts) h hs = (h, hs)

pub turn_in-AllFineIf :
    (all : List Thread) (n : ℕ) (ts : List Thread) → AllFine ts → AllFineIf (turn_in all n ts)
unfolding turn_in
turn_in-AllFineIf all n [] h = tt
turn_in-AllFineIf all zero (t ∷ ts) (h, hs) =
    replace-AllFineIf (advance all t.held t.rest) ts (advance-FineIf all t.held t.rest h) hs
turn_in-AllFineIf all (suc n) (t ∷ ts) (h, hs) =
    keep-AllFineIf t (turn_in all n ts) h (turn_in-AllFineIf all n ts hs)
