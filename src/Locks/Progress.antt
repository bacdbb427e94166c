-- ===== src/Locks/Progress.antt =====
-- The operations of the library do not deadlock on its mutexes: whoever holds the last of the mutexes that are
-- held, in their order, can go on.
use linux_web_audio_capture.Base.{
  ℕ, zero, suc, ◌+◌, ◌≤◌, ◌<◌, Bool, true, ◌||◌, ◌==◌, ◌≡◌, refl, ◌⊎◌, inl, inr, arith, subst,
  Bool-cases, Option, none, some, List, [], ◌∷◌, length,
}
use linux_web_audio_capture.Locks.{
  Lock, Action, acquires, releases, Op, Thread, rank, holds, is_held, give_up, advance, replace,
  keep, turn_in, turn, begin, stay, run,
}
use linux_web_audio_capture.Locks.Order.{
  Below, Fine, AllFine, AllFineIf, Fine-starts, turn_in-AllFineIf,
}

-- Thread `n` can move.
CanMove : List Thread → List Thread → Type 0
CanMove all ts = (n : ℕ) × ((ts' : List Thread) × (turn_in all n ts ≡ some ts'))

moves_first :
    (all : List Thread) (t t' : Thread) (ts : List Thread)
    → advance all t.held t.rest ≡ some t'
    → CanMove all (t ∷ ts)
unfolding CanMove turn_in
moves_first all t t' ts e = (0, (t' ∷ ts, rw e (unfold replace in refl)))

moves_later :
    (all : List Thread) (t : Thread) (ts : List Thread) → CanMove all ts → CanMove all (t ∷ ts)
unfolding CanMove turn_in
moves_later all t ts (n, (ts', e)) = (suc n, (t ∷ ts', rw e (unfold keep in refl)))

-- The mutexes that a thread holds come before one that it is about to take.
Fine-acquires :
    (l : Lock) (hs : List Lock) (p : List Action) → Fine hs (acquires l ∷ p) → Below l hs
Fine-acquires l [] p (b, h) = b
Fine-acquires l (m ∷ hs) p (b, h) = b

-- A thread is done, can move, or wants a mutex that is held, which comes after those that it holds.
ways_of :
    (all : List Thread) (hs : List Lock) (p : List Action)
    → Fine hs p
    → ((hs ≡ []) × (p ≡ []))
      ⊎ ((t' : Thread) × (advance all hs p ≡ some t'))
      ⊎ ((m : Lock) × ((is_held m all ≡ true) × Below m hs))
unfolding advance
ways_of all [] [] h = inl (refl, refl)
ways_of all (m ∷ hs) [] h = absurd h
ways_of all hs (acquires l ∷ p) h = elim (Bool-cases (is_held l all)) [
  | inl e ↦ inr (inr (l, (e, Fine-acquires l hs p h)))
  | inr e ↦ inr (inl (record { held = l ∷ hs; rest = p }, rw e refl))
]
ways_of all hs (releases l ∷ p) h = inr (inl (record { held = give_up l hs; rest = p }, refl))

holds-Below : (l m : Lock) (hs : List Lock) → holds l hs ≡ true → Below m hs → rank l < rank m
holds-Below l m [] e b = cc e
holds-Below l m (h ∷ hs) e (b, bs) = elim (Bool-cases (rank h == rank l)) [
  | inl e' ↦ ground (arith, e', b)
  | inr e' ↦ holds-Below l m hs (subst (λ (c : Bool). (c || holds l hs) ≡ true) e' e) bs
]

holds_none : (l : Lock) → ¬ (holds l [] ≡ true)
holds_none l e = cc e

-- A holder of `l` can move, or wants a later mutex that is held.
holder_ways :
    (all : List Thread) (l : Lock) (ts : List Thread)
    → AllFine ts
    → is_held l ts ≡ true
    → CanMove all ts ⊎ ((m : Lock) × ((is_held m all ≡ true) × (rank l < rank m)))
holder_ways all l [] h e = cc e
holder_ways all l (t ∷ ts) (h, hs) e = elim (Bool-cases (holds l t.held)) [
  | inl e' ↦ elim (ways_of all t.held t.rest h) [
    | inl (none_held, _) ↦ absurd (holds_none l (subst (λ ks. holds l ks ≡ true) none_held e'))
    | inr (inl (t', moves)) ↦ inl (moves_first all t t' ts moves)
    | inr (inr (m, (held, below))) ↦ inr (m, (held, holds-Below l m t.held e' below))
  ]
  | inr e' ↦
      elim (holder_ways all l ts hs (subst (λ (c : Bool). (c || is_held l ts) ≡ true) e' e)) [
        | inl moves ↦ inl (moves_later all t ts moves)
        | inr later ↦ inr later
      ]
]

rank_bound : (l : Lock) → rank l < 8
rank_bound l = elim l as (λ k. rank k < 8) [
  | Lock.stop_lock ↦ omega arith
  | Lock.format_lock ↦ omega arith
  | Lock.error_lock ↦ omega arith
  | Lock.queue_lock ↦ omega arith
  | Lock.alarm_lock ↦ omega arith
  | Lock.state_lock ↦ omega arith
  | Lock.control_error_lock ↦ omega arith
  | Lock.write_lock ↦ omega arith
]

-- From a mutex that is held, from holder to holder, there is one that can move.
chase :
    (n : ℕ) (ts : List Thread) (l : Lock)
    → AllFine ts
    → is_held l ts ≡ true
    → 8 ≤ rank l + n
    → CanMove ts ts
chase zero ts l h e b = absurd (omega (arith, rank_bound l))
chase (suc n) ts l h e b = elim (holder_ways ts l ts h e) [
  | inl moves ↦ moves
  | inr (m, (held, later)) ↦ chase n ts m h held (omega arith)
]

-- Every thread is done.
abbrev pub AllDone : List Thread → Type 0
AllDone [] = Unit {0}
AllDone (t ∷ ts) = ((t.held ≡ []) × (t.rest ≡ [])) × AllDone ts

all_ways :
    (all ts : List Thread)
    → AllFine ts
    → AllDone ts ⊎ CanMove all ts ⊎ ((m : Lock) × (is_held m all ≡ true))
all_ways all [] h = inl tt
all_ways all (t ∷ ts) (h, hs) = elim (ways_of all t.held t.rest h) [
  | inr (inl (t', moves)) ↦ inr (inl (moves_first all t t' ts moves))
  | inr (inr (m, (held, below))) ↦ inr (inr (m, held))
  | inl done ↦ elim (all_ways all ts hs) [
    | inl dones ↦ inl (done, dones)
    | inr (inl moves) ↦ inr (inl (moves_later all t ts moves))
    | inr (inr held) ↦ inr (inr held)
  ]
]

AllFine-begin : (plans : List (List Op)) → AllFine (begin plans)
AllFine-begin [] = tt
AllFine-begin (os ∷ plans) = (Fine-starts os, AllFine-begin plans)

stay-AllFine :
    (ts : List Thread) (o : Option (List Thread)) → AllFine ts → AllFineIf o → AllFine (stay ts o)
stay-AllFine ts none h h' = h
stay-AllFine ts (some us) h h' = h'

run-AllFine : (ns : List ℕ) (ts : List Thread) → AllFine ts → AllFine (run ns ts)
unfolding turn
run-AllFine [] ts h = h
run-AllFine (n ∷ ns) ts h =
    run-AllFine ns (stay ts (turn n ts))
      (stay-AllFine ts (turn n ts) h (turn_in-AllFineIf ts n ts h))

done_or_moves :
    (ts : List Thread)
    → AllFine ts
    → AllDone ts ⊎ ((n : ℕ) × ((ts' : List Thread) × (turn n ts ≡ some ts')))
unfolding turn CanMove
done_or_moves ts h = elim (all_ways ts ts h) [
  | inl done ↦ inl done
  | inr (inl moves) ↦ inr moves
  | inr (inr (m, held)) ↦ inr (chase 8 ts m h held (omega arith))
]

-- A turn that succeeds is one action less to do.
abbrev work : List Thread → ℕ
work [] = 0
work (t ∷ ts) = length t.rest + work ts

abbrev LessBy : ℕ → Option (List Thread) → Type 0
LessBy n none = Unit {0}
LessBy n (some us) = n ≡ suc (work us)

replace-LessBy :
    (all : List Thread) (hs : List Lock) (p : List Action) (ts : List Thread)
    → LessBy (length p + work ts) (replace (advance all hs p) ts)
unfolding replace advance
replace-LessBy all hs [] ts = tt
replace-LessBy all hs (acquires l ∷ p) ts = elim (Bool-cases (is_held l all)) [
  | inl e ↦ rw e tt
  | inr e ↦ rw e (omega arith)
]
replace-LessBy all hs (releases l ∷ p) ts = omega arith

keep-LessBy :
    (n : ℕ) (t : Thread) (o : Option (List Thread))
    → LessBy n o
    → LessBy (length t.rest + n) (keep t o)
unfolding keep
keep-LessBy n t none h = tt
keep-LessBy n t (some us) h = omega (arith, h)

turn_in-LessBy :
    (all : List Thread) (n : ℕ) (ts : List Thread) → LessBy (work ts) (turn_in all n ts)
unfolding turn_in
turn_in-LessBy all n [] = tt
turn_in-LessBy all zero (t ∷ ts) = replace-LessBy all t.held t.rest ts
turn_in-LessBy all (suc n) (t ∷ ts) =
    keep-LessBy (work ts) t (turn_in all n ts) (turn_in-LessBy all n ts)

-- With as many turns as there are actions left, every thread gets to its end.
finish : (k : ℕ) (ts : List Thread) → work ts ≤ k → AllFine ts → (ns : List ℕ) × AllDone (run ns ts)
unfolding turn
finish zero ts b h = elim (done_or_moves ts h) [
  | inl done ↦ ([], done)
  | inr (n, (us, e)) ↦
      absurd (omega (arith, b, subst (LessBy (work ts)) e (turn_in-LessBy ts n ts)))
]
finish (suc k) ts b h = elim (done_or_moves ts h) [
  | inl done ↦ ([], done)
  | inr (n, (us, e)) ↦
      let less = subst (LessBy (work ts)) e (turn_in-LessBy ts n ts) in
      let fine = subst AllFineIf e (turn_in-AllFineIf ts n ts h) in
      let (ns, done) = finish k us (omega (arith, b, less)) fine in (n ∷ ns, rw e done)
]

-- The mutexes do not deadlock. Any number of threads perform any operations one after the other,
-- each action on a mutex in a turn of its thread; after any turns there are further turns in which
-- every thread comes to the end of its operations and holds no mutex. Waits on a condition variable
-- sleep any number of times that is fixed beforehand, and all other waiting, such as for the end of
-- a thread, is left out.
pub no_deadlock :
    (plans : List (List Op)) (ns : List ℕ)
    → (more : List ℕ) × AllDone (run more (run ns (begin plans)))
no_deadlock plans ns =
    let reached = run ns (begin plans) in
    finish (work reached) reached (omega arith) (run-AllFine ns (begin plans) (AllFine-begin plans))
