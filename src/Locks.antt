-- ===== src/Locks.antt =====
-- The mutexes of one handle of src/include and src/src, and the order in which operations take them. A program
-- is what one operation does to the mutexes: a wait on a condition variable gives its mutex up and takes it
-- again each time it sleeps, and whatever else an operation does is left out, waiting for the end of a thread
-- included. An operation that has several ways has a program for each. All alarms share one mutex here.
pub mod Order
pub mod Progress
mod Tests
use linux_web_audio_capture.Base.{
  ℕ, zero, suc, Bool, true, false, ◌||◌, ◌==◌, if◌then◌else◌, Option, none, some, List, [], ◌∷◌,
  ◌++◌,
}

-- The mutexes of a handle, of its control, of an alarm and of the log.
pub data Lock : Type 0 where
  stop_lock format_lock error_lock queue_lock alarm_lock state_lock control_error_lock write_lock :
      Lock

pub data Action : Type 0 where
  acquires releases : Lock → Action

abbrev pub once : Lock → List Action
once l = acquires l ∷ releases l ∷ []

-- A wait on a condition variable that sleeps `n` times, with its mutex held before and after.
abbrev pub sleeps : ℕ → Lock → List Action → List Action
sleeps zero l p = p
sleeps (suc n) l p = releases l ∷ acquires l ∷ sleeps n l p

abbrev pub waits : ℕ → Lock → List Action
waits n l = acquires l ∷ sleeps n l (releases l ∷ [])

-- `line_t::~line_t`
abbrev pub log_line : List Action
log_line = once write_lock

-- `frame_queue_t`
abbrev pub queue_push : List Action
queue_push = once queue_lock

abbrev pub queue_pop : ℕ → List Action
queue_pop n = waits n queue_lock

abbrev pub queue_close : List Action
queue_close = once queue_lock

-- `alarm_t`, the same for `ring` and `try_ring`
abbrev pub alarm_ring : List Action
alarm_ring = once alarm_lock

abbrev pub alarm_wait : ℕ → List Action
alarm_wait n = waits n alarm_lock

-- `control_t`
abbrev pub state_callback : List Action
state_callback = once state_lock

abbrev pub control_set_error : List Action
control_set_error = once control_error_lock ++ log_line

-- The end of `init`, which stores its message with `_state_lock` held if there is no connection.
abbrev pub init_connected : ℕ → List Action
init_connected n = waits n state_lock ++ log_line

abbrev pub init_failed : ℕ → List Action
init_failed n =
    acquires state_lock ∷ sleeps n state_lock (control_set_error ++ (releases state_lock ∷ []))

abbrev pub control_ready : List Action
control_ready = once state_lock

abbrev pub control_error : List Action
control_error = once control_error_lock

-- A query that was issued, answered or not.
abbrev pub query : ℕ → List Action
query n = alarm_wait n

abbrev pub query_failed : ℕ → List Action
query_failed n = alarm_wait n ++ control_set_error

abbrev pub shutdown : List Action
shutdown = once state_lock

-- `weba_capture`
abbrev pub set_error : List Action
set_error = once error_lock ++ log_line

abbrev pub get_error : List Action
get_error = once error_lock

-- `wait_for_stop` and `sleep_interruptible`
abbrev pub wait_for_stop : ℕ → List Action
wait_for_stop n = waits n stop_lock

-- `publish_format`, and `weba_capture_get_format`
abbrev pub publish_format : List Action
publish_format = once format_lock

-- `weba_capture_stop`: there is no thread, or it is joined, or it is abandoned.
abbrev pub ask_to_stop : List Action
ask_to_stop = once stop_lock ++ queue_close

abbrev pub stop_idle : List Action
stop_idle = ask_to_stop ++ shutdown

abbrev pub stop_joined : ℕ → List Action
stop_joined n = ask_to_stop ++ (waits n stop_lock ++ shutdown)

abbrev pub stop_abandoned : ℕ → List Action
stop_abandoned n = ask_to_stop ++ (waits n stop_lock ++ log_line)

-- The operations, and their ways.
pub data Op : Type 0 where
  logs pushes_frame closes_queue rings calls_back : Op
  sets_control_error gets_control_error asks_ready shuts_down : Op
  sets_error gets_error uses_format stops_idle : Op
  pops_frame waits_alarm connects fails_to_connect queries fails_query : ℕ → Op
  waits_for_stop stops abandons : ℕ → Op

abbrev pub program : Op → List Action
program logs = log_line
program pushes_frame = queue_push
program closes_queue = queue_close
program rings = alarm_ring
program calls_back = state_callback
program sets_control_error = control_set_error
program gets_control_error = control_error
program asks_ready = control_ready
program shuts_down = shutdown
program sets_error = set_error
program gets_error = get_error
program uses_format = publish_format
program stops_idle = stop_idle
program (pops_frame n) = queue_pop n
program (waits_alarm n) = alarm_wait n
program (connects n) = init_connected n
program (fails_to_connect n) = init_failed n
program (queries n) = query n
program (fails_query n) = query_failed n
program (waits_for_stop n) = wait_for_stop n
program (stops n) = stop_joined n
program (abandons n) = stop_abandoned n

-- A thread: the mutexes that it holds, the last taken first, and what is left of its operations.
pub record Thread : Type 0 where
  pub held : List Lock
  pub rest : List Action

-- A thread that is about to perform some operations.
abbrev pub starts : List Op → List Action
starts [] = []
starts (o ∷ os) = program o ++ starts os

-- The mutexes as numbers, in the order in which they are taken.
abbrev pub rank : Lock → ℕ
rank stop_lock = 0
rank format_lock = 1
rank error_lock = 2
rank queue_lock = 3
rank alarm_lock = 4
rank state_lock = 5
rank control_error_lock = 6
rank write_lock = 7

abbrev pub holds : Lock → List Lock → Bool
holds l [] = false
holds l (h ∷ hs) = rank h == rank l || holds l hs

abbrev pub is_held : Lock → List Thread → Bool
is_held l [] = false
is_held l (t ∷ ts) = holds l t.held || is_held l ts

abbrev pub give_up : Lock → List Lock → List Lock
give_up l [] = []
give_up l (h ∷ hs) = if rank h == rank l then hs else h ∷ give_up l hs

-- The next action of a thread, if it has one that does not block.
pub advance : List Thread → List Lock → List Action → Option Thread
advance all held [] = none
advance all held (acquires l ∷ rest) =
    if is_held l all then none else some (record { held = l ∷ held; rest = rest })
advance all held (releases l ∷ rest) = some (record { held = give_up l held; rest = rest })

-- A turn of thread `n`.
pub replace : Option Thread → List Thread → Option (List Thread)
replace none ts = none
replace (some t) ts = some (t ∷ ts)

pub keep : Thread → Option (List Thread) → Option (List Thread)
keep t none = none
keep t (some ts) = some (t ∷ ts)

pub turn_in : List Thread → ℕ → List Thread → Option (List Thread)
turn_in all n [] = none
turn_in all zero (t ∷ ts) = replace (advance all t.held t.rest) ts
turn_in all (suc n) (t ∷ ts) = keep t (turn_in all n ts)

pub turn : ℕ → List Thread → Option (List Thread)
turn n ts = turn_in ts n ts

-- Threads at the start of their operations, any number of each.
abbrev pub begin : List (List Op) → List Thread
begin [] = []
begin (os ∷ plans) = record { held = []; rest = starts os } ∷ begin plans

-- A run: the thread of each turn, where the turn of a thread that blocks, or is done, changes nothing.
abbrev pub stay : List Thread → Option (List Thread) → List Thread
stay ts none = ts
stay ts (some us) = us

abbrev pub run : List ℕ → List Thread → List Thread
run [] ts = ts
run (n ∷ ns) ts = run ns (stay ts (turn n ts))
