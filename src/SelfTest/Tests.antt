-- ===== src/SelfTest/Tests.antt =====
-- A run of tests/webaudio_selftest.cpp against a server that works.
use linux_web_audio_capture.Base.{
  ℕ, zero, suc, ◌+◌, true, ◌≡◌, ◌≢◌, refl, sym, subst, inl, inr, arith, none, some, List, [], ◌∷◌,
  bytes, length, Bool-cases,
}
use linux_web_audio_capture.CondVar.{other, wake, wait_for}
use linux_web_audio_capture.Control
use linux_web_audio_capture.Control.{
  Control, Connect, Server, context_ready, unconnected, callbacks, state_callback,
}
use linux_web_audio_capture.Control.Queries.{
  issued, server_info, sink_info, end_of_list, server_query, sink_query, server_info_callback,
  sink_info_callback,
}
use linux_web_audio_capture.Alarm.{wait, make_alarm, collect, try_ring}
use linux_web_audio_capture.Capture.{Capture}
use linux_web_audio_capture.Capture.Read.{Round, sleep_us, next_deadline_after}
use linux_web_audio_capture.Api.{thread_ends, stop_act, has_ended, asked}
use linux_web_audio_capture.SelfTest.{World, main}
use linux_web_audio_capture.SelfTest.Reads.{Turn}
use linux_web_audio_capture.SelfTest.Streaming.{InTime, next_of}
use linux_web_audio_capture.SelfTest.Gaps.{turns_pushed, TurnsUnbroken}
use linux_web_audio_capture.SelfTest.Passing.{Healthy, main_passes}

abbrev accepting : Connect
accepting = record {
  new_mainloop = true;
  new_context = true;
  refused = none;
  during_connect = [];
  during_wait = other context_ready ∷ wake ∷ [];
}

abbrev server : Server
server = record {
  default_sink = issued (other (server_info (some (bytes "speakers"))) ∷ []);
  sink_info = λ sink. issued (other (sink_info (some (bytes "speakers.monitor"))) ∷ []);
}

-- It knows no sink by name.
abbrev unknowing : Server
unknowing = record server { sink_info = λ sink. issued (other end_of_list ∷ []) }

-- A call at `x` sleeps until its frame is due, 20 ms on, and a millisecond longer.
abbrev round_at : ℕ → Round
round_at x = record { before = []; now = x; during_pop = []; between = []; after = x }

abbrev turn_at : ℕ → Turn
turn_at x = record {
  before = [];
  entered = x;
  rounds = round_at x ∷ round_at (x + 21_000_000) ∷ [];
}

turns : ℕ → ℕ → List Turn
turns zero x = []
turns (suc n) x = turn_at x ∷ turns n (x + 20_000_000)

length-turns : (n x : ℕ) → length (turns n x) ≡ n
unfolding turns
length-turns zero x = refl
length-turns (suc n) x = omega (arith, length-turns n (x + 20_000_000))

turns-Unbroken : (n x : ℕ) → TurnsUnbroken (turns n x)
unfolding turns
turns-Unbroken zero x = tt
turns-Unbroken (suc n) x = (tt, (tt, tt, (tt, tt, tt)), turns-Unbroken n (x + 20_000_000))

pushed-turns : (n x : ℕ) → turns_pushed (turns n x) ≡ 0
unfolding turns
pushed-turns zero x = refl
pushed-turns (suc n) x = omega (arith, pushed-turns n (x + 20_000_000))

next-deadline :
    (x : ℕ) → next_of (x + 20_000_000) 20_000_000 (turn_at x).rounds ≡ x + 20_000_000 + 20_000_000
unfolding next_deadline_after
next-deadline x = ground arith

turns-InTime : (n x : ℕ) → InTime (x + 20_000_000) 20_000_000 (turns n x)
unfolding turns InTime sleep_us next_deadline_after
turns-InTime zero x = tt
turns-InTime (suc n) x = (
  tt,
  omega arith,
  ((tt, tt, tt), (tt, tt, tt), omega arith),
  subst (λ d. InTime d 20_000_000 (turns n (x + 20_000_000))) (sym (next-deadline x))
      (turns-InTime n (x + 20_000_000)),
)

abbrev world : World
world = record {
  room = λ n. true;
  connect = accepting;
  server = server;
  failed_start = [];
  bad_connect = accepting;
  bad_server = unknowing;
  bad_failed_start = [];
  turns = turns 50 3;
  in_time = true;
  during_stop = other thread_ends ∷ wake ∷ wake ∷ [];
  at_disconnect = [];
}

-- The thread ends before the wait of the stop is over.
world-ends : (c : Capture) → (wait_for has_ended stop_act world.during_stop (asked c)).1 ≢ []
unfolding wait_for stop_act
world-ends c h = elim (Bool-cases c.running) [ inl e ↦ cc (rw e at h) | inr e ↦ cc (rw e at h) ]

abbrev connected : Control
connected = record unconnected { mainloop = true; ctx = true; thread = true; is_ready = true }

world-Healthy : Healthy world
unfolding turns Control.init Control.resolve_target Control.ready callbacks state_callback wait_for
    Control.query_default_sink Control.query_monitor sink_query server_info_callback
    sink_info_callback make_alarm collect try_ring wait server_query
world-Healthy = record {
  rooms = λ n. refl;
  control = connected;
  target = record { sink = bytes "speakers"; monitor = bytes "speakers.monitor" };
  connected = refl;
  resolved = refl;
  monitor = refl;
  bad_control = connected;
  bad_connected = refl;
  unknown = refl;
  first = turn_at 3;
  rest = turns 49 20_000_003;
  turns = refl;
  fifty = length-turns 50 3;
  round = round_at 3;
  rounds = round_at 21_000_003 ∷ [];
  begins = refl;
  in_time = turns-InTime 50 3;
  unbroken = turns-Unbroken 50 3;
  few = omega (arith, pushed-turns 50 3);
  ends = world-ends;
}

main_passes_example : main world ≡ some 0
main_passes_example = main_passes world world-Healthy
