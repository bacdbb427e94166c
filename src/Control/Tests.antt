-- ===== src/Control/Tests.antt =====
-- The connection of src/pulse_control.cpp with a server that has one sink.
use linux_web_audio_capture.Base.{
  ◌+◌, true, false, ◌≡◌, refl, ◌⊎◌, arith, none, some, List, [], ◌∷◌, Bytes, bytes, empty,
}
use linux_web_audio_capture.CondVar.{other, wake, wait_for}
use linux_web_audio_capture.Format.{Target, ok, err_pulse}
use linux_web_audio_capture.Control.{
  Control, context_ready, state_callback, callbacks, Connect, returned, process_terminated, init,
  set_error, unconnected, Server, resolve_target,
}
use linux_web_audio_capture.Control.Queries.{
  issued, ServerReply, server_info, sink_info, end_of_list, QueryResult, server_offer, no_result,
}
use linux_web_audio_capture.Control.Resolving.{Resolved, resolve_target_lem}
use linux_web_audio_capture.CondVar.{Event}
use linux_web_audio_capture.Alarm.{wait, make_alarm, delivered, timed_out, bounded}
use linux_web_audio_capture.Alarm.Delivery.{try_offer}
use linux_web_audio_capture.Control.Lifetime.{
  uses, Memory, ring_at, allocate, release, run_callbacks, query, late_uses,
}
use linux_web_audio_capture.Control.Lifecycle.{Accepts, init_lem, init_after_timeout}

abbrev server : Server
server = record {
  default_sink = issued (wake ∷ other (server_info (some (bytes "speakers"))) ∷ []);
  sink_info = λ sink.
      issued (other (sink_info (some (bytes "speakers.monitor"))) ∷ other end_of_list ∷ wake ∷ []);
}

abbrev connected : Control
connected = record unconnected { mainloop = true; ctx = true; thread = true; is_ready = true }

resolve_target_lem_example :
    ((t : Target) × (resolve_target server [] connected ≡ (connected, some t))
      × Resolved server [] connected t)
    ⊎ ((m : Bytes) × (resolve_target server [] connected ≡ (set_error m connected, none))
        × (empty m ≡ false))
resolve_target_lem_example = resolve_target_lem server [] connected

-- A server that accepts the connection, and one that stays silent.
abbrev accepting : Connect
accepting = record {
  new_mainloop = true;
  new_context = true;
  refused = none;
  during_connect = [];
  during_wait = wake ∷ other context_ready ∷ wake ∷ [];
}

abbrev silent : Connect
silent = record accepting { during_wait = wake ∷ [] }

silent-Accepts : Accepts silent
silent-Accepts = record { mainloop = refl; context = refl; accepted = refl; nothing_yet = refl }

init_lem_example :
    ((ok ≡ ok)
      × (connected.mainloop ≡ true)
      × (connected.ctx ≡ true)
      × (connected.thread ≡ true)
      × (connected.is_ready ≡ true))
    ⊎ ((ok ≡ err_pulse) × (empty connected.error ≡ false))
unfolding init callbacks wait_for state_callback
init_lem_example = init_lem accepting unconnected refl

init_after_timeout_example :
    (c : Control) × (init silent unconnected ≡ returned err_pulse c)
    × (init silent c ≡ process_terminated)
init_after_timeout_example =
    init_after_timeout silent silent unconnected silent-Accepts silent-Accepts tt refl refl refl

-- The query for the default sink, answered only after its timeout.
abbrev unanswered : List (Event ServerReply)
unanswered = wake ∷ []

abbrev too_late : List ServerReply
too_late = server_info (some (bytes "speakers")) ∷ []

abbrev empty_memory : Memory QueryResult
empty_memory = record { alarm = none; bad_writes = 0 }

late_uses_example :
    let (w, m) = query server_offer no_result unanswered too_late empty_memory in
    (w ≡ (wait (try_offer server_offer) bounded unanswered (make_alarm no_result)).0)
    × (((v : QueryResult) × (w ≡ delivered v) × (m.bad_writes ≡ 0))
        ⊎ ((w ≡ timed_out) × (m.bad_writes ≡ 0 + uses server_offer too_late)))
late_uses_example = late_uses server_offer no_result unanswered too_late empty_memory (omega arith)

one_bad_write : (query server_offer no_result unanswered too_late empty_memory).1.bad_writes ≡ 1
unfolding query wait_for ring_at allocate release run_callbacks make_alarm
one_bad_write = refl
