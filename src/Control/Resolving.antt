-- ===== src/Control/Resolving.antt =====
-- `resolve_target` of src/pulse_control.cpp: which sink and monitor it gives, and what it reports
-- where it gives none.
use linux_web_audio_capture.Base.{
  true, false, ◌&&◌, ◌≡◌, refl, ◌⊎◌, inl, inr, ◌∙◌, sym, arith, Option, none, some, ◌++◌, Bytes,
  bytes, empty, Bool-cases,
}
use linux_web_audio_capture.Format.{Target}
use linux_web_audio_capture.Alarm.{bounded}
use linux_web_audio_capture.Alarm.Delivery.{first_offer, first_offer_inv, outcome}
use linux_web_audio_capture.Control.Queries.{
  QueryResult, ServerReply, SinkReply, null_server_info, server_info, lookup_failed, end_of_list,
  null_sink_info, sink_info, server_offer, sink_offer, Query, not_issued, issued, Found, found,
  not_found, of_waited, server_query, sink_query, server_query_lem, sink_query_lem,
}
use linux_web_audio_capture.Control.{
  Control, Server, set_error, ready, query_default_sink, query_monitor, with_monitor, with_default,
  resolve_target,
}

-- The first answer to a query is a success with value `v`.
abbrev pub Answers : {R : Type 0} → (R → Option QueryResult) → Query R → Bytes → Type 0
Answers offer (not_issued text) v = ⊥
Answers offer (issued es) v =
    (r : QueryResult) × (first_offer offer es ≡ some r) × (r.success ≡ true) × (r.value ≡ v)

of_outcome :
    {R : Type 0} (offer : R → Option QueryResult) (late : Bytes) (o : Option QueryResult)
    (v : Bytes)
    → of_waited late (outcome offer bounded o) ≡ found v
    → (r : QueryResult) × (o ≡ some r) × (r.success ≡ true) × (r.value ≡ v)
of_outcome offer late none v h = cc
of_outcome offer late (some r) v h = (r, refl, ground arith, ground arith)

server_found :
    (q : Query ServerReply) (v : Bytes) → server_query q ≡ found v → Answers server_offer q v
unfolding server_query
server_found (not_issued text) v h = cc
server_found (issued es) v h =
    of_outcome server_offer (bytes "timed out querying the default sink")
      (first_offer server_offer es) v (sym (server_query_lem es) ∙ h)

sink_found :
    (sink : Bytes) (q : Query SinkReply) (v : Bytes)
    → sink_query sink q ≡ found v
    → Answers sink_offer q v
unfolding sink_query
sink_found sink (not_issued text) v h = cc
sink_found sink (issued es) v h =
    of_outcome sink_offer (bytes "timed out looking up sink '" ++ (sink ++ bytes "'"))
      (first_offer sink_offer es) v (sym (sink_query_lem sink es) ∙ h)

-- A message is reported with every failure.
HasMessage : QueryResult → Type 0
HasMessage r = r.success ≡ false → empty r.error ≡ false

server_offer-HasMessage :
    (c : ServerReply) (r : QueryResult) → server_offer c ≡ some r → HasMessage r
unfolding HasMessage
server_offer-HasMessage null_server_info r h = λ _. ground arith
server_offer-HasMessage (server_info none) r h = λ _. ground arith
server_offer-HasMessage (server_info (some name)) r h = λ f. absurd (ground arith)

sink_offer-HasMessage : (c : SinkReply) (r : QueryResult) → sink_offer c ≡ some r → HasMessage r
unfolding HasMessage
sink_offer-HasMessage (lookup_failed text) r h = λ _. ground arith
sink_offer-HasMessage end_of_list r h = cc
sink_offer-HasMessage null_sink_info r h = λ _. ground arith
sink_offer-HasMessage (sink_info none) r h = λ _. ground arith
sink_offer-HasMessage (sink_info (some monitor)) r h = λ f. absurd (ground arith)

of_outcome-message :
    {R : Type 0} (offer : R → Option QueryResult) (late : Bytes) (o : Option QueryResult)
    (m : Bytes)
    → empty late ≡ false
    → ((r : QueryResult) → o ≡ some r → HasMessage r)
    → of_waited late (outcome offer bounded o) ≡ not_found m
    → empty m ≡ false
unfolding HasMessage
of_outcome-message offer late none m l all h = ground arith
of_outcome-message offer late (some r) m l all h = ground (arith, all r refl)

server_not_found :
    (q : Query ServerReply) (m : Bytes) → server_query q ≡ not_found m → empty m ≡ false
unfolding server_query
server_not_found (not_issued text) m h = ground arith
server_not_found (issued es) m h =
    of_outcome-message server_offer (bytes "timed out querying the default sink")
      (first_offer server_offer es) m refl
      (λ r. first_offer_inv server_offer HasMessage server_offer-HasMessage es r)
      (sym (server_query_lem es) ∙ h)

sink_not_found :
    (sink : Bytes) (q : Query SinkReply) (m : Bytes)
    → sink_query sink q ≡ not_found m
    → empty m ≡ false
unfolding sink_query
sink_not_found sink (not_issued text) m h = ground arith
sink_not_found sink (issued es) m h =
    of_outcome-message sink_offer (bytes "timed out looking up sink '" ++ (sink ++ bytes "'"))
      (first_offer sink_offer es) m refl
      (λ r. first_offer_inv sink_offer HasMessage sink_offer-HasMessage es r)
      (sym (sink_query_lem sink es) ∙ h)

-- What a resolved target means. A sink that was asked for by name is taken as it is; otherwise the
-- sink is the default that the server reported first, and not empty. The monitor is what the server
-- first reported for that sink.
pub record Resolved (s : Server) (requested : Bytes) (c : Control) (t : Target) : Type 0 where
  pub connected : (c.ctx ≡ true) × (ready c ≡ true)
  pub named : empty requested ≡ false → t.sink ≡ requested
  pub default :
      empty requested ≡ true → Answers server_offer s.default_sink t.sink × (empty t.sink ≡ false)
  pub monitored : Answers sink_offer (s.sink_info t.sink) t.monitor

monitor_cases :
    (s : Server) (sink : Bytes) (c : Control)
    → ((monitor : Bytes) × (with_monitor sink (query_monitor (s.sink_info sink) sink c)
          ≡ (c, some (record { sink = sink; monitor = monitor })))
        × Answers sink_offer (s.sink_info sink) monitor)
      ⊎ ((m : Bytes) × (with_monitor sink (query_monitor (s.sink_info sink) sink c)
            ≡ (set_error m c, none))
          × (empty m ≡ false))
unfolding query_monitor with_monitor
monitor_cases s sink c = go (sink_query sink (s.sink_info sink)) refl
  where
    go :
        (f : Found)
        → sink_query sink (s.sink_info sink) ≡ f
        → ((monitor : Bytes) × (with_monitor sink (query_monitor (s.sink_info sink) sink c)
              ≡ (c, some (record { sink = sink; monitor = monitor })))
            × Answers sink_offer (s.sink_info sink) monitor)
          ⊎ ((m : Bytes) × (with_monitor sink (query_monitor (s.sink_info sink) sink c)
                ≡ (set_error m c, none))
              × (empty m ≡ false))
    go (found v) e = inl (v, rw e, sink_found sink (s.sink_info sink) v e)
    go (not_found m) e = inr (m, rw e, sink_not_found sink (s.sink_info sink) m e)

default_cases :
    (s : Server) (c : Control)
    → ((sink : Bytes) × (query_default_sink s.default_sink c ≡ (c, some sink))
        × Answers server_offer s.default_sink sink)
      ⊎ ((m : Bytes) × (query_default_sink s.default_sink c ≡ (set_error m c, none))
          × (empty m ≡ false))
unfolding query_default_sink
default_cases s c = go (server_query s.default_sink) refl
  where
    go :
        (f : Found)
        → server_query s.default_sink ≡ f
        → ((sink : Bytes) × (query_default_sink s.default_sink c ≡ (c, some sink))
            × Answers server_offer s.default_sink sink)
          ⊎ ((m : Bytes) × (query_default_sink s.default_sink c ≡ (set_error m c, none))
              × (empty m ≡ false))
    go (found v) e = inl (v, rw e, server_found s.default_sink v e)
    go (not_found m) e = inr (m, rw e, server_not_found s.default_sink m e)

-- `resolve_target` either gives a target that the server reported over a connection that is ready,
-- and leaves the control as it was, or gives none and stores a message that is not empty.
pub resolve_target_lem :
    (s : Server) (requested : Bytes) (c : Control)
    → ((t : Target) × (resolve_target s requested c ≡ (c, some t)) × Resolved s requested c t)
      ⊎ ((m : Bytes) × (resolve_target s requested c ≡ (set_error m c, none)) × (empty m ≡ false))
unfolding resolve_target with_default
resolve_target_lem s requested c = elim (Bool-cases (c.ctx && ready c)) [
  | inr down ↦ inr (bytes "not connected to the audio server", ground arith, refl)
  | inl up ↦ elim (Bool-cases (empty requested)) [
    | inr named ↦ elim (monitor_cases s requested c) [
      | inl (v, e, a) ↦ inl (
        record { sink = requested; monitor = v },
        ground arith,
        record {
          connected = ground arith;
          named = λ _. refl;
          default = λ f. absurd (ground arith);
          monitored = a;
        },
      )
      | inr (m, e, n) ↦ inr (m, ground arith, n)
    ]
    | inl unnamed ↦ elim (default_cases s c) [
      | inr (m, e, n) ↦ inr (m, ground arith, n)
      | inl (sink, e, a) ↦ elim (Bool-cases (empty sink)) [
        | inl z ↦ inr (bytes "audio server reports an empty default sink", ground arith, refl)
        | inr nz ↦ elim (monitor_cases s sink c) [
          | inl (v, e', a') ↦ inl (
            record { sink = sink; monitor = v },
            ground arith,
            record {
              connected = ground arith;
              named = λ f. absurd (ground arith);
              default = λ _. (a, nz);
              monitored = a';
            },
          )
          | inr (m, e', n) ↦ inr (m, ground arith, n)
        ]
      ]
    ]
  ]
]
