-- ===== src/Control/Queries.antt =====
-- The two asynchronous queries of src/pulse_control.cpp: a callback on the main loop thread rings an
-- alarm, and the caller waits for it with a timeout.
use linux_web_audio_capture.Base.{
  Bool, true, false, if◌then◌else◌, Option, none, some, List, [], ◌++◌, Bytes, bytes, ◌≡◌, refl, ap,
}
use linux_web_audio_capture.CondVar.{Event}
use linux_web_audio_capture.Alarm.{
  Alarm, bounded, Waited, delivered, timed_out, still_waiting, make_alarm, wait,
}
use linux_web_audio_capture.Alarm.Delivery.{try_offer, first_offer, outcome, wait-first_offer}

-- `query_result_t`
pub record QueryResult : Type 0 where
  pub success : Bool
  pub value : Bytes
  pub error : Bytes

abbrev pub no_result : QueryResult
no_result = record { success = false; value = []; error = [] }

-- `failure`
abbrev pub failure : Bytes → QueryResult
failure message = record { success = false; value = []; error = message }

abbrev pub success_of : Bytes → QueryResult
success_of v = record { success = true; value = v; error = [] }

-- A call of `server_info_callback`: a null `info`, or one whose default sink name may be null.
pub data ServerReply : Type 0 where
  null_server_info : ServerReply
  server_info : Option Bytes → ServerReply

-- What the callback rings, always by `try_ring`.
abbrev pub server_offer : ServerReply → Option QueryResult
server_offer null_server_info = some (failure (bytes "audio server returned no server info"))
server_offer (server_info none) = some (failure (bytes "audio server reports no default sink"))
server_offer (server_info (some name)) = some (success_of name)

-- A call of `sink_info_callback`, by the sign of `eol`: an error with its text, the end of the list,
-- or a result. A result is a null `info`, or one whose monitor source name may be null.
pub data SinkReply : Type 0 where
  lookup_failed : Bytes → SinkReply
  end_of_list : SinkReply
  null_sink_info : SinkReply
  sink_info : Option Bytes → SinkReply

abbrev pub sink_offer : SinkReply → Option QueryResult
sink_offer (lookup_failed text) = some (failure (bytes "sink lookup failed: " ++ text))
sink_offer end_of_list = none
sink_offer null_sink_info = some (failure (bytes "sink has no monitor source"))
sink_offer (sink_info none) = some (failure (bytes "sink has no monitor source"))
sink_offer (sink_info (some monitor)) = some (success_of monitor)

-- The callbacks, on the alarm.
unfoldable pub server_info_callback : ServerReply → Alarm QueryResult → Alarm QueryResult
server_info_callback = try_offer server_offer

unfoldable pub sink_info_callback : SinkReply → Alarm QueryResult → Alarm QueryResult
sink_info_callback = try_offer sink_offer

-- What libpulse does with a query: no operation, with the error's text, or callbacks during the wait.
pub data Query (R : Type 0) : Type 0 where
  not_issued : Bytes → Query R
  issued : List (Event R) → Query R

-- The value of a query, or the message that the caller stores.
pub data Found : Type 0 where
  found : Bytes → Found
  not_found : Bytes → Found

-- What a query makes of what its alarm gave it.
abbrev pub of_waited : Bytes → Waited QueryResult → Found
of_waited late (delivered r) = if r.success then found r.value else not_found r.error
of_waited late timed_out = not_found late
of_waited late still_waiting = not_found late

-- `query_default_sink`, from the operation to its result.
unfoldable pub server_query : Query ServerReply → Found
server_query (not_issued text) =
    not_found (bytes "pa_context_get_server_info()" ++ (bytes " failed: " ++ text))
server_query (issued es) =
    of_waited (bytes "timed out querying the default sink")
      (wait server_info_callback bounded es (make_alarm no_result)).0

-- `query_monitor`
unfoldable pub sink_query : Bytes → Query SinkReply → Found
sink_query sink (not_issued text) =
    not_found (bytes "pa_context_get_sink_info_by_name()" ++ (bytes " failed: " ++ text))
sink_query sink (issued es) =
    of_waited (bytes "timed out looking up sink '" ++ (sink ++ bytes "'"))
      (wait sink_info_callback bounded es (make_alarm no_result)).0

-- A query has the first answer that a callback gives, at whatever moment the caller wakes up; with
-- none it times out.
pub server_query_lem :
    (es : List (Event ServerReply))
    → server_query (issued es)
      ≡ of_waited
          (bytes "timed out querying the default sink")
          (outcome server_offer bounded (first_offer server_offer es))
unfolding server_query server_info_callback make_alarm
server_query_lem es =
    ap (of_waited (bytes "timed out querying the default sink"))
      (wait-first_offer server_offer bounded es (record { raised = false; value = no_result }) refl)

pub sink_query_lem :
    (sink : Bytes) (es : List (Event SinkReply))
    → sink_query sink (issued es)
      ≡ of_waited
          (bytes "timed out looking up sink '" ++ (sink ++ bytes "'"))
          (outcome sink_offer bounded (first_offer sink_offer es))
unfolding sink_query sink_info_callback make_alarm
sink_query_lem sink es =
    ap (of_waited (bytes "timed out looking up sink '" ++ (sink ++ bytes "'")))
      (wait-first_offer sink_offer bounded es (record { raised = false; value = no_result }) refl)
