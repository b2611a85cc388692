-- ===== src/Session/Events.antt =====
-- The event handlers of one session: login success, suspect and closed (src/session.cc).
use psych.Prelude.{Bool, true, false, Option, none, some, List, if◌then◌else◌, bump}
use psych.Messages.{directory_refresh}
use psych.Store.{
  Session, ItemStream, Provider, StreamState, stream_open, stream_closed, stream_other, DataState,
  data_ok, data_suspect, data_other,
}
use psych.Session.Counters.{
  rfa_events_received, rfa_events_discarded, omm_item_events_received, omm_item_events_discarded,
  response_msgs_received, response_msgs_discarded, login_response_received,
  login_response_discarded, login_success_received, login_suspect_received, login_closed_received,
  omm_cmd_errors, directory_validated, directory_malformed, directory_sent,
}
use psych.Session.Tokens.{SubmitResult, submit, generate_item_token, reset_tokens}
use psych.Provider.Directory.{get_service_directory}

-- What `validateMsg` does: a status, or InvalidUsageException.
pub data Validation : Type 0 where
  valid warned raised : Validation

-- What RFA answers while a login success is handled.
pub record LoginEnv : Type 0 where
  pub validation : Validation
  pub submission : SubmitResult

-- How a method that may throw ends.
pub data Outcome : Type 0 where
  returned : Bool → Session → Outcome
  thrown : Session → Outcome

-- the call of `Submit` in `SendDirectoryResponse`; the token is generated before it
submit_directory : SubmitResult → Provider → Session → Outcome
unfolding submit
submit_directory r p s =
    let token = some s.generated in
    elim (submit r (generate_item_token s) (directory_refresh (get_service_directory p)) token) [
      | none ↦ thrown (generate_item_token s)
      | some (s', status) ↦ returned true (record s' { stats = bump directory_sent s'.stats })
    ]

-- `SendDirectoryResponse`
unfoldable pub send_directory_response : LoginEnv → Provider → Session → Outcome
unfolding submit_directory
send_directory_response env p s = elim env.validation [
  | valid ↦
      submit_directory env.submission p (record s { stats = bump directory_validated s.stats })
  | warned ↦
      submit_directory env.submission p (record s { stats = bump directory_validated s.stats })
  | raised ↦ returned false (record s { stats = bump directory_malformed s.stats })
]

-- the rest of `OnLoginSuccess`: what `SendDirectoryResponse` returned is not looked at
after_directory : Provider → Outcome → Session × List ItemStream
after_directory p (thrown s) = (s, p.streams)
after_directory p (returned sent s) =
    let (streams, s') = reset_tokens p s in (record s' { is_muted = false }, streams)

-- `OnLoginSuccess`
unfoldable pub on_login_success : LoginEnv → Provider → Session → Session × List ItemStream
unfolding send_directory_response after_directory
on_login_success env p s =
    after_directory p
      (send_directory_response env p (record s { stats = bump login_success_received s.stats }))

-- `OnLoginSuspect`
unfoldable pub on_login_suspect : Session → Session
on_login_suspect s = record s { stats = bump login_suspect_received s.stats; is_muted = true }

-- `OnLoginClosed`
unfoldable pub on_login_closed : Session → Session
on_login_closed s = record s { stats = bump login_closed_received s.stats; is_muted = true }

-- the part of a RespMsg that the handlers read
pub record LoginStatus : Type 0 where
  pub is_login : Bool
  pub stream_state : StreamState
  pub data_state : DataState

-- the two nested switches of `OnRespMsg`
dispatch_login : LoginEnv → Provider → StreamState → DataState → Session → Session × List ItemStream
unfolding on_login_success on_login_suspect on_login_closed
dispatch_login env p stream_open data_ok s = on_login_success env p s
dispatch_login env p stream_open data_suspect s = (on_login_suspect s, p.streams)
dispatch_login env p stream_open (data_other n) s =
    (record s { stats = bump login_response_discarded s.stats }, p.streams)
dispatch_login env p stream_closed d s = (on_login_closed s, p.streams)
dispatch_login env p (stream_other n) d s =
    (record s { stats = bump login_response_discarded s.stats }, p.streams)

-- `OnRespMsg`
unfoldable pub on_resp_msg : LoginEnv → Provider → LoginStatus → Session → Session × List ItemStream
unfolding dispatch_login
on_resp_msg env p m s =
    let stats = bump response_msgs_received s.stats in
    if m.is_login
    then dispatch_login env p m.stream_state m.data_state (record s {
      stats = bump login_response_received stats;
      stream_state = m.stream_state;
      data_state = m.data_state;
    })
    else (record s { stats = bump response_msgs_discarded stats }, p.streams)

-- `getType()`; an item event holds a RespMsg or another message
pub data Event : Type 0 where
  item_event : Option LoginStatus → Event
  cmd_error other_event : Event

-- `OnOMMItemEvent`
on_omm_item_event : LoginEnv → Provider → Option LoginStatus → Session → Session × List ItemStream
unfolding on_resp_msg
on_omm_item_event env p none s = (
  record s { stats = bump omm_item_events_discarded (bump omm_item_events_received s.stats) },
  p.streams,
)
on_omm_item_event env p (some m) s =
    on_resp_msg env p m (record s { stats = bump omm_item_events_received s.stats })

-- `processEvent`
unfoldable pub process_event : LoginEnv → Provider → Event → Session → Session × List ItemStream
unfolding on_omm_item_event
process_event env p (item_event m) s =
    on_omm_item_event env p m (record s { stats = bump rfa_events_received s.stats })
process_event env p cmd_error s =
    (record s { stats = bump omm_cmd_errors (bump rfa_events_received s.stats) }, p.streams)
process_event env p other_event s =
    (record s { stats = bump rfa_events_discarded (bump rfa_events_received s.stats) }, p.streams)
