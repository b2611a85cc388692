-- ===== src/Session/Muting.antt =====
-- When a session is muted: the login state machine of src/session.cc against a table of its states. The
-- table is that of the code: the comments say that no data may be published before the directory.
use psych.Prelude.{Bool, true, false, none, some, ◌≡◌, refl, if◌then◌else◌, arith, bump}
use psych.Store.{
  Session, Provider, StreamState, stream_open, stream_closed, stream_other, DataState, data_ok,
  data_suspect, data_other,
}
use psych.Session.Tokens.{SubmitResult}
use psych.Session.Events.{
  Validation, valid, warned, raised, LoginEnv, Event, item_event, cmd_error, other_event,
  process_event, on_resp_msg, on_login_success, send_directory_response,
}
use psych.Session.Counters.{
  login_response_received, response_msgs_received, omm_item_events_received, rfa_events_received,
}
use psych.Session.Unsent.{on_login_success-raised}

-- Does the handler of a login success reach its end? It does unless `submit` throws; where the
-- validation raises, SendDirectoryResponse catches this and returns false, which is not looked at.
abbrev pub completes : Validation → SubmitResult → Bool
completes raised r = true
completes valid none = false
completes valid (some n) = true
completes warned none = false
completes warned (some n) = true

-- The mute state that a login response asks for; `old` is the state before it.
abbrev pub login_mute : LoginEnv → StreamState → DataState → Bool → Bool
login_mute env stream_open data_ok old =
    if completes env.validation env.submission then false else old
login_mute env stream_open data_suspect old = true
login_mute env stream_open (data_other n) old = old
login_mute env stream_closed d old = true
login_mute env (stream_other n) d old = old

abbrev pub next_mute : LoginEnv → Event → Bool → Bool
next_mute env (item_event none) old = old
next_mute env (item_event (some m)) old =
    if m.is_login then login_mute env m.stream_state m.data_state old else old
next_mute env cmd_error old = old
next_mute env other_event old = old

abbrev pub login_success : Event
login_success =
    item_event (some (record { is_login = true; stream_state = stream_open; data_state = data_ok }))

module _ (env : LoginEnv) (p : Provider) where
  unmutes :
      (s : Session)
      → (process_event (record env { validation = raised }) p login_success s).0.is_muted ≡ false
  unfolding process_event on_resp_msg on_login_success send_directory_response
  unmutes s = refl

  login_response-is_muted :
      (stream : StreamState) (d : DataState) (s : Session)
      → (process_event env p
          (item_event (some (record { is_login = true; stream_state = stream; data_state = d })))
          s).0.is_muted
        ≡ login_mute env stream d s.is_muted
  unfolding process_event
  login_response-is_muted stream_open data_ok s = ground arith
  login_response-is_muted stream_open data_suspect s = refl
  login_response-is_muted stream_open (data_other n) s = refl
  login_response-is_muted stream_closed d s = refl
  login_response-is_muted (stream_other n) d s = refl

  response-is_muted :
      (is_login : Bool) (stream : StreamState) (d : DataState) (s : Session)
      → (process_event env p
          (item_event
            (some (record { is_login = is_login; stream_state = stream; data_state = d })))
          s).0.is_muted
        ≡ (if is_login then login_mute env stream d s.is_muted else s.is_muted)
  unfolding process_event
  response-is_muted true stream d s = login_response-is_muted stream d s
  response-is_muted false stream d s = refl

  mute_lem :
      (e : Event) (s : Session) → (process_event env p e s).0.is_muted ≡ next_mute env e s.is_muted
  unfolding process_event
  mute_lem (item_event none) s = refl
  mute_lem (item_event (some m)) s = response-is_muted m.is_login m.stream_state m.data_state s
  mute_lem cmd_error s = refl
  mute_lem other_event s = refl

  login_response-wire :
      (stream : StreamState) (d : DataState) (s : Session)
      → (process_event
          (record env { validation = raised })
          p
          (item_event (some (record { is_login = true; stream_state = stream; data_state = d })))
          s).0.wire
        ≡ s.wire
  unfolding process_event on_resp_msg
  login_response-wire stream_open data_ok s =
      (on_login_success-raised env.submission p (record s {
        stream_state = stream_open;
        data_state = data_ok;
        stats = bump login_response_received (
            bump response_msgs_received
              (bump omm_item_events_received (bump rfa_events_received s.stats)));
      })).0
  login_response-wire stream_open data_suspect s = refl
  login_response-wire stream_open (data_other n) s = refl
  login_response-wire stream_closed d s = refl
  login_response-wire (stream_other n) d s = refl

  response-wire :
      (is_login : Bool) (stream : StreamState) (d : DataState) (s : Session)
      → (process_event
          (record env { validation = raised })
          p
          (item_event
            (some (record { is_login = is_login; stream_state = stream; data_state = d })))
          s).0.wire
        ≡ s.wire
  unfolding process_event
  response-wire true stream d s = login_response-wire stream d s
  response-wire false stream d s = refl

  wire_lem :
      (e : Event) (s : Session)
      → (process_event (record env { validation = raised }) p e s).0.wire ≡ s.wire
  unfolding process_event
  wire_lem (item_event none) s = refl
  wire_lem (item_event (some m)) s = response-wire m.is_login m.stream_state m.data_state s
  wire_lem cmd_error s = refl
  wire_lem other_event s = refl

  -- Whatever the event, the code leaves the session muted exactly as the table says: a login success
  -- unmutes it unless `submit` throws, a suspect or closed login mutes it, and every other event
  -- leaves it as it was. Where the validation of the directory raises, no event makes the session send
  -- anything, and a login success unmutes it all the same, without a directory, though the comments of
  -- the code say that nothing is published before it.
  pub process_event-is_muted :
      (e : Event) (s : Session)
      → ((process_event env p e s).0.is_muted ≡ next_mute env e s.is_muted)
        × ((process_event (record env { validation = raised }) p e s).0.wire ≡ s.wire)
        × ((process_event (record env { validation = raised }) p login_success s).0.is_muted
            ≡ false)
  process_event-is_muted e s = (mute_lem e s, wire_lem e s, unmutes s)
