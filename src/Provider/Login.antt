-- ===== src/Provider/Login.antt =====
-- Start-up: `Init`, `CreateOMMProvider` and `SendLoginRequest` of src/session.cc, and the
-- constructor and `Init` of src/provider.cc.
use psych.Prelude.{
  ℕ, ◌+◌, Bool, true, false, ◌&&◌, ◌||◌, Option, none, some, List, [], ◌∷◌, ◌==◌, ltb,
  if◌then◌else◌, is_empty, bump, no_stats,
}
use psych.Prelude.Bytes.{Bytes}
use psych.Config.{SessionConfig, Config}
use psych.Store.{Session, Provider, new_session}
use psych.Session.Counters.{login_validated, login_malformed, login_sent}

-- The MMT_LOGIN request: the user's name and the elements of its attributes.
pub record LoginRequest : Type 0 where
  pub user_name : Bytes
  pub application_id : Bytes
  pub position : Bytes
  pub instance_id : Option Bytes

unfoldable pub login_request : SessionConfig → LoginRequest
login_request c = record {
  user_name = c.user_name;
  application_id = c.application_id;
  position = c.position;
  instance_id = if is_empty c.instance_id then none else some c.instance_id;
}

-- What RFA answers one session during start-up. `validates` is false where `validateMsg` answers
-- with a warning; `registers` holds the wire format version of the handle, if there is one.
pub record StartEnv : Type 0 where
  pub acquires : Bool
  pub creates_provider : Bool
  pub registers_errors : Bool
  pub validates : LoginRequest → Bool
  pub registers : LoginRequest → Option (ℕ × ℕ)

-- The version that the provider encodes with, after a session has negotiated `v`: the first
-- session's version, and then the lower one.
unfoldable pub negotiate : ℕ × ℕ → ℕ × ℕ → ℕ × ℕ
negotiate (major, minor) (new_major, new_minor) =
    let first = major == 0 && minor == 0 in
    let now_major = if first then new_major else major in
    let now_minor = if first then new_minor else minor in
    if (now_major == new_major && ltb new_minor now_minor) || ltb new_major now_major
    then (new_major, new_minor)
    else (now_major, now_minor)

-- A call on a session: its result, the session, and the provider's version.
abbrev pub Started : Type 0
Started = Bool × Session × (ℕ × ℕ)

unfoldable pub register_login : Option (ℕ × ℕ) → Session → ℕ × ℕ → Started
register_login none s v = (false, record s { item_handle = false }, v)
register_login (some (major, minor)) s v = (
  true,
  record s { item_handle = true; rwf_major = major; rwf_minor = minor },
  negotiate v (major, minor),
)

-- `SendLoginRequest`
unfoldable pub send_login_request : StartEnv → Session → ℕ × ℕ → Started
unfolding register_login login_request negotiate
send_login_request env s v =
    let request = login_request s.config in
    let counted =
      bump login_sent
        (bump (if env.validates request then login_validated else login_malformed) s.stats) in
    register_login (env.registers request) (record s { stats = counted }) v

-- `Init` of the session
unfoldable pub init_session : StartEnv → Session → Session
init_session env s = record s { has_session = env.acquires }

-- `CreateOMMProvider`; `none` is the call through a null session
unfoldable pub create_omm_provider : StartEnv → Session → ℕ × ℕ → Option Started
unfolding send_login_request
create_omm_provider env s v =
    if s.has_session
    then some (
        if env.creates_provider
        then (if env.registers_errors
            then send_login_request env
                (record s { has_omm_provider = true; error_item_handle = true }) v
            else (false, record s { has_omm_provider = true; error_item_handle = false }, v))
        else (false, record s { has_omm_provider = false }, v))
    else none

-- the two loops of the provider's `Init`; what the sessions' methods return is not looked at
unfoldable pub init_sessions : (ℕ → StartEnv) → ℕ → List Session → List Session
unfolding init_session
init_sessions env i [] = []
init_sessions env i (s ∷ rest) = init_session (env i) s ∷ init_sessions env (i + 1) rest

abbrev pub cons_started :
    Session → Option (List Session × (ℕ × ℕ)) → Option (List Session × (ℕ × ℕ))
cons_started s none = none
cons_started s (some (rest, v)) = some (s ∷ rest, v)

-- the result of one session in front of those after it
abbrev pub start_rest :
    Option Started → (ℕ × ℕ → Option (List Session × (ℕ × ℕ))) → Option (List Session × (ℕ × ℕ))
start_rest none later = none
start_rest (some (ok, s, w)) later = cons_started s (later w)

unfoldable pub create_omm_providers :
    (ℕ → StartEnv) → ℕ → List Session → ℕ × ℕ → Option (List Session × (ℕ × ℕ))
unfolding create_omm_provider
create_omm_providers env i [] v = some ([], v)
create_omm_providers env i (s ∷ rest) v =
    start_rest (create_omm_provider (env i) s v) (λ w. create_omm_providers env (i + 1) rest w)

-- `Init` of the provider: its result and the provider, or `none` for the null dereference
unfoldable pub finish_init : Provider → Option (List Session × (ℕ × ℕ)) → Option (Bool × Provider)
finish_init p none = none
finish_init p (some (sessions, (major, minor))) =
    some (true, record p { sessions = sessions; min_rwf_major = major; min_rwf_minor = minor })

unfoldable pub init_provider : (ℕ → StartEnv) → Bool → Provider → Option (Bool × Provider)
unfolding init_sessions create_omm_providers finish_init
init_provider env version_ok p =
    let sessions = init_sessions env 0 p.sessions in
    if version_ok
    then finish_init p (create_omm_providers env 0 sessions (p.min_rwf_major, p.min_rwf_minor))
    else some (false, record p { sessions = sessions })

-- the constructor of the provider
new_sessions : ℕ → List SessionConfig → List Session
new_sessions i [] = []
new_sessions i (c ∷ rest) = new_session i c ∷ new_sessions (i + 1) rest

unfoldable pub new_provider : Config → Provider
unfolding new_sessions
new_provider c = record {
  config = c;
  min_rwf_major = 0;
  min_rwf_minor = 0;
  sessions = new_sessions 0 c.sessions;
  streams = [];
  directory = [];
  stats = no_stats;
}
