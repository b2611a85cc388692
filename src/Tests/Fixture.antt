-- ===== src/Tests/Fixture.antt =====
-- The data of the tests: a platform, a response of two rows, a provider with two sessions.
use psych.Prelude.{
  ℕ, Bool, true, false, none, some, List, [], ◌∷◌, ◌++◌, ◌==◌, if◌then◌else◌, is_empty, no_stats,
  ◌≡◌, refl,
}
use psych.Prelude.Int.{ℤ, pos}
use psych.Prelude.Bytes.{Bytes, codes, atol}
use psych.Config.{Resource, Config, SessionConfig, default_config, empty_session}
use psych.Messages.{RespMsg, directory_refresh}
use psych.Platform.{Platform}
use psych.Store.{Session, Provider, new_session, stream_open, data_ok}
use psych.Session.Events.{LoginEnv, Event, valid, item_event}
use psych.Provider.Directory.{get_service_directory}
use psych.Http.Transfer.{Connection, new_connection}
use psych.Prelude.Bytes.{starts_with, find, substr}
use psych.Http.Header.{Stamp, parse_stamp}
use psych.Http.Table.{Document, parse_token, parse_tokens, read_row, add_row}
use psych.Http.Response.Checks.{
  Response, State, accepted, minimum_size, drift, parse_payload, within_threshold, check_filetime,
  check_payload, check_type, on_http_response,
}

-- The parts between separators; `keep` says whether an empty part counts.
abbrev cons_part : Bool → Bytes → List Bytes → List Bytes
cons_part keep part rest = if keep then part ∷ rest else if is_empty part then rest else part ∷ rest

abbrev pub split : Bool → ℕ → Bytes → Bytes → List Bytes
split keep sep part [] = cons_part keep part []
split keep sep part (c ∷ cs) =
    if c == sep
    then cons_part keep part (split keep sep [] cs)
    else split keep sep (part ++ c ∷ []) cs

-- Whole numbers stand for `double`, and each time reads as the same instant.
abbrev pub platform : Platform
platform = record {
  Double = ℤ;
  read_double = atol;
  is_nan = λ x. false;
  add = λ x y. x;
  mul = λ x y. x;
  floor = λ x. x;
  half = pos 0;
  million = pos 1;
  to_int64 = λ x. x;
  time_from_string = λ text. some (some (pos 5000000));
  duration_from_string = λ text. some (pos 60);
  gmtime = λ t. record { year = 2012; month = 5; day = 3; hour = 21; minute = 19; second = 0 };
  tokenize = split false b'\n' [];
  split_tabs = split true b'\t' [];
  get_lock = λ service code. none;
}

abbrev pub stamp_text : Bytes
stamp_text =
    codes "# MarketPsych Engine Version 1.5 | 2012-05-02 21:19:00 UTC - 2012-05-03 21:19:00 UTC"

abbrev pub payload : Bytes
payload = stamp_text ++ codes "\nSector\tBuzz\nCMPNY\t7\n# end\n"

abbrev pub no_stamp : Stamp
no_stamp = record { engine_version = []; open_time = none; close_time = none }

abbrev pub resource : Resource
resource = record {
  name = codes "Currency";
  source = codes "News";
  path = codes "/CUR";
  entitlement_code = 1;
  fields = (codes "Buzz", pos 8000) ∷ [];
  items = (codes "CMPNY", (codes "TRMI.CMPNY", codes "topic")) ∷ [];
}

abbrev pub connection : Connection
connection = record (new_connection resource (codes "http://host/CUR")) {
  handle = true;
  payload = payload;
  capacity = 4096;
}

abbrev pub session_config : SessionConfig
session_config = record empty_session { session_name = codes "S"; user_name = codes "user" }

-- a session whose start-up is done, still muted
abbrev pub ready : ℕ → Session
ready i = record (new_session i session_config) { has_session = true; has_omm_provider = true }

abbrev pub provider : Provider
provider = record {
  config = record default_config { service_name = codes "ELEKTRON" };
  min_rwf_major = 14;
  min_rwf_minor = 1;
  sessions = ready 0 ∷ ready 1 ∷ [];
  streams = [];
  directory = [];
  stats = no_stats;
}

-- a login success, where RFA takes the directory
abbrev pub login_env : LoginEnv
login_env = record { validation = valid; submission = some 0 }

abbrev pub login_success : Event
login_success =
    item_event (some (record { is_login = true; stream_state = stream_open; data_state = data_ok }))

abbrev pub message : RespMsg
message = directory_refresh (get_service_directory provider)

abbrev pub two_session_config : Config
two_session_config = record default_config { sessions = session_config ∷ session_config ∷ [] }

abbrev pub stamp : Stamp
stamp = record {
  engine_version = codes "1.5";
  open_time = some (pos 5000000);
  close_time = some (pos 5000000);
}

abbrev pub document : Document platform
document = record {
  stamp = stamp;
  columns = codes "Sector" ∷ codes "Buzz" ∷ [];
  rows = (codes "CMPNY", pos 7 ∷ []) ∷ [];
}

abbrev pub ok_response : Response
ok_response = record { code = 200; content_type = some (codes "text/plain"); filetime = pos 100 }

abbrev pub state : State
state = record { connection = connection; stats = no_stats }

pub is_accepted :
    (on_http_response platform default_config ok_response no_stamp state).0 ≡ accepted document
unfolding on_http_response check_type check_payload check_filetime parse_payload within_threshold
    minimum_size drift parse_tokens parse_token add_row read_row parse_stamp find substr atol
    starts_with
is_accepted = refl
