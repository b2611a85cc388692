-- ===== src/Rfa/Staging.antt =====
-- `rfa_t::Init` and `VerifyVersion` of src/rfa.cc: the calls of the staging database, in order.
use psych.Prelude.{Bool, true, false, List, [], ◌∷◌, ◌++◌, if◌then◌else◌, is_empty, not, All}
use psych.Prelude.Bytes.{Bytes, codes}
use psych.Config.{SessionConfig, Config, join_servers}
use psych.Rfa.Paths.{fix_rfa_string_path, NoSlash}

-- A call that fills a staging database.
pub data Setting : Type 0 where
  set_bool : (name : Bytes) → Bool → Setting
  set_string : (name value : Bytes) → Setting
  load_registry : (name : Bytes) → Setting

-- the names of src/rfa.cc, and `kConnectionType`
abbrev connection_type : Bytes
connection_type = codes "RSSL_NIPROV"

abbrev session_name_of : SessionConfig → Bytes → Bytes
session_name_of s key = fix_rfa_string_path (codes "/Sessions/" ++ s.session_name ++ key)

abbrev connection_name_of : SessionConfig → Bytes → Bytes
connection_name_of s key = fix_rfa_string_path (codes "/Connections/" ++ s.connection_name ++ key)

abbrev logger_name : Bytes → Bytes
logger_name key = fix_rfa_string_path (codes "/Logger/AppLogger/" ++ key)

-- one round of the loop over the sessions
unfoldable pub stage_session : SessionConfig → List Setting
stage_session s =
    (set_string (session_name_of s (codes "/connectionList")) s.connection_name
      ∷ set_string (connection_name_of s (codes "/connectionType")) connection_type
      ∷ set_string (connection_name_of s (codes "/serverList")) (join_servers s.rssl_servers)
      ∷ [])
    ++ (if is_empty s.rssl_default_port
        then []
        else set_string (connection_name_of s (codes "/rsslPort")) s.rssl_default_port ∷ [])

unfoldable pub stage_sessions : List SessionConfig → List Setting
unfolding stage_session
stage_sessions [] = []
stage_sessions (s ∷ rest) = stage_session s ++ stage_sessions rest

-- What RFA answers: whether each of the two staging databases is created, whether the database is
-- acquired, and whether each merge succeeds.
pub record RfaEnv : Type 0 where
  pub creates : Bool
  pub creates_again : Bool
  pub acquires : Bool
  pub merges : Bool
  pub merges_again : Bool

-- the settings that have been merged, and what `Init` returns
abbrev load_key : RfaEnv → Config → List Setting → List Setting × Bool
load_key env config merged =
    if is_empty config.key
    then (merged, true)
    else if not env.creates_again
    then (merged, false)
    else if not env.merges_again
    then (merged, false)
    else (merged ++ load_registry (fix_rfa_string_path config.key) ∷ [], true)

unfoldable pub staged : Config → List Setting
unfolding stage_sessions
staged config =
    set_bool (logger_name (codes "windowsLoggerEnabled")) false
    ∷ set_bool (logger_name (codes "fileLoggerEnabled")) false
    ∷ stage_sessions config.sessions

-- `rfa_t::Init`
unfoldable pub init_rfa : RfaEnv → Config → List Setting × Bool
unfolding staged
init_rfa env config =
    if not env.creates
    then ([], false)
    else if not env.acquires
    then ([], false)
    else if not env.merges
    then ([], false)
    else load_key env config (staged config)

abbrev pub name_of : Setting → Bytes
name_of (set_bool name value) = name
name_of (set_string name value) = name
name_of (load_registry name) = name

abbrev Named : List Setting → Type 0
Named l = All (λ x. NoSlash (name_of x)) l
