-- ===== src/Boot/Guards.antt =====
-- The guards whose constructors and destructors frame the program: `winsock_t` of src/main.cc and
-- src/plugin.cc, `timecaps_t` of src/main.cc, and `main` itself, with the log that `env_t` sets up.
use psych.Prelude.{
  ℕ, Bool, true, false, Option, none, some, List, [], ◌∷◌, ◌++◌, ◌==◌, ◌&&◌, ltb, if◌then◌else◌,
}

-- a call of the system, or the program's own part, `psych_t`
pub data Call : Type 0 where
  init_logging register_log_provider wsa_startup wsa_cleanup run_psych : Call
  time_begin_period time_end_period : ℕ → Call

-- What the system answers: whether WSAStartup succeeds and with which version, the least and the
-- greatest period of the timer, if the query of the device succeeds, and which periods are taken.
pub record SystemEnv : Type 0 where
  pub starts : Bool
  pub version : ℕ × ℕ
  pub periods : Option (ℕ × ℕ)
  pub takes_period : ℕ → Bool

abbrev pub offers : ℕ × ℕ → ℕ × ℕ → Bool
offers (major, minor) (a, b) = a == major && b == minor

-- `winsock_t::winsock_t`: the calls, and `initialized`
unfoldable pub start_winsock : SystemEnv → ℕ × ℕ → List Call × Bool
start_winsock env version =
    if env.starts
    then if offers version env.version
      then (wsa_startup ∷ [], true)
      else (wsa_startup ∷ wsa_cleanup ∷ [], false)
    else (wsa_startup ∷ [], false)

-- `winsock_t::~winsock_t`
unfoldable pub stop_winsock : Bool → List Call
stop_winsock initialized = if initialized then wsa_cleanup ∷ [] else []

-- `min (max (tc.wPeriodMin, resolution_ms), tc.wPeriodMax)`
unfoldable pub period : ℕ × ℕ → ℕ → ℕ
period (least, greatest) resolution =
    let wanted = if ltb least resolution then resolution else least in
    if ltb greatest wanted then greatest else wanted

abbrev pub begin_period : SystemEnv → ℕ → List Call × ℕ
begin_period env p = (time_begin_period p ∷ [], if env.takes_period p then p else 0)

abbrev pub with_periods : SystemEnv → ℕ → Option (ℕ × ℕ) → List Call × ℕ
with_periods env resolution none = ([], 0)
with_periods env resolution (some caps) = begin_period env (period caps resolution)

-- `timecaps_t::timecaps_t`: the calls, and `wTimerRes`
unfoldable pub start_timecaps : SystemEnv → ℕ → List Call × ℕ
unfolding period
start_timecaps env resolution = with_periods env resolution env.periods

-- `timecaps_t::~timecaps_t`
unfoldable pub stop_timecaps : ℕ → List Call
stop_timecaps res = if ltb 0 res then time_end_period res ∷ [] else []

-- the last two calls of `env_t::env_t`; the class has no destructor
abbrev pub start_log : List Call
start_log = init_logging ∷ register_log_provider ∷ []

-- `main`, whose objects are destroyed in the reverse order
unfoldable pub main_calls : SystemEnv → List Call
unfolding start_winsock stop_winsock start_timecaps stop_timecaps
main_calls env =
    let (first, initialized) = start_winsock env (2, 2) in
    let (next, res) = start_timecaps env 1 in
    start_log
    ++ (first ++ ((next ++ (run_psych ∷ [] ++ stop_timecaps res)) ++ stop_winsock initialized))
