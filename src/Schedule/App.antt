-- ===== src/Schedule/App.antt =====
-- The members of `psych_t` (src/psych.hh) that a query works on, and one query as its callers see it.
use psych.Prelude.{ℕ, ◌≡◌, arith, Bool, true, false, List, Stats, if◌then◌else◌}
use psych.Prelude.Int.{ℤ}
use psych.Config.{Config}
use psych.Platform.{Platform}
use psych.Store.{Provider}
use psych.Http.Transfer.{Connection}
use psych.Refresh.{NameMap}
use psych.Query.Options.{CurlOption, Flags, handle_options}
use psych.Query.Round.{RoundEnv, Ended, running, thrown, dead}
use psych.Query.Loop.{Timing, http_psych_query}

-- `locked` says whether some thread holds `query_mutex_`.
pub record App : Type 0 where
  pub provider : Provider
  pub connections : List Connection
  pub stats : Stats
  pub refresh_time : Timing
  pub tcl_time : Timing
  pub locked : Bool

-- What the environment does in a query, and the times of its start and its end.
pub record QueryEnv : Type 0 where
  pub names : ℕ → NameMap
  -- what comes of each round, given the options that a handle gets for its connection
  pub rounds : (Connection → List CurlOption) → ℕ → RoundEnv
  -- VLOG_IS_ON (10)
  pub is_verbose : Bool
  pub t0 : ℤ
  pub t1 : ℤ

-- What a query leaves: it has returned, with the connections that it was given, an exception has left
-- it, or the process is gone.
pub data Outcome : Type 0 where
  returned raised : App → List Connection → Outcome
  gone : Outcome

abbrev pub after_query : App → Ended → Timing → Outcome
after_query a (running q) t =
    returned (record a { provider = q.provider; stats = q.stats; refresh_time = t }) q.connections
after_query a (thrown q) t =
    raised (record a { provider = q.provider; stats = q.stats; refresh_time = t }) q.connections
after_query a dead t = gone

-- a call of `httpPsychQuery` on some connections, with its flags
unfoldable pub query_on : Platform → Config → Flags → QueryEnv → List Connection → App → Outcome
unfolding handle_options
query_on plat config flags e connections a =
    let (ended, t) =
      http_psych_query plat config e.names (e.rounds (handle_options config flags e.is_verbose))
        e.t0 e.t1 a.provider connections a.stats a.refresh_time in
    after_query a ended t

-- A lock that is made with try_to_lock_t: whether it owns the mutex. The shared_mutex is left as it
-- is where it does not.
abbrev pub try_lock : App → App × Bool
try_lock a = if a.locked then (a, false) else (record a { locked = true }, true)

-- the destructor of a lock that owns the mutex
abbrev pub unlock : App → App
unlock a = record a { locked = false }

pub try_lock-busy : (a : App) → a.locked ≡ true → try_lock a ≡ (a, false)
try_lock-busy a h = ground (arith, h)

pub try_lock-free : (a : App) → a.locked ≡ false → try_lock a ≡ (record a { locked = true }, true)
try_lock-free a h = ground (arith, h)
