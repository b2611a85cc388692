-- ===== src/Query/Loop.antt =====
-- The rounds of `httpPsychQuery`, the waits between them, and the end of the query.
use psych.Prelude.{
  ℕ, Option, none, some, zero, suc, ◌+◌, Bool, true, false, List, [], ◌∷◌, ◌++◌, ◌==◌,
  if◌then◌else◌, is_empty, Stats, bump,
}
use psych.Prelude.Int.{ℤ, pos, negsuc, ◌+ℤ◌, ◌-ℤ◌, ltb_ℤ}
use psych.Prelude.Bytes.{atol}
use psych.Config.{Config}
use psych.Platform.{Platform}
use psych.Store.{Provider}
use psych.Http.Counters.{http_retries_exceeded}
use psych.Http.Transfer.{Connection}
use psych.Refresh.{NameMap}
use psych.Query.Round.{Query, RoundEnv, Ended, running, thrown, dead, and_go_on, run_round}

-- `RETRY_SLEEP_DEFAULT`, `RETRY_SLEEP_MAX`
abbrev pub retry_sleep_default : ℤ
retry_sleep_default = pos 1000

abbrev pub retry_sleep_max : ℤ
retry_sleep_max = pos 600000

abbrev pub is_zero : ℤ → Bool
is_zero (pos n) = n == 0
is_zero (negsuc n) = false

unfoldable pub first_sleep : Config → ℤ
first_sleep config =
    if is_zero (atol config.retry_delay_ms) then retry_sleep_default else atol config.retry_delay_ms

unfoldable pub next_sleep : Config → ℤ → ℤ
next_sleep config s =
    if is_zero (atol config.retry_delay_ms)
    then if ltb_ℤ retry_sleep_max (s +ℤ s) then retry_sleep_max else s +ℤ s
    else s

-- `retry_numretries`, where only positive numbers allow a retry
abbrev pub retries_of : ℤ → ℕ
retries_of (pos n) = n
retries_of (negsuc n) = 0

unfoldable pub in_time : Config → ℤ → Bool
in_time config elapsed =
    if is_empty config.retry_timeout_ms then true else ltb_ℤ elapsed (atol config.retry_timeout_ms)

abbrev pub give_up : Query → Query
give_up q = record q { stats = bump http_retries_exceeded q.stats }

-- the end of the last round
abbrev pub end_round : Query → Ended
end_round q = if is_empty q.pending then running q else running (give_up q)

abbrev pub slept : ℤ → Query → Query
slept s q = record q { sleeps = q.sleeps ++ s ∷ [] }

module _ (plat : Platform) (config : Config) (names : ℕ → NameMap) (t0 : ℤ) where
  -- the loop, with `retries` rounds after the next; `k` counts the rounds
  unfoldable pub run_rounds : (ℕ → RoundEnv) → (retries k : ℕ) → ℤ → Query → Ended
  unfolding run_round next_sleep in_time
  run_rounds env zero k s q = and_go_on (run_round plat config names t0 (env k) q) end_round
  run_rounds env (suc n) k s q = and_go_on (run_round plat config names t0 (env k) q) λ q'.
      let later = run_rounds env n (k + 1) (next_sleep config s) (slept s q') in
      if is_empty q'.pending
      then running q'
      else if in_time config (env k).elapsed_ms
      then later
      else running (give_up q')

-- the positions of the connections, in the order of the map
positions : ℕ → List Connection → List ℕ
positions i [] = []
positions i (c ∷ rest) = i ∷ positions (i + 1) rest

-- the handles are dropped at the end
unfoldable pub drop_handles : List Connection → List Connection
drop_handles [] = []
drop_handles (c ∷ rest) = record c { handle = false } ∷ drop_handles rest

-- `min_refresh_time_`, `max_refresh_time_` and `total_refresh_time_`, in microseconds; the first two start
-- as the infinite durations, `none`
pub record Timing : Type 0 where
  pub shortest : Option ℤ
  pub longest : Option ℤ
  pub total : ℤ

abbrev pub shorter : ℤ → Option ℤ → ℤ
shorter td none = td
shorter td (some m) = if ltb_ℤ td m then td else m

abbrev pub longer : ℤ → Option ℤ → ℤ
longer td none = td
longer td (some m) = if ltb_ℤ m td then td else m

unfoldable pub record_time : ℤ → Timing → Timing
record_time td t = record {
  shortest = some (shorter td t.shortest);
  longest = some (longer td t.longest);
  total = t.total +ℤ td;
}

abbrev pub finish : ℤ → Timing → Ended → Ended × Timing
finish td t (running q) =
    (running (record q { connections = drop_handles q.connections }), record_time td t)
finish td t (thrown q) = (thrown q, t)
finish td t dead = (dead, t)

unfoldable pub query_start : Provider → List Connection → Stats → Query
unfolding positions
query_start p connections stats = record {
  provider = p;
  connections = connections;
  stats = stats;
  pending = positions 0 connections;
  sleeps = [];
}

-- `httpPsychQuery`, between the times t0 and t1
unfoldable pub http_psych_query :
    Platform
    → Config
    → (ℕ → NameMap)
    → (ℕ → RoundEnv)
    → ℤ
    → ℤ
    → Provider
    → List Connection
    → Stats
    → Timing
    → Ended × Timing
unfolding run_rounds query_start first_sleep drop_handles record_time
http_psych_query plat config names env t0 t1 p connections stats timing = finish (t1 -ℤ t0) timing (
    run_rounds plat config names t0 env (retries_of (atol config.retry_count)) 0
      (first_sleep config) (query_start p connections stats))
