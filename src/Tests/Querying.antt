-- ===== src/Tests/Querying.antt =====
-- The query: src/psych.cc, httpPsychQuery, with one connection.
use psych.Prelude.{ℕ, ◌≡◌, true, false, none, some, [], ◌∷◌, refl, no_stats, bump, add_to}
use psych.Prelude.Int.{pos, negsuc, ◌-ℤ◌, ◌+ℤ◌}
use psych.Prelude.Bytes.{codes, atol}
use psych.Config.{Config, default_config}
use psych.Http.Counters.{
  http_request_sent, http_malformed, http_retries_exceeded, http_5xx_received,
}
use psych.Http.Transfer.{receive}
use psych.Http.Response.Checks.{on_http_response, count_status, range_counter}
use psych.Query.Round.{
  Query, Transfer, RoundEnv, running, prepare, prepared, process, on_transfer, after_response,
  run_round,
}
use psych.Query.Loop.{
  is_zero, first_sleep, next_sleep, in_time, run_rounds, query_start, drop_handles, record_time,
  Timing, http_psych_query, retries_of,
}
use psych.Query.Accounting.{Accounted, process-Accounted}
use psych.Query.Backoff.{Waited, http_psych_query-Waited}
use psych.Refresh.{NameMap}
use psych.Tests.Fixture.{platform, connection, provider}

abbrev pub config : Config
config = record default_config { retry_count = codes "1"; maximum_response_size = codes "64" }

abbrev pub names : ℕ → NameMap
names i = []

-- rounds in which no transfer completes
abbrev pub silent : ℕ → RoundEnv
silent k = record {
  makes_handle = λ i. true;
  reserve = λ n. some 64;
  completed = [];
  elapsed_ms = pos 10;
}

abbrev pub timing : Timing
timing = record { shortest = none; longest = none; total = pos 0 }

-- after two rounds and a wait of a second
abbrev pub given_up : Query
given_up = record {
  provider = provider;
  connections =
      record connection {
        handle = false;
        payload = [];
        capacity = 64;
        request_ptime = pos 5;
        httpd_ptime = none;
      }
      ∷ [];
  stats =
      bump http_retries_exceeded (add_to http_request_sent 1 (add_to http_request_sent 1 no_stats));
  pending = 0 ∷ [];
  sleeps = pos 1000 ∷ [];
}

gives_up :
    (http_psych_query platform config names silent
      (pos 5)
      (pos 9)
      provider
      (connection ∷ [])
      no_stats
      timing).0
    ≡ running given_up
unfolding http_psych_query run_rounds query_start first_sleep next_sleep in_time drop_handles
    record_time run_round prepare prepared process atol ◌-ℤ◌ ◌+ℤ◌
gives_up = refl

no_delay : is_zero (atol config.retry_delay_ms) ≡ true
unfolding atol
no_delay = refl

http_psych_query-Waited_example : Waited (retries_of (atol config.retry_count)) 1000 [] given_up
http_psych_query-Waited_example =
    http_psych_query-Waited platform config names silent (pos 5) (pos 9) provider (connection ∷ [])
      no_stats timing given_up no_delay gives_up

abbrev server_error : Transfer
server_error = record {
  index = 0;
  response = record { code = 500; content_type = none; filetime = negsuc 0 };
  date = none;
  chunks = [];
  engine_version = [];
  answers = λ row i. some 0;
}

abbrev asked : Query
asked = record given_up { stats = no_stats }

abbrev answered : Query
answered = record asked { stats = bump http_malformed (bump http_5xx_received no_stats) }

processes : process platform config names (server_error ∷ []) asked ≡ running answered
unfolding process on_transfer after_response on_http_response count_status range_counter receive
processes = refl

process-Accounted_example : Accounted 1 asked answered
process-Accounted_example =
    process-Accounted platform config names (server_error ∷ []) asked answered processes
