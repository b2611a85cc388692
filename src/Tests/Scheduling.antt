-- ===== src/Tests/Scheduling.antt =====
-- The timer and the Tcl commands: src/psych.cc, src/psych.hh and src/tcl.cc.
use psych.Prelude.{
  ℕ, ◌≡◌, ◌≢◌, ◌↔◌, ◌⊎◌, ◌+◌, ◌%◌, true, false, some, [], ◌∷◌, refl, no_stats, bump, add_to, arith,
  get_elem?, map, u32_mod,
}
use psych.Prelude.Int.{pos, ◌-ℤ◌, ◌+ℤ◌}
use psych.Prelude.Bytes.{codes, atol, equal, skip_space, digits_value}
use psych.Http.Counters.{
  timer_query_received, tcl_query_received, http_request_sent, http_retries_exceeded,
}
use psych.Query.Round.{prepare, prepared, process, run_round}
use psych.Query.Loop.{
  first_sleep, next_sleep, in_time, run_rounds, query_start, drop_handles, record_time,
  http_psych_query,
}
use psych.Schedule.App.{App, QueryEnv, query_on}
use psych.Schedule.Timer.{wake, interrupted, pumping, run_pump}
use psych.Schedule.Tcl.{
  basic_function_name, tcl_ok, tcl_error, execute, dispatch, tcl_psych_republish,
  tcl_psych_hard_republish, dup_connections,
}
use psych.Schedule.Lock.{
  System, inside, outside, timer_enters, command_enters, Reach, start, step, timer_starts,
  command_starts, queries_exclusive,
}
use psych.Schedule.Commands.{register_tcl_api, register_names, register_command}
use psych.Schedule.Start.{started, crashed, start_timer, pump_of, next_interval, stoul}
use psych.Schedule.Calls.{points, calls_of, start_timer-calls}
use psych.Setup.Numbers.{stoi, signed_number, leading_number}
use psych.Interval.Next.{next_at, go_back, round_up}
use psych.Interval.Grid.{IsNext}
use psych.Config.{Config}
use psych.Schedule.Overlapped.{later, run_pump_overlapped}
use psych.Schedule.Refused.{execute_leaves}
use psych.Tests.Fixture.{platform, provider, connection}
use psych.Tests.Querying.{config, names, silent, timing}

abbrev app : App
app = record {
  provider = provider;
  connections = connection ∷ [];
  stats = no_stats;
  refresh_time = timing;
  tcl_time = timing;
  locked = false;
}

abbrev quiet : System
quiet = record { app = app; threads = λ i. outside }

-- the timer is in a query, and a command has been turned away
abbrev busy : System
busy = command_enters 1 (timer_enters quiet)

reached : Reach platform config busy
unfolding timer_enters
reached =
    step (step (start {s = quiet} refl (λ i. refl)) (timer_starts refl))
      (command_starts 1 (omega arith) refl)

queries_exclusive_example :
    (◌≡◌ {A = ℕ} 0 1 ⊎ (busy.threads 0 ≡ outside) ⊎ (busy.threads 1 ≡ outside))
    × ((busy.app.locked ≡ true) ↔ ((k : ℕ) × (busy.threads k ≡ inside)))
queries_exclusive_example = queries_exclusive platform config reached 0 1

abbrev env : QueryEnv
env = record {
  names = names;
  rounds = λ options. silent;
  is_verbose = false;
  t0 = pos 5;
  t1 = pos 9;
}

abbrev held : App
held = record app { locked = true }

run_pump_overlapped_example :
    (a' : App) × ((run_pump platform config
        (pos 60)
        (map (λ e. wake e true) (env ∷ env ∷ []))
        (pos 100)
        held).1
      ≡ pumping a')
    × (get_elem?
          (run_pump platform config
            (pos 60)
            (map (λ e. wake e true) (env ∷ env ∷ []))
            (pos 100)
            held).0
          1
        ≡ some (later (pos 60) (pos 100) 1))
    × (a'.stats timer_query_received ≡ (held.stats timer_query_received + 2) % u32_mod)
    × (a'.provider ≡ provider)
    × (a'.connections ≡ connection ∷ [])
    × (a'.refresh_time ≡ timing)
run_pump_overlapped_example =
    run_pump_overlapped platform config (pos 60) (env ∷ env ∷ []) (pos 100) held 1 refl
      (omega arith) (omega arith)

-- the query of a command that gives up after two rounds
abbrev republished : App
republished = record app {
  stats =
      bump http_retries_exceeded (
        add_to http_request_sent 1 (add_to http_request_sent 1 (bump tcl_query_received no_stats)));
  refresh_time = record { shortest = some (pos 4); longest = some (pos 4); total = pos 4 };
  tcl_time = record { shortest = some (pos 6); longest = some (pos 6); total = pos 6 };
}

republishes :
    execute platform config env (pos 4) (pos 10) (codes "psych_republish") app
    ≡ some (republished, tcl_ok)
unfolding execute dispatch tcl_psych_republish equal query_on dup_connections http_psych_query
    run_rounds query_start first_sleep next_sleep in_time drop_handles record_time run_round prepare
    prepared process atol ◌-ℤ◌ ◌+ℤ◌
republishes = refl

execute_leaves_example :
    (republished.connections ≡ app.connections)
    × (republished.locked ≡ app.locked)
    × (republished.tcl_time ≡ record_time (pos 10 -ℤ pos 4) timing)
    × ((app.locked ≡ false) ⊎ ((republished.provider ≡ app.provider) × (tcl_ok ≢ tcl_ok)))
execute_leaves_example =
    execute_leaves platform config env (pos 4) (pos 10) (codes "psych_republish") app republished
      tcl_ok republishes

refused :
    execute platform config env (pos 4) (pos 10) (codes "psych_hard_republish") held
    ≡ some (
      record held {
        stats = bump tcl_query_received no_stats;
        tcl_time = record { shortest = some (pos 6); longest = some (pos 6); total = pos 6 };
      },
      tcl_error (codes "query already running"),
    )
unfolding execute dispatch tcl_psych_hard_republish equal record_time ◌-ℤ◌ ◌+ℤ◌
refused = refl

-- a minute's grid, counted from 00:01:00, at 00:02:05
abbrev timed : Config
timed = record config { interval = codes "60" }

stoi_timed : stoi timed.interval ≡ some (pos 60)
unfolding stoi signed_number leading_number skip_space digits_value
stoi_timed = refl

start_timer-calls_example :
    (first n : ℕ) × (start_timer platform true 1 timed 864125 ≡ started (pos first) 60)
    × (calls_of (
          pump_of platform timed
            (wake env true ∷ interrupted ∷ [])
            app
            (start_timer platform true 1 timed 864125))
        ≡ points 60 n first)
    × IsNext 864060 60 864125 (next_at (pos first))
start_timer-calls_example =
    start_timer-calls platform timed 0 60 59 864125 (wake env true ∷ interrupted ∷ []) app refl
      stoi_timed (omega arith)

late_start : start_timer platform true 1 timed 864125 ≡ started (pos 864180) 60
unfolding start_timer next_interval go_back round_up stoi stoul signed_number leading_number
    skip_space digits_value ◌-ℤ◌ ◌+ℤ◌
late_start = refl

-- An interval with a sign is read in two ways: the first call is due in the past, the second 136 years
-- later.
signed_start :
    start_timer platform true 1 (record config { interval = codes "-60" }) 864125
    ≡ started (pos 864060) 4294967236
unfolding start_timer next_interval go_back round_up stoi stoul signed_number leading_number
    skip_space digits_value ◌-ℤ◌ ◌+ℤ◌
signed_start = refl

zero_start : start_timer platform true 1 (record config { interval = codes "0" }) 864125 ≡ crashed
unfolding start_timer next_interval go_back round_up stoi stoul signed_number leading_number
    skip_space digits_value ◌-ℤ◌ ◌+ℤ◌
zero_start = refl

-- The engine refuses the second name.
half_registered :
    register_tcl_api (λ name. equal name basic_function_name) (codes "1")
    ≡ (register_command (codes "1") basic_function_name ∷ [], false)
unfolding register_tcl_api register_names equal
half_registered = refl
