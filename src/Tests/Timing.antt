-- ===== src/Tests/Timing.antt =====
-- The next interval: src/psych.cc, GetNextInterval, a minute's grid at 00:00:30.
use psych.Prelude.{◌≡◌, arith}
use psych.Interval.Next.{out_of_fuel, get_next_interval}
use psych.Interval.Grid.{get_next_interval_stuck}

get_next_interval_stuck_example : get_next_interval 1000 0 60 864030 ≡ out_of_fuel
get_next_interval_stuck_example = get_next_interval_stuck 1000 0 60 864030 (omega arith)
