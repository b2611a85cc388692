-- ===== src/Schedule/Start.antt =====
-- The last part of `Init` of src/psych.cc: the timer and its thread, from the texts of the
-- configuration. Times are seconds since the Unix epoch.
use psych.Prelude.{
  ℕ, suc, ◌-◌, ◌%◌, Bool, true, false, Option, none, some, List, ltb, if◌then◌else◌,
}
use psych.Prelude.Int.{ℤ, pos, negsuc, ◌+ℤ◌, ◌-ℤ◌, div_trunc, ltb_ℤ}
use psych.Prelude.Bytes.{Bytes, skip_space}
use psych.Config.{Config}
use psych.Platform.{Platform}
use psych.Setup.Numbers.{signed_number, stoi}
use psych.Interval.Next.{Next, next_at, divided_by_zero, out_of_fuel, day, times, go_back, round_up}
use psych.Schedule.App.{App}
use psych.Schedule.Timer.{Turn, Pump, run_pump}

-- an `unsigned long` that a text stands for, with `std::out_of_range`; a sign wraps around
abbrev pub unsigned_range : Option ℤ → Option ℕ
unsigned_range none = none
unsigned_range (some (pos n)) = if ltb 4294967295 n then none else some n
unsigned_range (some (negsuc n)) = if ltb n 4294967295 then some (4294967296 - suc n) else none

-- `std::stoul`; `none` where it throws
unfoldable pub stoul : Bytes → Option ℕ
unfolding signed_number skip_space
stoul text = unsigned_range (signed_number (skip_space text))

-- The end of `GetNextInterval`. With the interval -(n + 1) the quotient and the product have one sign
-- each, so it is rounded as with n + 1; the step to the next interval goes back.
abbrev pub after_reference : ℕ → ℤ → Option ℤ → Next
unfolding round_up
after_reference now (pos i) reference = round_up now i reference
after_reference now (negsuc n) none = out_of_fuel
after_reference now (negsuc n) (some reference) =
    next_at (reference +ℤ times (div_trunc (pos now -ℤ reference) (suc n)) (suc n) -ℤ pos (suc n))

-- `GetNextInterval`, with the signs that the texts of the configuration can have
unfoldable pub next_interval : ℕ → (reference_tod interval : ℤ) → (now : ℕ) → Next
unfolding go_back
next_interval fuel tod interval now =
    after_reference now interval
      (go_back fuel (ltb_ℤ (pos (now % day)) (tod +ℤ interval)) (pos (now - now % day) +ℤ tod))

-- How the part ends: with a thread that runs the pump, of a first due time and an interval; with Init
-- returning false; with the process gone; or never.
pub data Started : Type 0 where
  started : ℤ → ℕ → Started
  not_started crashed stuck : Started

-- the thread, which may not be spawned
abbrev pub spawn_thread : Bool → ℤ → Option ℕ → Started
spawn_thread can_spawn due none = not_started
spawn_thread true due (some td) = started due td
spawn_thread false due (some td) = not_started

abbrev pub make_timer : Bool → Next → Option ℕ → Started
make_timer can_spawn (next_at due) td = spawn_thread can_spawn due td
make_timer can_spawn divided_by_zero td = crashed
make_timer can_spawn out_of_fuel td = stuck

abbrev pub read_times : Bool → ℕ → Option ℤ → Option ℤ → Option ℕ → ℕ → Started
read_times can_spawn fuel none interval td now = not_started
read_times can_spawn fuel (some tod) none td now = not_started
read_times can_spawn fuel (some tod) (some interval) td now =
    make_timer can_spawn (next_interval fuel tod interval now) td

-- The part of `Init`. Where the condition of the loop holds, no fuel is enough.
unfoldable pub start_timer : Platform → Bool → ℕ → Config → ℕ → Started
unfolding next_interval stoul stoi
start_timer plat can_spawn fuel config now =
    read_times can_spawn fuel (plat.duration_from_string config.time_offset_constant)
      (stoi config.interval) (stoul config.interval) now

-- the due times of the calls of OnTimer, and what becomes of the thread, where it is spawned
abbrev pub pump_of : Platform → Config → List Turn → App → Started → Option (List ℤ × Pump)
pump_of plat config turns a (started due td) = some (run_pump plat config (pos td) turns due a)
pump_of plat config turns a not_started = none
pump_of plat config turns a crashed = none
pump_of plat config turns a stuck = none
