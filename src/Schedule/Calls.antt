-- ===== src/Schedule/Calls.antt =====
-- When the timer that Init starts calls OnTimer: src/psych.cc and src/psych.hh.
use psych.Prelude.{
  ℕ, zero, suc, ◌+◌, ◌-◌, ◌*◌, ◌%◌, ◌≤◌, Bool, true, false, Option, none, some, List, [], ◌∷◌, ◌≡◌,
  refl, ap, arith, length, ltb,
}
use psych.Prelude.Int.{ℤ, pos, negsuc, ltb_ℤ}
use psych.Prelude.Bytes.{Bytes, skip_space}
use psych.Config.{Config}
use psych.Platform.{Platform}
use psych.Setup.Numbers.{stoi, int_range, signed_number}
use psych.Interval.Next.{next_at, day, get_next_interval}
use psych.Interval.Grid.{IsNext, pos_plus, get_next_interval-IsNext}
use psych.Schedule.App.{App}
use psych.Schedule.Timer.{Turn, interrupted, wake, Pump, on_timer, run_pump, with_lock, after_call}
use psych.Schedule.Start.{unsigned_range, stoul, next_interval, started, start_timer, pump_of}

int_range-unsigned : (o : Option ℤ) (m : ℕ) → int_range o ≡ some (pos m) → unsigned_range o ≡ some m
int_range-unsigned none m h = absurd (cc h)
int_range-unsigned (some (pos n)) m h = grind arith
int_range-unsigned (some (negsuc n)) m h = grind arith

-- A positive interval that `std::stoi` reads is the one that `std::stoul` reads.
stoi-stoul : (text : Bytes) (m : ℕ) → stoi text ≡ some (pos m) → stoul text ≡ some m
unfolding stoi stoul
stoi-stoul text m h = int_range-unsigned (signed_number (skip_space text)) m h

ltb_pos : (a b : ℕ) → ltb_ℤ (pos a) (pos b) ≡ ltb a b
ltb_pos a b = ground arith

next_interval-get :
    (fuel tod i now : ℕ)
    → next_interval fuel (pos tod) (pos i) now ≡ get_next_interval fuel tod i now
unfolding next_interval get_next_interval
next_interval-get fuel tod i now =
    rw (pos_plus tod i, ltb_pos (now % day) (tod + i), pos_plus (now - now % day) tod) refl

-- n points of a grid, one interval after the other
abbrev pub points : (interval n first : ℕ) → List ℤ
points interval zero first = []
points interval (suc n) first = pos first ∷ points interval n (first + interval)

after_call-points :
    (td first : ℕ) (o : Option (App × Bool)) (more : App → List ℤ × Pump)
    → ((a : App) → (more a).0 ≡ points td (length (more a).0) (first + td))
    → (after_call (pos first) o more).0 ≡ points td (length (after_call (pos first) o more).0) first
after_call-points td first none more h = refl
after_call-points td first (some (a, false)) more h = refl
after_call-points td first (some (a, true)) more h = ap (λ l. pos first ∷ l) (h a)

run_pump-points :
    (plat : Platform) (config : Config) (td first : ℕ) (turns : List Turn) (a : App)
    → (run_pump plat config (pos td) turns (pos first) a).0
      ≡ points td (length (run_pump plat config (pos td) turns (pos first) a).0) first
unfolding run_pump
run_pump-points plat config td first [] a = refl
run_pump-points plat config td first (interrupted ∷ turns) a = refl
run_pump-points plat config td first (wake e busy ∷ turns) a =
    after_call-points td first (on_timer plat config e (with_lock busy a)) _
      λ a'. rw (pos_plus first td) (run_pump-points plat config td (first + td) turns a')

-- What the pump has done: the due times of its calls.
abbrev pub calls_of : Option (List ℤ × Pump) → List ℤ
calls_of none = []
calls_of (some (calls, p)) = calls

start_timer-started :
    (plat : Platform) (config : Config) (fuel tod interval now : ℕ) (due : ℤ)
    → plat.duration_from_string config.time_offset_constant ≡ some (pos tod)
    → stoi config.interval ≡ some (pos interval)
    → get_next_interval fuel tod interval now ≡ next_at due
    → start_timer plat true fuel config now ≡ started due interval
unfolding start_timer
start_timer-started plat config fuel tod interval now due t i h =
    rw (t, i, stoi-stoul config.interval interval i, next_interval-get fuel tod interval now, h)
      refl

-- If the configuration gives a time of day and a positive interval, and an interval of today, counted
-- from that time, is over when Init starts the timer, and the thread is spawned, then one unit of fuel
-- is enough; and whatever the turns of the pump are, its calls of OnTimer are due at the points of the
-- grid of intervals that starts today at the time of day, from the first one later than now, with none
-- left out and none repeated.
pub start_timer-calls :
    (plat : Platform) (config : Config) (fuel tod i now : ℕ) (turns : List Turn) (a : App)
    → plat.duration_from_string config.time_offset_constant ≡ some (pos tod)
    → stoi config.interval ≡ some (pos (suc i))
    → tod + suc i ≤ now % day
    → (first n : ℕ) × (start_timer plat true (suc fuel) config now ≡ started (pos first) (suc i))
      × (calls_of (pump_of plat config turns a (start_timer plat true (suc fuel) config now))
          ≡ points (suc i) n first)
      × IsNext (now - now % day + tod) (suc i) now (next_at (pos first))
start_timer-calls plat config fuel tod i now turns a t text over =
    let next = get_next_interval-IsNext fuel tod i now over in
    let first = now - now % day + tod + next.periods * suc i + suc i in
    let runs =
      start_timer-started plat config (suc fuel) tod (suc i) now (pos first) t text next.due in
    (
      first,
      length (run_pump plat config (pos (suc i)) turns (pos first) a).0,
      runs,
      rw runs (run_pump-points plat config (suc i) first turns a),
      record { periods = next.periods; due = refl; passed = next.passed; later = next.later },
    )
