-- ===== src/Interval/Grid.antt =====
-- Where `GetNextInterval` of src/psych.cc ends, and where it does not.
use psych.Prelude.{
  ℕ, zero, suc, ◌+◌, ◌-◌, ◌*◌, ◌/◌, ◌%◌, ◌≤◌, ◌<◌, true, false, none, some, ◌≡◌, refl, arith, ltb,
}
use native.Mathlib.Nat.{div-add-mod', mod-lt, zero-lt-suc}
use psych.Prelude.Int.{ℤ, pos, ◌+ℤ◌, ◌-ℤ◌}
use psych.Interval.Next.{day, go_back, Next, next_at, out_of_fuel, round_up, get_next_interval}

pub pos_plus : (a b : ℕ) → pos a +ℤ pos b ≡ pos (a + b)
unfolding ◌+ℤ◌
pos_plus a b = ground arith

pos_minus : (a b : ℕ) → b ≤ a → pos a -ℤ pos b ≡ pos (a - b)
unfolding ◌-ℤ◌
pos_minus a b h = ground arith

go_back_late : (fuel : ℕ) (t : ℤ) → go_back fuel true t ≡ none
unfolding go_back
go_back_late zero t = refl
go_back_late (suc fuel) t = go_back_late fuel _

-- If an interval of today is not over yet, counted from the configured time of day, then the loop
-- never ends, whatever fuel it is given.
pub get_next_interval_stuck :
    (fuel reference_tod interval now : ℕ)
    → now % day < reference_tod + interval
    → get_next_interval fuel reference_tod interval now ≡ out_of_fuel
unfolding get_next_interval round_up
get_next_interval_stuck fuel tod interval now h =
    let late : ltb (now % day) (tod + interval) ≡ true = ground arith in
    rw (late, go_back_late fuel (pos (now - now % day + tod))) refl

-- The next point of the grid of intervals from `start` on: `periods` intervals have passed.
pub record IsNext (start interval now : ℕ) (r : Next) : Type 0 where
  pub periods : ℕ
  pub due : r ≡ next_at (pos (start + periods * interval + interval))
  pub passed : start + periods * interval ≤ now
  pub later : now < start + periods * interval + interval

round_up-IsNext :
    (now i start : ℕ)
    → start ≤ now
    → IsNext start (suc i) now (round_up now (suc i) (some (pos start)))
unfolding round_up
round_up-IsNext now i start h =
    let q = (now - start) / suc i in
    let whole = div-add-mod' (now - start) (suc i) in
    let rest = mod-lt (now - start) (zero-lt-suc i) in
    record {
      periods = q;
      due =
          rw
            (
              pos_minus now start h,
              pos_plus start (q * suc i),
              pos_plus (start + q * suc i) (suc i),
            )
            refl;
      passed = omega (arith, whole, rest);
      later = omega (arith, whole, rest);
    }

-- If an interval of today is over, then one unit of fuel is enough, and the result is the first
-- point later than now of the grid of intervals that starts today at the configured time of day.
pub get_next_interval-IsNext :
    (fuel reference_tod i now : ℕ)
    → reference_tod + suc i ≤ now % day
    → IsNext
        (now - now % day + reference_tod)
        (suc i)
        now
        (get_next_interval (suc fuel) reference_tod (suc i) now)
unfolding get_next_interval go_back
get_next_interval-IsNext fuel tod i now h =
    let over : ltb (now % day) (tod + suc i) ≡ false = ground arith in
    rw over (round_up-IsNext now i (now - now % day + tod) (omega arith))
