-- ===== src/Interval/Next.antt =====
-- `GetNextInterval` of src/psych.cc. Its loop tests what its body does not change, so it takes fuel.
use psych.Prelude.{ℕ, zero, suc, ◌+◌, ◌-◌, ◌*◌, ◌%◌, Bool, Option, none, some, ltb, if◌then◌else◌}
use psych.Prelude.Int.{ℤ, pos, negsuc, ◌+ℤ◌, ◌-ℤ◌, negate, div_trunc}

-- `days (1)`
abbrev pub day : ℕ
day = 86400

-- `while (…) reference_ptime -= days (1)`, whose condition is `late`; `none` is out of fuel
unfoldable pub go_back : ℕ → Bool → ℤ → Option ℤ
go_back zero late t = none
go_back (suc fuel) late t =
    let earlier = go_back fuel late (t -ℤ pos day) in if late then earlier else some t

-- How the function ends: with a time, by a division by zero, or out of fuel.
pub data Next : Type 0 where
  next_at : ℤ → Next
  divided_by_zero out_of_fuel : Next

abbrev pub times : ℤ → ℕ → ℤ
times (pos q) n = pos (q * n)
times (negsuc q) n = negate (suc q * n)

unfoldable pub round_up : ℕ → ℕ → Option ℤ → Next
round_up now interval none = out_of_fuel
round_up now zero (some reference) = divided_by_zero
round_up now (suc i) (some reference) =
    let periods = div_trunc (pos now -ℤ reference) (suc i) in
    next_at (reference +ℤ times periods (suc i) +ℤ pos (suc i))

-- `GetNextInterval`
unfoldable pub get_next_interval : (fuel reference_tod interval now : ℕ) → Next
unfolding go_back round_up
get_next_interval fuel reference_tod interval now = round_up now interval (
    go_back fuel (ltb (now % day) (reference_tod + interval))
      (pos ((now - now % day) + reference_tod)))
