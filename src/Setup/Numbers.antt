-- ===== src/Setup/Numbers.antt =====
-- The conversions of the standard library that src/config.cc uses: `std::stoi` and `std::strtoul`,
-- where `int` and `unsigned long` have 32 bits.
use psych.Prelude.{ℕ, suc, ◌-◌, Option, none, some, [], ◌∷◌, ltb, ◌==◌, if◌then◌else◌}
use psych.Prelude.Int.{ℤ, pos, negsuc, negate}
use psych.Prelude.Bytes.{Bytes, is_digit, skip_space, digits_value}

-- the digits that a number starts with; `none` where there are none
unfoldable pub leading_number : Bytes → Option ℕ
unfolding digits_value
leading_number [] = none
leading_number (c ∷ cs) = if is_digit c then some (digits_value 0 (c ∷ cs)) else none

abbrev pub negated : Option ℕ → Option ℤ
negated none = none
negated (some n) = some (negate n)

abbrev pub unsigned : Option ℕ → Option ℤ
unsigned none = none
unsigned (some n) = some (pos n)

-- an optional sign and the digits
unfoldable pub signed_number : Bytes → Option ℤ
unfolding leading_number
signed_number [] = none
signed_number (c ∷ cs) =
    if c == b'-'
    then negated (leading_number cs)
    else if c == b'+'
    then unsigned (leading_number cs)
    else unsigned (leading_number (c ∷ cs))

abbrev pub int_range : Option ℤ → Option ℤ
int_range none = none
int_range (some (pos n)) = if ltb 2147483647 n then none else some (pos n)
int_range (some (negsuc n)) = if ltb 2147483647 n then none else some (negsuc n)

-- `std::stoi`; `none` where it throws
unfoldable pub stoi : Bytes → Option ℤ
unfolding signed_number skip_space
stoi text = int_range (signed_number (skip_space text))

abbrev pub unsigned_long : Option ℤ → ℕ
unsigned_long none = 0
unsigned_long (some (pos n)) = if ltb 4294967295 n then 4294967295 else n
unsigned_long (some (negsuc n)) = if ltb n 4294967295 then 4294967296 - suc n else 4294967295

-- `std::strtoul` to base 10: 0 where there is no number, and a sign wraps around
unfoldable pub strtoul : Bytes → ℕ
unfolding signed_number skip_space
strtoul text = unsigned_long (signed_number (skip_space text))
