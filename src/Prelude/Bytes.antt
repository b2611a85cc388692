-- ===== src/Prelude/Bytes.antt =====
-- std::string as a list of bytes, with the operations of the C and C++ libraries that psych calls.
use Prim.Native.Char.{code}
use Prim.Native.String.{String}
use Prim.Native.Nat.{ℕ, ◌+◌, ◌-◌, ◌*◌, ◌≤◌}
use mathlib.Core.Path.{◌≡◌}
use mathlib.Core.Logic.{◌↔◌}
use mathlib.Core.Bool.{Bool, true, false, ◌&&◌, ◌||◌}
use mathlib.Core.Option.{Option, none, some}
use mathlib.Core.List.{List, [], ◌∷◌}
use native.Mathlib.Omega.{arith}
use psych.Prelude.Tests.{ltb, leb, ◌==◌, if◌then◌else◌}
use psych.Prelude.Lists.{length, take, drop, length-drop}
use psych.Prelude.Int.{ℤ, pos, negate}

abbrev pub Bytes : Type 0
Bytes = List ℕ

abbrev pub codes : String → Bytes
codes String.[] = []
codes (String.◌∷◌ c s) = code c ∷ codes s

-- `operator==`, `strcmp (…) == 0`
unfoldable pub equal : Bytes → Bytes → Bool
equal [] [] = true
equal (x ∷ xs) (y ∷ ys) = x == y && equal xs ys
equal [] (y ∷ ys) = false
equal (x ∷ xs) [] = false

pub equal_iff : (a b : Bytes) → (equal a b ≡ true) ↔ (a ≡ b)
unfolding equal
equal_iff (x ∷ a) (y ∷ b) = ground (arith, equal_iff a b)
equal_iff [] [] = ground arith
equal_iff [] (y ∷ b) = ground arith
equal_iff (x ∷ a) [] = ground arith

-- `strncmp (s, prefix, strlen (prefix)) == 0`
unfoldable pub starts_with : Bytes → Bytes → Bool
starts_with [] s = true
starts_with (p ∷ ps) [] = false
starts_with (p ∷ ps) (c ∷ cs) = p == c && starts_with ps cs

-- `s.find (pattern, from)`: positions count from `at`, where the rest of the text starts.
find_at : Bytes → Bytes → ℕ → Option ℕ
find_at pattern [] at = if starts_with pattern [] then some at else none
find_at pattern (c ∷ cs) at =
    if starts_with pattern (c ∷ cs) then some at else find_at pattern cs (at + 1)

unfoldable pub find : Bytes → Bytes → ℕ → Option ℕ
unfolding find_at starts_with
find s pattern from = if leb from (length s) then find_at pattern (drop from s) from else none

-- `s.substr (at, n)`; `none` is std::out_of_range
unfoldable pub substr : Bytes → ℕ → ℕ → Option Bytes
substr s at n = if leb at (length s) then some (take n (drop at s)) else none

-- `<` on strings: lexicographic on bytes
unfoldable pub less : Bytes → Bytes → Bool
less [] [] = false
less [] (y ∷ ys) = true
less (x ∷ xs) [] = false
less (x ∷ xs) (y ∷ ys) = if x == y then less xs ys else ltb x y

abbrev pub is_space : ℕ → Bool
is_space c = c == 32 || (leb 9 c && leb c 13)

abbrev pub is_digit : ℕ → Bool
is_digit c = leb 48 c && leb c 57

unfoldable pub skip_space : Bytes → Bytes
skip_space [] = []
skip_space (c ∷ cs) = if is_space c then skip_space cs else c ∷ cs

unfoldable pub digits_value : ℕ → Bytes → ℕ
digits_value acc [] = acc
digits_value acc (c ∷ cs) =
    let rest = digits_value (acc * 10 + (c - 48)) cs in if is_digit c then rest else acc

-- LONG_MAX where `long` has 32 bits
abbrev pub long_max : ℕ
long_max = 2147483647

-- a value out of range is the nearest `long`
abbrev clamp_up : ℕ → ℤ
clamp_up n = if ltb long_max n then pos long_max else pos n

abbrev clamp_down : ℕ → ℤ
clamp_down n = if ltb (long_max + 1) n then negate (long_max + 1) else negate n

signed_value : Bytes → ℤ
unfolding digits_value
signed_value [] = pos 0
signed_value (c ∷ cs) =
    if c == b'-'
    then clamp_down (digits_value 0 cs)
    else if c == b'+'
    then clamp_up (digits_value 0 cs)
    else clamp_up (digits_value 0 (c ∷ cs))

-- `std::atol`: white space, a sign, digits; 0 where there are none
unfoldable pub atol : Bytes → ℤ
unfolding skip_space signed_value
atol s = signed_value (skip_space s)

-- A text that starts with another is at least as long.
starts_with-length : (p s : Bytes) → starts_with p s ≡ true → length p ≤ length s
unfolding starts_with
starts_with-length [] s h = omega arith
starts_with-length (p ∷ ps) [] h = cc
starts_with-length (p ∷ ps) (c ∷ cs) h = ground (arith, starts_with-length ps cs)

-- A found pattern lies at or after the place where the search starts, and inside the text.
find_at_bounds :
    (pattern s : Bytes) (at i : ℕ)
    → find_at pattern s at ≡ some i
    → (at ≤ i) × (i + length pattern ≤ at + length s)
unfolding find_at
find_at_bounds pattern [] at i h = ground (arith, starts_with-length pattern [])
find_at_bounds pattern (c ∷ cs) at i h =
    ground (arith, starts_with-length pattern (c ∷ cs), find_at_bounds pattern cs (at + 1) i)

pub find_bounds :
    (s pattern : Bytes) (from i : ℕ)
    → find s pattern from ≡ some i
    → (from ≤ i) × (i + length pattern ≤ length s)
unfolding find
find_bounds s pattern from i h =
    ground (arith, find_at_bounds pattern (drop from s) from i, length-drop {0} from s)

-- `substr` from a place inside the text does not throw.
pub substr_total :
    (s : Bytes) (at n : ℕ) → at ≤ length s → substr s at n ≡ some (take n (drop at s))
unfolding substr
substr_total s at n h = ground arith
