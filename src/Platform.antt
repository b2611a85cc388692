-- ===== src/Platform.antt =====
-- What src/psych.cc uses and the repository's own code does not define, as one interface: floating
-- point numbers, Boost's time parser, the string utilities of the vendored Chromium base library,
-- and the DACS lock library. A ptime is a number of microseconds since the Unix epoch; `none` is
-- not_a_date_time.
use psych.Prelude.{ℕ, Bool, Option, List}
use psych.Prelude.Int.{ℤ, ◌-ℤ◌, div_trunc}
use psych.Prelude.Bytes.{Bytes}

abbrev pub Ptime : Type 0
Ptime = Option ℤ

-- seconds, minutes and hours, day, month and year
pub record Calendar : Type 0 where
  pub year : ℕ
  pub month : ℕ
  pub day : ℕ
  pub hour : ℕ
  pub minute : ℕ
  pub second : ℕ

pub record Platform : Type 1 where
  -- `double`, with the operations that marketpsych.hh and psych.cc apply
  pub Double : Type 0
  pub read_double : Bytes → Double
  pub is_nan : Double → Bool
  pub add : Double → Double → Double
  pub mul : Double → Double → Double
  pub floor : Double → Double
  pub half : Double
  pub million : Double
  pub to_int64 : Double → ℤ
  -- `boost::posix_time::time_from_string`; `none` where it throws
  pub time_from_string : Bytes → Option Ptime
  -- `boost::posix_time::duration_from_string` in seconds; `none` where it throws
  pub duration_from_string : Bytes → Option ℤ
  -- `_gmtime32_s`
  pub gmtime : ℤ → Calendar
  -- the tokens of `StringTokenizer (text, "\n")`, and `chromium::SplitString (text, '\t')`
  pub tokenize : Bytes → List Bytes
  pub split_tabs : Bytes → List Bytes
  -- `AuthorizationLock (service, OR, { code }).getLock`; `none` where it fails
  pub get_lock : ℤ → ℕ → Option Bytes

abbrev pub second_us : ℕ
second_us = 1000000

-- `(a - b).total_seconds()`
unfoldable pub seconds_between : ℤ → ℤ → ℤ
unfolding ◌-ℤ◌
seconds_between a b = div_trunc (a -ℤ b) second_us
