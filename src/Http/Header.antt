-- ===== src/Http/Header.antt =====
-- The first line of a response: `STATE_TIMESTAMP` of `OnHttpResponse` in src/psych.cc.
use psych.Prelude.{
  refl, inl, inr, ◌⊎◌, Bool-cases, Option-cases, ℕ, ◌+◌, ◌-◌, ◌≤◌, Option, none, some, ◌≡◌, ◌≢◌,
  arith, ltb, if◌then◌else◌, length,
}
use psych.Prelude.Bytes.{Bytes, codes, find, find_bounds, substr, substr_total}
use psych.Platform.{Platform, Ptime}

-- How a part of the parser ends: with a value, by giving up on the response, or by a std::exception
-- that leaves the function.
pub data Parsed {ℓ} (A : Type ℓ) : Type ℓ where
  go : A → Parsed A
  fail escape : Parsed A

infixl 5 ◌>>=◌
abbrev pub ◌>>=◌ {ℓ κ} : {A : Type ℓ} {B : Type κ} → Parsed A → (A → Parsed B) → Parsed B
go a >>= f = f a
fail >>= f = fail
escape >>= f = escape

pub bind-eq-go {ℓ κ} :
    {A : Type ℓ} {B : Type κ} (m : Parsed A) (f : A → Parsed B) {b : B}
    → (m >>= f) ≡ go b
    → (a : A) × (m ≡ go a) × (f a ≡ go b)
bind-eq-go (go a) f h = (a, refl, h)
bind-eq-go fail f h = cc
bind-eq-go escape f h = cc

-- `find` and its test against npos
abbrev found : Option ℕ → Parsed ℕ
found none = fail
found (some i) = go i

-- `substr`, which may throw
abbrev cut : Option Bytes → Parsed Bytes
cut none = escape
cut (some b) = go b

-- the assignment under try: an exception leaves the old value
abbrev parse_time : Option Ptime → Ptime → Ptime
parse_time none old = old
parse_time (some t) old = t

abbrev pub shortest_header : Bytes
shortest_header =
    codes "# MarketPsych Engine Version 0 | 2012-05-02 21:19:00 UTC - 2012-05-03 21:19:00 UTC"

abbrev pub prefix_len : ℕ
prefix_len = length (codes "# MarketPsych Engine Version ")

abbrev pub date_len : ℕ
date_len = length (codes "2012-05-02 21:19:00")

-- `*engine_version`, `*open_time` and `*close_time`
pub record Stamp : Type 0 where
  pub engine_version : Bytes
  pub open_time : Ptime
  pub close_time : Ptime

-- the test for not_a_date_time at the end
abbrev dated : Bytes → Ptime → Ptime → Parsed Stamp
dated version (some a) (some b) =
    go (record { engine_version = version; open_time = some a; close_time = some b })
dated version (some a) none = fail
dated version none close = fail

-- from the hyphen on: the close time
close_part : Platform → Stamp → Bytes → Bytes → ℕ → Ptime → Parsed Stamp
close_part plat old token version pipe opened = do
  hyphen ← found (find token (codes "- ") pipe)
  close_string ← cut (substr token (hyphen + 2) date_len)
  dated version opened (parse_time (plat.time_from_string close_string) old.close_time)

-- from the pipe on: the open time
open_part : Platform → Stamp → Bytes → Bytes → ℕ → Parsed Stamp
unfolding close_part
open_part plat old token version space = do
  pipe ← found (find token (codes "| ") space)
  open_string ← cut (substr token (pipe + 2) date_len)
  close_part plat old token version pipe
      (parse_time (plat.time_from_string open_string) old.open_time)

unfoldable pub parse_stamp : Platform → Stamp → Bytes → Parsed Stamp
unfolding open_part
parse_stamp plat old token = if ltb (length token) (length shortest_header) then fail else do
  space ← found (find token (codes " ") prefix_len)
  version ← cut (substr token prefix_len (space - prefix_len))
  open_part plat old token version space

dated-ne-escape : (v : Bytes) (a b : Ptime) → dated v a b ≢ escape
dated-ne-escape v (some a) (some b) h = cc
dated-ne-escape v (some a) none h = cc
dated-ne-escape v none b h = cc

module _ (plat : Platform) (old : Stamp) (token : Bytes) where
  close_part-ne-escape :
      (version : Bytes) (pipe : ℕ) (opened : Ptime)
      → close_part plat old token version pipe opened ≢ escape
  unfolding close_part
  close_part-ne-escape version pipe opened = elim (Option-cases (find token (codes "- ") pipe)) [
    | inl e ↦ rw e (λ h. cc)
    | inr (i, e) ↦
        let inside = (find_bounds token (codes "- ") pipe i e).1 in
        rw (e, substr_total token (i + 2) date_len inside) (dated-ne-escape version _ _)
  ]

  open_part-ne-escape :
      (version : Bytes) (space : ℕ) → open_part plat old token version space ≢ escape
  unfolding open_part
  open_part-ne-escape version space = elim (Option-cases (find token (codes "| ") space)) [
    | inl e ↦ rw e (λ h. cc)
    | inr (i, e) ↦
        let inside = (find_bounds token (codes "| ") space i e).1 in
        rw (e, substr_total token (i + 2) date_len inside) (close_part-ne-escape version i _)
  ]

  long_stamp-ne-escape :
      prefix_len ≤ length token
      → (find token (codes " ") prefix_len ≡ none)
        ⊎ ((i : ℕ) × (find token (codes " ") prefix_len ≡ some i))
      → (do
        space ← found (find token (codes " ") prefix_len)
        version ← cut (substr token prefix_len (space - prefix_len))
        open_part plat old token version space)
        ≢ escape
  long_stamp-ne-escape long (inl e) = rw e (λ h. cc)
  long_stamp-ne-escape long (inr (i, e)) =
      rw (e, substr_total token prefix_len (i - prefix_len) long) (open_part-ne-escape _ i)

  -- Whatever the first line is, no position is out of range: the parser does not throw.
  pub parse_stamp-ne-escape : parse_stamp plat old token ≢ escape
  unfolding parse_stamp
  parse_stamp-ne-escape = elim (Bool-cases (ltb (length token) (length shortest_header))) [
    | inl short ↦ rw short (λ h. cc)
    | inr long ↦
        rw long
          (long_stamp-ne-escape (ground arith) (Option-cases (find token (codes " ") prefix_len)))
  ]
