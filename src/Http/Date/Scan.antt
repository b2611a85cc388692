-- ===== src/Http/Date/Scan.antt =====
-- `on_http_header` of src/psych.cc, and what sscanf does with its format. The text is what stands
-- before the first NUL.
use psych.Prelude.{
  ℕ, suc, ◌+◌, ◌-◌, ◌*◌, ◌%◌, ◌&&◌, Option, none, some, List, [], ◌∷◌, leb, ltb, ◌==◌,
  if◌then◌else◌, length, drop,
}
use psych.Prelude.Bytes.{Bytes, codes, equal, starts_with, skip_space, is_space, is_digit}
use psych.Platform.{Ptime}
use psych.Http.Transfer.{Connection}

-- What a directive of the format leaves: a value and the rest of the text, no match, or a write past
-- the end of an array.
pub data Scanned {ℓ} (A : Type ℓ) : Type ℓ where
  matched : A → Bytes → Scanned A
  mismatched overrun : Scanned A

abbrev pub and_then {ℓ κ} :
    {A : Type ℓ} {B : Type κ} → Scanned A → (A → Bytes → Scanned B) → Scanned B
and_then (matched a rest) next = next a rest
and_then mismatched next = mismatched
and_then overrun next = overrun

-- a word, up to white space
unfoldable pub word_end : Bytes → Bytes × Bytes
word_end [] = ([], [])
word_end (c ∷ cs) =
    let (word, rest) = word_end cs in if is_space c then ([], c ∷ cs) else (c ∷ word, rest)

-- `%s` into an array of 26 bytes, with its NUL
abbrev pub into_array : Bytes × Bytes → Scanned Bytes
into_array ([], rest) = mismatched
into_array (c ∷ word, rest) =
    if ltb (suc (length word)) 26 then matched (c ∷ word) rest else overrun

unfoldable pub scan_word : Bytes → Scanned Bytes
scan_word text = into_array (word_end (skip_space text))

-- `%hu`: white space, a sign, digits; the low 16 bits are written
unfoldable pub scan_digits : ℕ → Bytes → ℕ × Bytes
scan_digits acc [] = (acc, [])
scan_digits acc (c ∷ cs) =
    let later = scan_digits (acc * 10 + (c - 48)) cs in if is_digit c then later else (acc, c ∷ cs)

abbrev u16_mod : ℕ
u16_mod = 65536

abbrev pub low_half : ℕ × Bytes → Scanned ℕ
low_half (n, rest) = matched (n % u16_mod) rest

abbrev negated : ℕ × Bytes → Scanned ℕ
negated (n, rest) = matched ((u16_mod - n % u16_mod) % u16_mod) rest

abbrev digits_then : (ℕ × Bytes → Scanned ℕ) → Bytes → Scanned ℕ
digits_then finish [] = mismatched
digits_then finish (c ∷ cs) = if is_digit c then finish (scan_digits 0 (c ∷ cs)) else mismatched

unfoldable pub signed_number : Bytes → Scanned ℕ
signed_number [] = mismatched
signed_number (c ∷ cs) =
    if is_digit c
    then low_half (scan_digits 0 (c ∷ cs))
    else if c == b'-'
    then digits_then negated cs
    else if c == b'+'
    then digits_then low_half cs
    else mismatched

unfoldable pub scan_hu : Bytes → Scanned ℕ
scan_hu text = signed_number (skip_space text)

-- a colon of the format
abbrev pub colon : Bytes → (Bytes → Scanned ℕ) → Scanned ℕ
colon [] next = mismatched
colon (c ∷ cs) next = if c == b':' then next cs else mismatched

abbrev pub months : List Bytes
months =
    codes "Jan"
    ∷ codes "Feb"
    ∷ codes "Mar"
    ∷ codes "Apr"
    ∷ codes "May"
    ∷ codes "Jun"
    ∷ codes "Jul"
    ∷ codes "Aug"
    ∷ codes "Sep"
    ∷ codes "Oct"
    ∷ codes "Nov"
    ∷ codes "Dec"
    ∷ []

-- the loop over the months; a name that is none of them leaves tm_mon as it is, which is 0
unfoldable pub find_month : ℕ → List Bytes → Bytes → ℕ
find_month i [] name = 0
find_month i (m ∷ ms) name =
    let later = find_month (suc i) ms name in if equal m name then i else later

-- `tm`, with the year of the text
pub record Tm : Type 0 where
  pub mday : ℕ
  pub mon : ℕ
  pub year : ℕ
  pub hour : ℕ
  pub min : ℕ
  pub sec : ℕ

-- the call of sscanf, behind "Date:", and the loop over the months
unfoldable pub scan_date : Bytes → Scanned Tm
scan_date text = and_then (scan_word text) λ ddd r1. and_then (scan_hu r1) λ mday r2.
    and_then (scan_word r2) λ mmm r3. and_then (scan_hu r3) λ year r4.
      and_then (scan_hu r4) λ hour r5. and_then (colon r5 scan_hu) λ min r6.
        and_then (colon r6 scan_hu) λ sec r7.
          matched
            (record {
              mday = mday;
              mon = find_month 0 months mmm;
              year = year;
              hour = hour;
              min = min;
              sec = sec;
            })
            r7

-- How the callback ends: with a connection, by an exception of Boost, or having written past an array.
pub data Handled : Type 0 where
  handled : Connection → Handled
  threw overran : Handled

-- a time that Boost makes is stored where it is one
abbrev pub store_ptime : Connection → Option Ptime → Handled
store_ptime c none = threw
store_ptime c (some none) = handled c
store_ptime c (some (some t)) = handled (record c { httpd_ptime = some t })

-- `date` of a year, a month from 1 and a day with `hours` + `minutes` + `seconds`: `none` where the
-- constructor throws
abbrev pub MakePtime : Type 0
MakePtime = (year month day hours minutes seconds : ℕ) → Option Ptime

abbrev pub with_tm : MakePtime → Connection → Scanned Tm → Handled
with_tm make_ptime c (matched t rest) =
    store_ptime c (make_ptime t.year (1 + t.mon) t.mday t.hour t.min t.sec)
with_tm make_ptime c mismatched = handled c
with_tm make_ptime c overrun = overran

-- `on_http_header`
unfoldable pub on_http_header : MakePtime → Connection → Bytes → Handled
on_http_header make_ptime c text =
    if starts_with (codes "Date:") text && leb (length text) 37
    then with_tm make_ptime c (scan_date (drop 5 text))
    else handled c
