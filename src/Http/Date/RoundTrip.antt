-- ===== src/Http/Date/RoundTrip.antt =====
-- The Date header that HTTP prescribes, printed, is read back by `on_http_header` of src/psych.cc.
use psych.Prelude.{
  ℕ, zero, suc, ◌+◌, ◌*◌, ◌/◌, ◌%◌, ◌<◌, true, false, some, List, [], ◌∷◌, ◌++◌, ◌≡◌, refl, ap, ◌∙◌,
  arith, length, get_elem?, All,
}
use mathlib.Core.Path.{subst}
use psych.Prelude.Int.{ℤ}
use psych.Prelude.Bytes.{Bytes, codes, equal, starts_with, skip_space, is_space, is_digit}
use psych.Http.Transfer.{Connection}
use psych.Http.Date.Scan.{
  matched, word_end, scan_word, scan_digits, signed_number, scan_hu, months, find_month, scan_date,
  handled, MakePtime, on_http_header, low_half,
}

-- decimal digits, two and four of them
abbrev pub two : ℕ → Bytes
two n = (48 + n / 10) ∷ (48 + n % 10) ∷ []

abbrev pub four : ℕ → Bytes
four n = two (n / 100) ++ two (n % 100)

-- "Date: ddd, dd MMM yyyy HH:mm:ss GMT", with its line end
abbrev pub date_header : (ddd : Bytes) (mday : ℕ) (mmm : Bytes) (year hour min sec : ℕ) → Bytes
date_header ddd mday mmm year hour min sec =
    codes "Date: "
    ++ ddd
    ++ codes ", "
    ++ two mday
    ++ 32 ∷ mmm
    ++ 32 ∷ four year
    ++ 32 ∷ two hour
    ++ 58 ∷ two min
    ++ 58 ∷ two sec
    ++ codes " GMT\r\n"

abbrev pub IsWord : Bytes → Type 0
IsWord w = All (λ c. is_space c ≡ false) w

word_end-IsWord : (w rest : Bytes) → IsWord w → word_end (w ++ 32 ∷ rest) ≡ (w, 32 ∷ rest)
unfolding word_end
word_end-IsWord [] rest h = refl
word_end-IsWord (c ∷ w) rest (h, hs) =
    rw h (ap (λ (p : Bytes × Bytes). (c ∷ p.0, p.1)) (word_end-IsWord w rest hs))

scan_word_lem :
    (c : ℕ) (w rest : Bytes)
    → IsWord (c ∷ w)
    → length w < 25
    → scan_word (32 ∷ c ∷ w ++ 32 ∷ rest) ≡ matched (c ∷ w) (32 ∷ rest)
unfolding scan_word skip_space
scan_word_lem c w rest (h, hs) short = rw (h, word_end-IsWord (c ∷ w) rest (h, hs)) (ground arith)

digit_step :
    (acc n k : ℕ) (cs : Bytes)
    → n < 10
    → acc * 10 + n ≡ k
    → scan_digits acc ((48 + n) ∷ cs) ≡ scan_digits k cs
unfolding scan_digits
digit_step acc n k cs h e =
    let digit : is_digit (48 + n) ≡ true = ground arith in
    rw digit (ap (λ m. scan_digits m cs) (omega arith))

digits_stop :
    (acc k c : ℕ) (cs : Bytes)
    → is_digit c ≡ false
    → acc ≡ k
    → scan_digits acc (c ∷ cs) ≡ (k, c ∷ cs)
unfolding scan_digits
digits_stop acc k c cs h e = rw h (ap (λ m. (m, c ∷ cs)) e)

signed_lem :
    (c : ℕ) (cs : Bytes)
    → is_digit c ≡ true
    → signed_number (c ∷ cs) ≡ low_half (scan_digits 0 (c ∷ cs))
unfolding signed_number
signed_lem c cs h = rw h refl

skip_lem : (c : ℕ) (cs : Bytes) → is_space c ≡ false → skip_space (c ∷ cs) ≡ c ∷ cs
unfolding skip_space
skip_lem c cs h = rw h refl

-- A number that begins with a digit.
number_lem :
    (n k : ℕ) (cs rest : Bytes)
    → n < 10
    → k < 65536
    → scan_digits 0 ((48 + n) ∷ cs) ≡ (k, rest)
    → scan_hu ((48 + n) ∷ cs) ≡ matched k rest
unfolding scan_hu
number_lem n k cs rest h small e =
    ap signed_number (skip_lem (48 + n) cs (ground arith))
    ∙ signed_lem (48 + n) cs (ground arith)
    ∙ ap low_half e
    ∙ ap (λ m. matched m rest) (omega arith)

spaced_lem : (text : Bytes) → scan_hu (32 ∷ text) ≡ scan_hu text
unfolding scan_hu skip_space
spaced_lem text = refl

two_lem :
    (n c : ℕ) (cs : Bytes)
    → n < 100
    → is_digit c ≡ false
    → scan_hu (two n ++ c ∷ cs) ≡ matched n (c ∷ cs)
two_lem n c cs h stop =
    number_lem (n / 10) n ((48 + n % 10) ∷ c ∷ cs) (c ∷ cs) (omega arith) (omega arith) (
      digit_step 0 (n / 10) (n / 10) ((48 + n % 10) ∷ c ∷ cs) (omega arith) (omega arith)
      ∙ digit_step (n / 10) (n % 10) n (c ∷ cs) (omega arith) (omega arith)
      ∙ digits_stop n n c cs stop refl)

four_lem :
    (n c : ℕ) (cs : Bytes)
    → n < 10000
    → is_digit c ≡ false
    → scan_hu (four n ++ c ∷ cs) ≡ matched n (c ∷ cs)
four_lem n c cs h stop = number_lem (n / 100 / 10) n _ (c ∷ cs) (omega arith) (omega arith) (
    digit_step 0 (n / 100 / 10) (n / 100 / 10) _ (omega arith) (omega arith)
    ∙ digit_step (n / 100 / 10) (n / 100 % 10) (n / 100) _ (omega arith) (omega arith)
    ∙ digit_step (n / 100) (n % 100 / 10) (n / 10) _ (omega arith) (omega arith)
    ∙ digit_step (n / 10) (n % 100 % 10) n (c ∷ cs) (omega arith) (omega arith)
    ∙ digits_stop n n c cs stop refl)

-- A month of three letters, with its place in the table.
abbrev IsMonth : ℕ → Bytes → Type 0
IsMonth i name =
    (a b c : ℕ) × (name ≡ a ∷ b ∷ c ∷ []) × IsWord (a ∷ b ∷ c ∷ []) × (find_month 0 months name ≡ i)

abbrev AreMonths : ℕ → List Bytes → Type 0
AreMonths i [] = Unit
AreMonths i (m ∷ ms) = IsMonth i m × AreMonths (suc i) ms

some_inj : (a b : Bytes) → some a ≡ some b → a ≡ b
some_inj a b h = cc h

AreMonths-get_elem? :
    (k i j : ℕ) (l : List Bytes) (name : Bytes)
    → AreMonths k l
    → get_elem? l i ≡ some name
    → k + i ≡ j
    → IsMonth j name
AreMonths-get_elem? k i j [] name h e s = absurd (cc e)
AreMonths-get_elem? k zero j (m ∷ ms) name (h, hs) e s =
    subst (λ x. IsMonth j x) (some_inj m name e) (subst (λ n. IsMonth n m) (omega arith) h)
AreMonths-get_elem? k (suc i) j (m ∷ ms) name (h, hs) e s =
    AreMonths-get_elem? (suc k) i j ms name hs e (omega arith)

months-AreMonths : AreMonths 0 months
unfolding find_month equal
months-AreMonths = (
  (_, _, _, refl, (refl, (refl, (refl, tt))), refl),
  (
    (_, _, _, refl, (refl, (refl, (refl, tt))), refl),
    (
      (_, _, _, refl, (refl, (refl, (refl, tt))), refl),
      (
        (_, _, _, refl, (refl, (refl, (refl, tt))), refl),
        (
          (_, _, _, refl, (refl, (refl, (refl, tt))), refl),
          (
            (_, _, _, refl, (refl, (refl, (refl, tt))), refl),
            (
              (_, _, _, refl, (refl, (refl, (refl, tt))), refl),
              (
                (_, _, _, refl, (refl, (refl, (refl, tt))), refl),
                (
                  (_, _, _, refl, (refl, (refl, (refl, tt))), refl),
                  (
                    (_, _, _, refl, (refl, (refl, (refl, tt))), refl),
                    (
                      (_, _, _, refl, (refl, (refl, (refl, tt))), refl),
                      ((_, _, _, refl, (refl, (refl, (refl, tt))), refl), tt),
                    ),
                  ),
                ),
              ),
            ),
          ),
        ),
      ),
    ),
  ),
)

-- What the call of sscanf makes of the header, behind "Date:".
scan_date_lem :
    (x y z a b c mday mon year hour min sec : ℕ)
    → IsWord (x ∷ y ∷ z ∷ [])
    → IsWord (a ∷ b ∷ c ∷ [])
    → find_month 0 months (a ∷ b ∷ c ∷ []) ≡ mon
    → mday < 100
    → year < 10000
    → hour < 100
    → min < 100
    → sec < 100
    → scan_date (
        32 ∷ x ∷ y ∷ z ∷ 44 ∷ 32 ∷ two mday
        ++ 32 ∷ a ∷ b ∷ c ∷ 32 ∷ four year
        ++ 32 ∷ two hour
        ++ 58 ∷ two min
        ++ 58 ∷ two sec
        ++ codes " GMT\r\n")
      ≡ matched
          (record { mday = mday; mon = mon; year = year; hour = hour; min = min; sec = sec })
          (codes " GMT\r\n")
unfolding scan_date
scan_date_lem x y z a b c mday mon year hour min sec (hx, (hy, (hz, _))) mmm place h1 h2 h3 h4 h5 =
    let t7 = codes " GMT\r\n" in
    let t6 : Bytes = 58 ∷ two sec ++ t7 in
    let t5 : Bytes = 58 ∷ two min ++ t6 in
    let t4 : Bytes = 32 ∷ two hour ++ t5 in
    let t3 : Bytes = 32 ∷ four year ++ t4 in
    let t2 : Bytes = 32 ∷ a ∷ b ∷ c ∷ t3 in
    rw
      (
        scan_word_lem x (y ∷ z ∷ 44 ∷ []) (two mday ++ t2) (hx, (hy, (hz, (refl, tt))))
            (omega arith),
        spaced_lem (two mday ++ t2) ∙ two_lem mday 32 (a ∷ b ∷ c ∷ t3) h1 refl,
        scan_word_lem a (b ∷ c ∷ []) (four year ++ t4) mmm (omega arith),
        spaced_lem (four year ++ t4) ∙ four_lem year 32 (two hour ++ t5) h2 refl,
        spaced_lem (two hour ++ t5) ∙ two_lem hour 58 (two min ++ t6) h3 refl,
        two_lem min 58 (two sec ++ t7) h4 refl,
        two_lem sec 32 (codes "GMT\r\n") h5 refl,
        place,
      )
      refl

-- If the weekday has three letters without white space, the month is in the table, the year has four
-- digits at most and the other numbers two, and Boost makes a time of the date, then the callback
-- stores the time of just the date that was printed.
pub on_http_header-date_header :
    (make_ptime : MakePtime) (connection : Connection) (x y z mday mon year hour min sec : ℕ)
    (mmm : Bytes) (t : ℤ)
    → IsWord (x ∷ y ∷ z ∷ [])
    → get_elem? months mon ≡ some mmm
    → mday < 100
    → year < 10000
    → hour < 100
    → min < 100
    → sec < 100
    → make_ptime year (1 + mon) mday hour min sec ≡ some (some t)
    → on_http_header make_ptime connection (date_header (x ∷ y ∷ z ∷ []) mday mmm year hour min sec)
      ≡ handled (record connection { httpd_ptime = some t })
unfolding on_http_header starts_with
on_http_header-date_header make_ptime connection x y z mday mon year hour min sec mmm t word month
      h1 h2 h3 h4 h5 made =
    let (a, b, c, name, mmm_word, place) =
      AreMonths-get_elem? 0 mon mon months mmm months-AreMonths month (omega arith) in
    let place' : find_month 0 months (a ∷ b ∷ c ∷ []) ≡ mon =
      subst (λ n. find_month 0 months n ≡ mon) name place in
    rw
      (
        name,
        scan_date_lem x y z a b c mday mon year hour min sec word mmm_word place' h1 h2 h3 h4 h5,
        made,
      )
      refl
