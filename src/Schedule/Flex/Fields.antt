-- ===== src/Schedule/Flex/Fields.antt =====
-- A FlexRecord, split at its commas: src/tcl.cc.
use psych.Prelude.{
  ℕ, zero, suc, ◌+◌, ◌-◌, ◌*◌, ◌/◌, ◌%◌, ◌≤◌, ◌<◌, ◌^◌, true, List, [], ◌∷◌, ◌++◌, ◌≡◌, refl, ap,
  ◌∙◌, arith, ◌==◌, length, length-append, length-replicate, replicate, All, Bool-cases, inl, inr,
}
use psych.Prelude.Bytes.{Bytes, codes}
use psych.Prelude.Split.{split, join_with, later_texts, lacks, split-join_with}
use psych.Config.Print.{decimal, digits_of}
use psych.Schedule.Flex.{Tm, padded, all_padded, date_time, time_stamp, flexrecord}

lacks-append :
    (mark : ℕ) (s t : Bytes)
    → lacks mark s ≡ true
    → lacks mark t ≡ true
    → lacks mark (s ++ t) ≡ true
lacks-append mark [] t h k = k
lacks-append mark (c ∷ s) t h k = elim (Bool-cases (c == mark)) [
  | inl e ↦ absurd (cc (rw e at h))
  | inr e ↦ rw e (lacks-append mark s t (rw e at h) k)
]

-- digits and a point
lacks-digits : (fuel n : ℕ) → lacks b',' (digits_of fuel n) ≡ true
unfolding digits_of
lacks-digits zero n = refl
lacks-digits (suc fuel) n = ground (
  arith,
  lacks-append b',' (digits_of fuel (n / 10)) ((48 + n % 10) ∷ []) (lacks-digits fuel (n / 10)),
)

lacks-replicate : (n : ℕ) → lacks b',' (replicate n b'0') ≡ true
lacks-replicate zero = refl
lacks-replicate (suc n) = lacks-replicate n

lacks-decimal : (n : ℕ) → lacks b',' (decimal n) ≡ true
unfolding decimal
lacks-decimal n = lacks-digits (n + 1) n

lacks-padded : (width n : ℕ) → lacks b',' (padded width n) ≡ true
unfolding padded decimal
lacks-padded width n =
    lacks-append b',' (replicate (width - length (decimal n)) b'0') (decimal n)
      (lacks-replicate (width - length (decimal n))) (lacks-digits (n + 1) n)

lacks-all_padded : (l : List (ℕ × ℕ)) → lacks b',' (all_padded l) ≡ true
unfolding all_padded
lacks-all_padded [] = refl
lacks-all_padded ((width, n) ∷ rest) =
    lacks-append b',' (padded width n) (all_padded rest) (lacks-padded width n)
      (lacks-all_padded rest)

lacks-time_stamp : (t : Tm) → lacks b',' (time_stamp t) ≡ true
unfolding time_stamp
lacks-time_stamp t =
    lacks-append b',' (all_padded (date_time t)) (codes "." ++ padded 3 0)
      (lacks-all_padded (date_time t)) (lacks-padded 3 0)

-- The number of digits.
length-digits_one : (fuel n : ℕ) → n < 10 → length (digits_of fuel n) ≤ 1
unfolding digits_of
length-digits_one zero n h = omega arith
length-digits_one (suc fuel) n h = ground arith

module _ (width bound : ℕ)
    (shorter : (fuel n : ℕ) → n < bound → length (digits_of fuel n) ≤ width) where
  length-digits_more : (fuel n : ℕ) → n < 10 * bound → length (digits_of fuel n) ≤ width + 1
  unfolding digits_of
  length-digits_more zero n h = omega arith
  length-digits_more (suc fuel) n h = ground (
    arith,
    shorter fuel (n / 10),
    length-append {0} (digits_of fuel (n / 10)) ((48 + n % 10) ∷ []),
  )

length-digits_two : (fuel n : ℕ) → n < 100 → length (digits_of fuel n) ≤ 2
length-digits_two = length-digits_more 1 10 length-digits_one

length-digits_three : (fuel n : ℕ) → n < 1000 → length (digits_of fuel n) ≤ 3
length-digits_three = length-digits_more 2 100 length-digits_two

length-digits_four : (fuel n : ℕ) → n < 10000 → length (digits_of fuel n) ≤ 4
length-digits_four = length-digits_more 3 1000 length-digits_three

length-padded : (width n : ℕ) → length (decimal n) ≤ width → length (padded width n) ≡ width
unfolding padded
length-padded width n h = omega (
  arith,
  length-append {0} (replicate (width - length (decimal n)) b'0') (decimal n),
  length-replicate {0} {A = ℕ} (width - length (decimal n)) b'0',
)

-- A year, a month and so on that fit their places.
pub record IsTime (t : Tm) : Type 0 where
  pub year_fits : t.year < 8100
  pub mon_fits : t.mon < 99
  pub mday_fits : t.mday < 100
  pub hour_fits : t.hour < 100
  pub min_fits : t.min < 100
  pub sec_fits : t.sec < 100

abbrev widths : List (ℕ × ℕ) → ℕ
widths [] = 0
widths ((width, n) ∷ rest) = width + widths rest

length-all_padded :
    (l : List (ℕ × ℕ)) → All (λ x. length (decimal x.1) ≤ x.0) l → length (all_padded l) ≡ widths l
unfolding all_padded
length-all_padded [] h = refl
length-all_padded ((width, n) ∷ rest) (h, hs) = omega (
  arith,
  length-append {0} (padded width n) (all_padded rest),
  length-padded width n h,
  length-all_padded rest hs,
)

two : (n : ℕ) → n < 100 → length (decimal n) ≤ 2
unfolding decimal
two n h = length-digits_two (n + 1) n h

four : (n : ℕ) → n < 10000 → length (decimal n) ≤ 4
unfolding decimal
four n h = length-digits_four (n + 1) n h

length-time_stamp : (t : Tm) → IsTime t → length (time_stamp t) ≡ 18
unfolding time_stamp
length-time_stamp t fits =
    let places = length-all_padded (date_time t) (
      four (1900 + t.year) (omega arith),
      (
        two (1 + t.mon) (omega arith),
        (
          two t.mday (omega arith),
          (two t.hour (omega arith), (two t.min (omega arith), (two t.sec (omega arith), tt))),
        ),
      ),
    ) in
    omega (arith, places, length-append {0} (all_padded (date_time t)) (codes "." ++ padded 3 0))

-- the fields, of which the sixth, the ninth and the tenth are empty
abbrev pub fields_of : Tm → Bytes → Bytes → Bytes → ℕ → List Bytes
fields_of t symbol record_name vhtime sequence =
    time_stamp t
    ∷ codes "@@a"
    ∷ codes "FR"
    ∷ symbol
    ∷ record_name
    ∷ []
    ∷ decimal sequence
    ∷ (codes "V" ++ vhtime)
    ∷ []
    ∷ []
    ∷ []

flexrecord-join_with :
    (t : Tm) (symbol record_name vhtime : Bytes) (sequence : ℕ)
    → (flexrecord t symbol record_name vhtime sequence).0
      ≡ join_with (codes ",") (fields_of t symbol record_name vhtime sequence)
unfolding flexrecord join_with later_texts
flexrecord-join_with t symbol record_name vhtime sequence = refl

-- If the parts of the time fit their places, and the symbol, the name and the engine's time have no
-- comma, then the text of a FlexRecord, split at its commas, has the ten fields of the comments in the
-- constructor, in order, of which the first has 18 characters; and the next record has the next
-- sequence number, modulo 2^64.
pub split-flexrecord :
    (t : Tm) (symbol record_name vhtime : Bytes) (sequence : ℕ)
    → IsTime t
    → lacks b',' symbol ≡ true
    → lacks b',' record_name ≡ true
    → lacks b',' vhtime ≡ true
    → (split b',' (flexrecord t symbol record_name vhtime sequence).0
        ≡ fields_of t symbol record_name vhtime sequence)
      × (length (time_stamp t) ≡ 18)
      × ((flexrecord t symbol record_name vhtime sequence).1 ≡ (sequence + 1) % 2 ^ 64)
unfolding flexrecord
split-flexrecord t symbol record_name vhtime sequence fits hs hr hv = (
  ap (split b',') (flexrecord-join_with t symbol record_name vhtime sequence)
      ∙ split-join_with b',' (time_stamp t) _ (
        lacks-time_stamp t,
        (refl, (refl, (hs, (hr, (refl, (lacks-decimal sequence, (hv, (refl, (refl, tt))))))))),
      ),
  length-time_stamp t fits,
  refl,
)
