-- ===== src/Schedule/Flex.antt =====
-- The text of a FlexRecord: `flexrecord_t` of src/tcl.cc.
pub mod Fields
use psych.Prelude.{
  ℕ, zero, suc, ◌+◌, ◌-◌, ◌*◌, ◌/◌, ◌%◌, ◌≤◌, ◌<◌, ◌^◌, Bool, true, false, ◌&&◌, List, [], ◌∷◌,
  ◌++◌, ◌≡◌, refl, ap, ◌∙◌, arith, ltb, ◌==◌, if◌then◌else◌, length, length-append,
  length-replicate, replicate, All, Bool-cases, inl, inr,
}
use psych.Prelude.Bytes.{Bytes, codes}
use psych.Prelude.Split.{split, join_with, later_texts, lacks, split-join_with}
use psych.Config.Print.{decimal, digits_of}

-- what `_gmtime32_s` fills in
pub record Tm : Type 0 where
  pub year : ℕ
  pub mon : ℕ
  pub mday : ℕ
  pub hour : ℕ
  pub min : ℕ
  pub sec : ℕ

-- `std::setfill ('0') << std::setw (width) << n`
unfoldable pub padded : ℕ → ℕ → Bytes
unfolding decimal
padded width n = replicate (width - length (decimal n)) b'0' ++ decimal n

-- one after the other
unfoldable pub all_padded : List (ℕ × ℕ) → Bytes
unfolding padded
all_padded [] = []
all_padded ((width, n) ∷ rest) = padded width n ++ all_padded rest

abbrev pub date_time : Tm → List (ℕ × ℕ)
date_time t =
    (4, 1900 + t.year) ∷ (2, 1 + t.mon) ∷ (2, t.mday) ∷ (2, t.hour) ∷ (2, t.min) ∷ (2, t.sec) ∷ []

unfoldable pub time_stamp : Tm → Bytes
unfolding all_padded padded
time_stamp t = all_padded (date_time t) ++ (codes "." ++ padded 3 0)

-- the constructor: the text, and the next sequence number
unfoldable pub flexrecord : Tm → (symbol record_name vhtime : Bytes) → (sequence : ℕ) → Bytes × ℕ
unfolding time_stamp decimal
flexrecord t symbol record_name vhtime sequence = (
  time_stamp t
      ++ (codes ",@@a"
          ++ (codes ",FR"
              ++ (codes ","
                  ++ (symbol
                      ++ (codes ","
                          ++ (record_name
                              ++ (codes ",,"
                                  ++ (decimal sequence
                                      ++ (codes ",V" ++ (vhtime ++ codes ",,")))))))))),
  (sequence + 1) % 2 ^ 64,
)
