-- ===== src/Http/Trace/Rows.antt =====
-- An independent description of the rows of a trace (src/psych.cc, on_http_trace): lines, and each of
-- them in rows of 64 characters.
use psych.Prelude.{
  ℕ, zero, suc, true, false, List, [], ◌∷◌, ◌++◌, ◌≡◌, refl, ap, ◌∙◌, arith, if◌then◌else◌,
  Bool-cases, inl, inr, drop, sym, ◌≤◌, length, length-drop,
}
use psych.Prelude.Bytes.{Bytes}
use psych.Http.Trace.{shown, is_crlf}
use psych.Http.Trace.Suffix.{row_text}

-- The lines that end in a carriage return and a new line, and what stands behind the last of them.
abbrev pub onto_line : ℕ → List Bytes × Bytes → List Bytes × Bytes
onto_line b ([], last) = ([], b ∷ last)
onto_line b (line ∷ lines, last) = ((b ∷ line) ∷ lines, last)

abbrev pub new_line : List Bytes × Bytes → List Bytes × Bytes
new_line (lines, last) = ([] ∷ lines, last)

unfoldable pub lines_of : Bytes → List Bytes × Bytes
lines_of [] = ([], [])
lines_of (a ∷ []) = ([], a ∷ [])
lines_of (a ∷ b ∷ s) =
    let ended = new_line (lines_of s) in
    let longer = onto_line a (lines_of (b ∷ s)) in if is_crlf (a ∷ b ∷ s) then ended else longer

-- A line in rows, where the first has room for `left` characters; an empty line is an empty row.
abbrev pub onto_row : ℕ → List Bytes → List Bytes
onto_row b [] = (b ∷ []) ∷ []
onto_row b (r ∷ rows) = (b ∷ r) ∷ rows

unfoldable pub fill : ℕ → Bytes → List Bytes
fill left [] = [] ∷ []
fill (suc left) (b ∷ s) = onto_row (shown b) (fill left s)
fill zero (b ∷ s) = [] ∷ onto_row (shown b) (fill 63 s)

-- the rows of the later lines, and those of the part behind the last, if there is one
unfoldable pub later_rows : List Bytes → Bytes → List Bytes
unfolding fill
later_rows [] [] = []
later_rows [] (b ∷ s) = fill 64 (b ∷ s)
later_rows (line ∷ lines) last = fill 64 line ++ later_rows lines last

-- the rows of a text
unfoldable pub rows_of : Bytes → List Bytes
unfolding later_rows lines_of
rows_of s = later_rows (lines_of s).0 (lines_of s).1

-- the rows of a text where the first row has `left` places left
first_rows : ℕ → List Bytes × Bytes → List Bytes
unfolding fill later_rows
first_rows left ([], last) = fill left last
first_rows left (line ∷ lines, last) = fill left line ++ later_rows lines last

fill-cons : (left : ℕ) (s : Bytes) → (r : Bytes) × (rows : List Bytes) × (fill left s ≡ r ∷ rows)
unfolding fill
fill-cons left [] = ([], [], refl)
fill-cons zero (b ∷ s) = ([], onto_row (shown b) (fill 63 s), refl)
fill-cons (suc left) (b ∷ s) =
    let (r, rows, e) = fill-cons left s in (shown b ∷ r, rows, ap (onto_row (shown b)) e)

first_rows-onto_line :
    (left b : ℕ) (p : List Bytes × Bytes)
    → first_rows (suc left) (onto_line b p) ≡ onto_row (shown b) (first_rows left p)
unfolding first_rows fill
first_rows-onto_line left b ([], last) = refl
first_rows-onto_line left b (line ∷ lines, last) =
    let (r, rows, e) = fill-cons left line in rw e refl

first_rows_full :
    (b : ℕ) (p : List Bytes × Bytes)
    → first_rows 0 (onto_line b p) ≡ [] ∷ first_rows 64 (onto_line b p)
unfolding first_rows fill
first_rows_full b ([], last) = refl
first_rows_full b (line ∷ lines, last) = refl

lines_of_other :
    (b : ℕ) (s : Bytes) → is_crlf (b ∷ s) ≡ false → lines_of (b ∷ s) ≡ onto_line b (lines_of s)
unfolding lines_of
lines_of_other b [] h = refl
lines_of_other b (c ∷ s) h = rw h refl

lines_of_crlf : (s : Bytes) → is_crlf s ≡ true → lines_of s ≡ new_line (lines_of (drop 2 s))
unfolding lines_of
lines_of_crlf [] h = cc
lines_of_crlf (a ∷ []) h = cc
lines_of_crlf (a ∷ b ∷ s) h = rw h refl

rows_of_first :
    (b : ℕ) (p : List Bytes × Bytes)
    → later_rows (onto_line b p).0 (onto_line b p).1 ≡ first_rows 64 (onto_line b p)
unfolding first_rows later_rows
rows_of_first b ([], last) = refl
rows_of_first b (line ∷ lines, last) = refl

first_rows_ended :
    (left : ℕ) (p : List Bytes × Bytes) → first_rows left (new_line p) ≡ [] ∷ later_rows p.0 p.1
unfolding first_rows fill
first_rows_ended left (lines, last) = refl

-- The rows of what is written, and of what is left.
abbrev split_off : Bytes × Bytes → List Bytes
split_off (text, rest) = text ∷ rows_of rest

rows_of-split_off :
    (b : ℕ) (s : Bytes)
    → is_crlf (b ∷ s) ≡ false
    → rows_of (b ∷ s) ≡ first_rows 64 (onto_line b (lines_of s))
unfolding rows_of
rows_of-split_off b s h =
    ap (λ p. later_rows p.0 p.1) (lines_of_other b s h) ∙ rows_of_first b (lines_of s)

first_rows-row_text :
    (left : ℕ) (s : Bytes)
    → is_crlf s ≡ false
    → first_rows left (lines_of s) ≡ split_off (row_text left s)
unfolding row_text
first_rows-row_text zero [] h = unfold first_rows fill rows_of lines_of later_rows in refl
first_rows-row_text zero (b ∷ s) h =
    ap (first_rows 0) (lines_of_other b s h)
    ∙ first_rows_full b (lines_of s)
    ∙ ap (λ rows. [] ∷ rows) (sym (rows_of-split_off b s h))
first_rows-row_text (suc left) [] h = unfold first_rows fill rows_of lines_of later_rows in refl
first_rows-row_text (suc left) (b ∷ s) h =
    let longer =
      ap (first_rows (suc left)) (lines_of_other b s h)
      ∙ first_rows-onto_line left b (lines_of s) in
    elim (Bool-cases (is_crlf s)) [
      | inl e ↦
          rw (h, e)
            (longer
              ∙ ap (λ p. onto_row (shown b) (first_rows left p)) (lines_of_crlf s e)
              ∙ ap (onto_row (shown b)) (first_rows_ended left (lines_of (drop 2 s)))
              ∙ unfold rows_of in refl)
      | inr e ↦ rw (h, e) (longer ∙ ap (onto_row (shown b)) (first_rows-row_text left s e))
    ]

later_rows_ended :
    (p : List Bytes × Bytes) → later_rows (new_line p).0 (new_line p).1 ≡ [] ∷ later_rows p.0 p.1
unfolding later_rows fill
later_rows_ended (lines, last) = refl

row_text_crlf :
    (left b : ℕ) (s : Bytes)
    → is_crlf (b ∷ s) ≡ true
    → row_text (suc left) (b ∷ s) ≡ ([], drop 2 (b ∷ s))
unfolding row_text
row_text_crlf left b s h = rw h refl

-- A text that is not empty gives the row that the inner loop writes, and the rows of what it leaves.
pub rows_of-row_text : (b : ℕ) (s : Bytes) → rows_of (b ∷ s) ≡ split_off (row_text 64 (b ∷ s))
rows_of-row_text b s = elim (Bool-cases (is_crlf (b ∷ s))) [
  | inl e ↦
      unfold rows_of in
      (ap (λ p. later_rows p.0 p.1) (lines_of_crlf (b ∷ s) e)
        ∙ later_rows_ended (lines_of (drop 2 (b ∷ s)))
        ∙ ap split_off (sym (row_text_crlf 63 b s e)))
  | inr e ↦
      rows_of-split_off b s e
      ∙ ap (first_rows 64) (sym (lines_of_other b s e))
      ∙ first_rows-row_text 64 (b ∷ s) e
]

-- What is left is less.
row_text-shorter : (left : ℕ) (s : Bytes) → length (row_text left s).1 ≤ length s
unfolding row_text
row_text-shorter zero s = omega arith
row_text-shorter (suc left) [] = omega arith
row_text-shorter (suc left) (b ∷ s) = elim (Bool-cases (is_crlf (b ∷ s))) [
  | inl e ↦ rw e (omega (arith, length-drop 1 s))
  | inr e ↦ elim (Bool-cases (is_crlf s)) [
    | inl f ↦ rw (e, f) (omega (arith, length-drop 2 s))
    | inr f ↦ rw (e, f) (omega (arith, row_text-shorter left s))
  ]
]

pub row_text_less : (b : ℕ) (s : Bytes) → length (row_text 64 (b ∷ s)).1 ≤ length s
unfolding row_text
row_text_less b s = elim (Bool-cases (is_crlf (b ∷ s))) [
  | inl e ↦ rw e (omega (arith, length-drop 1 s))
  | inr e ↦ elim (Bool-cases (is_crlf s)) [
    | inl f ↦ rw (e, f) (omega (arith, length-drop 2 s))
    | inr f ↦ rw (e, f) (omega (arith, row_text-shorter 63 s))
  ]
]
