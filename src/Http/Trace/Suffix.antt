-- ===== src/Http/Trace/Suffix.antt =====
-- The inner loop of a trace by what is left of the data: the positions of src/psych.cc, which wrap
-- around, point to it.
use psych.Prelude.{
  ℕ, zero, suc, ◌+◌, ◌%◌, ◌≤◌, ◌<◌, [], ◌∷◌, ◌≡◌, refl, sym, ap, ◌∙◌, arith, if◌then◌else◌, length,
  length-drop, drop, Bool-cases, inl, inr,
}
use psych.Prelude.Bytes.{Bytes}
use psych.Http.Trace.{size_mod, shown, is_crlf, moved, row}

abbrev pub onto_text : ℕ → Bytes × Bytes → Bytes × Bytes
onto_text b (s, rest) = (b ∷ s, rest)

-- the characters that are written, and the data from the next row on
unfoldable pub row_text : ℕ → Bytes → Bytes × Bytes
row_text zero s = ([], s)
row_text (suc left) [] = ([], [])
row_text (suc left) (b ∷ s) =
    let later = row_text left s in
    if is_crlf (b ∷ s)
    then ([], drop 2 (b ∷ s))
    else if is_crlf s
    then (shown b ∷ [], drop 2 s)
    else onto_text (shown b) later

drop-nil : (n : ℕ) → drop {A = ℕ} n [] ≡ []
drop-nil zero = refl
drop-nil (suc n) = refl

drop-drop : (m n : ℕ) (s : Bytes) → drop m (drop n s) ≡ drop (n + m) s
drop-drop m zero s = ap (λ k. drop k s) (omega arith)
drop-drop m (suc n) [] = drop-nil m ∙ sym (drop-nil (suc n + m))
drop-drop m (suc n) (x ∷ s) =
    let shift : suc (n + m) ≡ suc n + m = omega arith in
    drop-drop m n s ∙ ap (λ k. drop k (x ∷ s)) shift

-- where the next row starts
abbrev pub next_row : ℕ → ℕ
next_row j = (j + 64) % size_mod

next_row-moved :
    (i c skip : ℕ) → i + c + skip + 64 < size_mod → next_row (moved i c skip) ≡ i + (c + skip)
next_row-moved i c skip h = omega arith

-- What the inner loop writes, and where it leaves the position.
abbrev pub Follows : Bytes → Bytes × ℕ → Bytes × Bytes → Type 0
Follows payload (s, j) (s', rest) = (s ≡ s') × (drop (next_row j) payload ≡ rest)

module _ (payload : Bytes) (fits : length payload + 67 < size_mod) where
  -- The data behind what has been read.
  skipped : (n skip : ℕ) (s : Bytes) → drop n payload ≡ s → drop (n + skip) payload ≡ drop skip s
  skipped n skip s at = sym (drop-drop skip n payload) ∙ ap (drop skip) at

  moved-skipped :
      (i c skip : ℕ) (s : Bytes)
      → i + c ≤ length payload
      → skip ≤ 3
      → drop (i + c) payload ≡ s
      → drop (next_row (moved i c skip)) payload ≡ drop skip s
  moved-skipped i c skip s low few at =
      ap (λ k. drop k payload) (next_row-moved i c skip (omega arith) ∙ omega arith)
      ∙ skipped (i + c) skip s at

  pub within : (n b : ℕ) (s : Bytes) → drop n payload ≡ b ∷ s → n + 1 ≤ length payload
  within n b s at =
      let some_left : length (drop n payload) ≡ suc (length s) = ap length at in
      omega (arith, length-drop n payload, some_left)

  pub row-Follows :
      (left c i : ℕ) (s : Bytes)
      → c + left ≡ 64
      → i + c ≤ length payload
      → drop (i + c) payload ≡ s
      → Follows payload (row left c i s) (row_text left s)
  unfolding row row_text
  row-Follows zero c i s all low at = (refl, ap (λ k. drop k payload) (omega arith) ∙ at)
  row-Follows (suc left) c i [] all low at =
      let round : next_row i ≡ (i + c) + suc left = omega arith in
      (refl, ap (λ k. drop k payload) round ∙ skipped (i + c) (suc left) [] at)
  row-Follows (suc left) c i (b ∷ s) all low at =
      let more = within (i + c) b s at in
      let later =
        row-Follows left (c + 1) i s (omega arith) (omega arith)
          (ap (λ k. drop k payload) (omega arith) ∙ skipped (i + c) 1 (b ∷ s) at) in
      elim (Bool-cases (is_crlf (b ∷ s))) [
        | inl e ↦ rw e (refl, moved-skipped i c 2 (b ∷ s) low (omega arith) at)
        | inr e ↦ elim (Bool-cases (is_crlf s)) [
          | inl f ↦ rw (e, f) (refl, moved-skipped i c 3 (b ∷ s) low (omega arith) at)
          | inr f ↦ rw (e, f) (ap (λ t. shown b ∷ t) later.0, later.1)
        ]
      ]
