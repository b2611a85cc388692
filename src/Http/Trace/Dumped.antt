-- ===== src/Http/Trace/Dumped.antt =====
-- The outer loop of a trace (src/psych.cc, on_http_trace) against the description of its rows.
use psych.Prelude.{
  ℕ, zero, suc, ◌+◌, ◌<◌, true, false, Option, some, List, [], ◌∷◌, ◌≡◌, refl, sym, ap, ◌∙◌, arith,
  ltb, map, length, length-drop, drop,
}
use mathlib.Core.Path.{subst}
use psych.Prelude.Bytes.{Bytes}
use psych.Http.Trace.{size_mod, cons_row, row, dump}
use psych.Http.Trace.Suffix.{next_row, row_text, Follows, within, row-Follows}
use psych.Http.Trace.Rows.{rows_of, lines_of, later_rows, rows_of-row_text, row_text_less}

-- the texts of the rows
abbrev pub texts : List (ℕ × Bytes) → List Bytes
texts = map (λ r. r.1)

module _ (payload : Bytes) (fits : length payload + 67 < size_mod) where
  abbrev Dumps : Option (List (ℕ × Bytes)) → Bytes → Type 0
  Dumps result left = (rows : List (ℕ × Bytes)) × (result ≡ some rows) × (texts rows ≡ rows_of left)

  row_at :
      (i b : ℕ) (s : Bytes)
      → drop i payload ≡ b ∷ s
      → Follows payload (row 64 0 i (drop i payload)) (row_text 64 (b ∷ s))
  row_at i b s at =
      let inside = within payload fits i b s at in
      subst (λ x. Follows payload (row 64 0 i x) (row_text 64 (b ∷ s))) (sym at)
        (row-Follows payload fits 64 0 i (b ∷ s) refl (omega arith)
          (ap (λ k. drop k payload) (omega arith) ∙ at))

  inside : (i b : ℕ) (s : Bytes) → drop i payload ≡ b ∷ s → ltb i (length payload) ≡ true
  inside i b s at = let more = within payload fits i b s at in ground arith

  outside : (i : ℕ) → drop i payload ≡ [] → ltb i (length payload) ≡ false
  outside i at =
      let none_left : length (drop i payload) ≡ 0 = ap length at in
      ground (arith, length-drop i payload)

  Dumps-more :
      (fuel i b : ℕ) (s : Bytes)
      → drop i payload ≡ b ∷ s
      → Dumps (dump fuel payload (next_row (row 64 0 i (drop i payload)).1)) (row_text 64 (b ∷ s)).1
      → Dumps (dump (suc fuel) payload i) (b ∷ s)
  unfolding dump
  Dumps-more fuel i b s at (rows, later, same) =
      let (text, _) = row_at i b s at in
      (
        (i, (row 64 0 i (drop i payload)).0) ∷ rows,
        rw (inside i b s at) (ap (cons_row i (row 64 0 i (drop i payload)).0) later),
        ap (λ t. t ∷ texts rows) text
            ∙ ap (λ r. (row_text 64 (b ∷ s)).0 ∷ r) same
            ∙ sym (rows_of-row_text b s),
      )

  Dumps-none : (fuel i : ℕ) → drop i payload ≡ [] → Dumps (dump (suc fuel) payload i) []
  unfolding dump rows_of lines_of later_rows
  Dumps-none fuel i at = ([], rw (outside i at) refl, refl)

  dump_from :
      (fuel i : ℕ) (left : Bytes)
      → drop i payload ≡ left
      → length left < fuel
      → Dumps (dump fuel payload i) left
  dump_from zero i left at h = absurd (omega arith)
  dump_from (suc fuel) i [] at h = Dumps-none fuel i at
  dump_from (suc fuel) i (b ∷ s) at h = Dumps-more fuel i b s at (
      dump_from fuel (next_row (row 64 0 i (drop i payload)).1) (row_text 64 (b ∷ s)).1
        (row_at i b s at).1 (omega (arith, row_text_less b s)))

  -- If the data are so few that no position wraps around, then with fuel for one round more than there
  -- are bytes, which is enough, the trace comes to an end, and its rows are those of the description:
  -- the lines that end in a carriage return and a new line and what stands behind the last of them,
  -- each in rows of 64 characters, with a point for each that is not printable.
  pub dump-rows_of :
      (rows : List (ℕ × Bytes)) × (dump (length payload + 1) payload 0 ≡ some rows)
      × (texts rows ≡ rows_of payload)
  dump-rows_of = dump_from (length payload + 1) 0 payload refl (omega arith)
