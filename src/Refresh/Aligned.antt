-- ===== src/Refresh/Aligned.antt =====
-- Each mapped column is published with the value of its own cell (src/psych.cc, SendRefresh).
use psych.Prelude.{
  ℕ, zero, suc, ◌+◌, ◌≤◌, ◌<◌, Option, none, some, List, [], ◌∷◌, ◌≡◌, refl, arith, length,
  get_elem?, drop, inl, inr, Option-cases,
}
use psych.Prelude.Int.{ℤ}
use psych.Prelude.Bytes.{Bytes}
use psych.Messages.{FieldEntry}
use psych.Platform.{Platform}
use psych.Refresh.Fields.{
  Built, built, check_failed, find_field, value_entry, column_entry, column_first, column_fields,
}

drop-some {ℓ} :
    {A : Type ℓ} (xs : List A) (i : ℕ)
    → i < length xs
    → (x : A) × (get_elem? xs i ≡ some x) × (drop i xs ≡ x ∷ drop (suc i) xs)
drop-some [] i h = absurd (omega arith)
drop-some (x ∷ xs) zero h = (x, refl, refl)
drop-some (x ∷ xs) (suc i) h = drop-some xs i (omega arith)

module _ (plat : Platform) (fields : List (Bytes × ℤ)) where
  abbrev entry : Option ℤ → plat.Double → List FieldEntry → List FieldEntry
  entry none x rest = rest
  entry (some fid) x rest = value_entry plat fid x ∷ rest

  -- The description of the fields: columns and values side by side, without the unmapped columns.
  abbrev pub mapped : List Bytes → List plat.Double → List FieldEntry
  mapped [] values = []
  mapped (column ∷ columns) [] = []
  mapped (column ∷ columns) (x ∷ values) =
      entry (find_field column fields) x (mapped columns values)

  -- With the first column mapped, the index of its value would be -1.
  abbrev pub row_fields : Option ℤ → List Bytes → List plat.Double → Built (List FieldEntry)
  row_fields none columns values = built (mapped columns values)
  row_fields (some fid) columns values = check_failed

  later_fields :
      (columns : List Bytes) (values : List plat.Double) (i : ℕ)
      → i + length columns ≤ length values
      → column_fields plat fields (suc i) columns values ≡ built (mapped columns (drop i values))
  unfolding column_fields
  later_fields [] values i h = refl
  later_fields (c ∷ cs) values i h =
      let (x, at, rest) = drop-some values i (omega arith) in
      let later = later_fields cs values (suc i) (omega arith) in
      elim (Option-cases (find_field c fields)) [
        | inl e ↦ unfold column_first in rw (e, rest, e) later
        | inr (fid, e) ↦ unfold column_first column_entry in rw (e, rest, e, at, later)
      ]

  -- For a row with a value for each column but the first, the columns are published as described,
  -- each mapped one with the value of its own cell; and if the first column is mapped, the CHECK
  -- on the index of its value fails.
  pub column_fields-mapped :
      (first : Bytes) (columns : List Bytes) (values : List plat.Double)
      → length values + 1 ≡ length (first ∷ columns)
      → column_fields plat fields 0 (first ∷ columns) values
        ≡ row_fields (find_field first fields) columns values
  unfolding column_fields
  column_fields-mapped first columns values h = elim (Option-cases (find_field first fields)) [
    | inl e ↦ unfold column_first in rw e (later_fields columns values 0 (omega arith))
    | inr (fid, e) ↦ unfold column_first column_entry in rw e
  ]
