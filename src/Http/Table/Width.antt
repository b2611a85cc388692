-- ===== src/Http/Table/Width.antt =====
-- What the parser makes of the lines: the rows that it returns, and how wide they are.
use psych.Prelude.{
  ℕ, ◌+◌, ◌≤◌, ◌<◌, true, false, List, [], ◌∷◌, ◌++◌, ◌≡◌, ◌⊎◌, inl, inr, refl, sym, ap, ◌∙◌, arith,
  ◌==◌, ==_iff, if◌then◌else◌, length, All, All-append, Bool-cases, length-map,
}
use mathlib.Core.Path.{subst, subst₂}
use mathlib.Core.List.{append-nil, append_assoc}
use psych.Prelude.Bytes.{Bytes}
use psych.Platform.{Platform}
use psych.Http.Header.{Parsed, go, fail, bind-eq-go, escape, parse_stamp}
use psych.Http.Table.Lines.{
  ParseState, timestamp, header, row, fin, Row, Document, is_hash, parse_token, parse_tokens,
  add_row, data_lines, row_of, table_rows,
}

module _ (plat : Platform) where
  parse_tokens-fin :
      (doc : Document plat) (tokens : List Bytes) → parse_tokens plat fin doc tokens ≡ go doc
  unfolding parse_tokens
  parse_tokens-fin doc [] = refl
  parse_tokens-fin doc (l ∷ ls) = refl

  add_row-some :
      (doc : Document plat) (cells : List Bytes)
      → 0 < length cells
      → add_row plat doc cells ≡ go (record doc { rows = doc.rows ++ row_of plat cells })
  unfolding add_row
  add_row-some doc [] h = elim h [ ]
  add_row-some doc (x ∷ xs) h = refl

  -- one line that is not the last one
  row_line-eq :
      (doc : Document plat) (l : Bytes)
      → 0 < length doc.columns
      → is_hash l ≡ false
      → parse_token plat row doc l
        ≡ go (
          row,
          record doc {
            rows =
                doc.rows
                ++ (if length (plat.split_tabs l) == length doc.columns
                    then row_of plat (plat.split_tabs l)
                    else []);
          },
        )
  unfolding parse_token
  row_line-eq doc l h plain = elim (Bool-cases (length (plat.split_tabs l) == length doc.columns)) [
    | inl fits ↦ rw (plain, fits, add_row-some doc (plat.split_tabs l) (ground arith))
    | inr other ↦ rw (plain, other, append-nil)
  ]

  hash_line-eq :
      (doc : Document plat) (l : Bytes)
      → is_hash l ≡ true
      → parse_token plat row doc l ≡ go (fin, doc)
  unfolding parse_token
  hash_line-eq doc l yes_hash = rw yes_hash

  -- From the row state on, with columns, the parser returns, behind the rows that it had, those of
  -- the lines before the first that begins with `#`, less the lines with another number of cells.
  pub parse_tokens-table :
      (tokens : List Bytes) (doc : Document plat)
      → 0 < length doc.columns
      → parse_tokens plat row doc tokens
        ≡ go (record doc {
          rows = doc.rows ++ table_rows plat (length doc.columns) (data_lines tokens);
        })
  unfolding parse_tokens
  parse_tokens-table [] doc h = rw append-nil
  parse_tokens-table (l ∷ ls) doc h = elim (Bool-cases (is_hash l)) [
    | inl hash ↦ rw (hash_line-eq doc l hash, hash, append-nil) (parse_tokens-fin doc ls)
    | inr plain ↦
        rw (row_line-eq doc l h plain, plain) (parse_tokens-table ls _ h ∙ rw append_assoc)
  ]

  -- A row with a value for each column but the first.
  abbrev pub Wide : ℕ → Row plat → Type 0
  Wide width r = length r.1 + 1 ≡ width

  Wide-row_of : (cells : List Bytes) → All (Wide (length cells)) (row_of plat cells)
  Wide-row_of [] = tt
  Wide-row_of (x ∷ xs) = (omega (arith, length-map {0, 0} xs plat.read_double), tt)

  Wide-table_rows : (width : ℕ) (ls : List Bytes) → All (Wide width) (table_rows plat width ls)
  Wide-table_rows width [] = tt
  Wide-table_rows width (l ∷ ls) = elim (Bool-cases (length (plat.split_tabs l) == width)) [
    | inl fits ↦ rw fits (
        All-append (Wide width) (row_of plat (plat.split_tabs l)) _
          (subst (λ n. All (Wide n) (row_of plat (plat.split_tabs l))) ((==_iff _ width).0 fits)
            (Wide-row_of (plat.split_tabs l)))
          (Wide-table_rows width ls))
    | inr other ↦ rw other (Wide-table_rows width ls)
  ]

  -- A document whose rows fit its columns, of which there are two at least where there are rows.
  pub record IsTable (doc : Document plat) : Type 0 where
    pub wide : All (Wide (length doc.columns)) doc.rows
    pub two : (doc.rows ≡ []) ⊎ (2 ≤ length doc.columns)

  pub columns_line-go :
      (doc doc' : Document plat) (l : Bytes) (state : ParseState)
      → parse_token plat header doc l ≡ go (state, doc')
      → (state ≡ row) × (2 ≤ length doc'.columns) × (doc'.rows ≡ doc.rows)
  unfolding parse_token
  columns_line-go doc doc' l state h = ground arith

  pub stamp_line-go :
      (doc doc' : Document plat) (l : Bytes) (state : ParseState)
      → parse_token plat timestamp doc l ≡ go (state, doc')
      → (state ≡ header) × (doc'.rows ≡ doc.rows)
  unfolding parse_token
  stamp_line-go doc doc' l state h =
      let (stamp, _, e) = bind-eq-go (parse_stamp plat doc.stamp l) _ h in ground arith

  -- the table after its header
  row-IsTable :
      (doc doc' : Document plat) (tokens : List Bytes)
      → 2 ≤ length doc.columns
      → doc.rows ≡ []
      → parse_tokens plat row doc tokens ≡ go doc'
      → IsTable doc'
  row-IsTable doc doc' tokens two none h =
      let e = sym (parse_tokens-table tokens doc (omega arith)) ∙ h in
      let columns = ap (columns_or doc) e in
      let rows = ap (rows_or doc) e in
      let table = table_rows plat (length doc.columns) (data_lines tokens) in
      record {
        wide =
            subst₂ (λ (cs : List Bytes) (rs : List (Row plat)). All (Wide (length cs)) rs) columns
              rows (rw none (Wide-table_rows (length doc.columns) (data_lines tokens)));
        two = inr (subst (λ (cs : List Bytes). 2 ≤ length cs) columns two);
      }
    where
      columns_or : Document plat → Parsed (Document plat) → List Bytes
      columns_or d (go x) = x.columns
      columns_or d fail = d.columns
      columns_or d escape = d.columns

      rows_or : Document plat → Parsed (Document plat) → List (Row plat)
      rows_or d (go x) = x.rows
      rows_or d fail = d.rows
      rows_or d escape = d.rows

  no_rows-IsTable : (doc doc' : Document plat) → doc.rows ≡ [] → doc ≡ doc' → IsTable doc'
  no_rows-IsTable doc doc' none e = subst IsTable e (record { wide = rw none tt; two = inl none })

  header-IsTable :
      (doc doc' : Document plat) (tokens : List Bytes)
      → doc.rows ≡ []
      → parse_tokens plat header doc tokens ≡ go doc'
      → IsTable doc'
  unfolding parse_tokens
  header-IsTable doc doc' [] none h = no_rows-IsTable doc doc' none (cc)
  header-IsTable doc doc' (l ∷ ls) none h =
      let ((state, next), ran, later) = bind-eq-go (parse_token plat header doc l) _ h in
      let (at, two, rows) = columns_line-go doc next l state ran in
      row-IsTable next doc' ls two (rows ∙ none)
        (subst (λ s. parse_tokens plat s next ls ≡ go doc') at later)

  -- Whatever the lines are, the document that the parser returns, from one without rows, is a table:
  -- every row has a value for each column but the first, and where there is a row there are two
  -- columns at least.
  pub parse_tokens-IsTable :
      (doc doc' : Document plat) (tokens : List Bytes)
      → doc.rows ≡ []
      → parse_tokens plat timestamp doc tokens ≡ go doc'
      → IsTable doc'
  unfolding parse_tokens
  parse_tokens-IsTable doc doc' [] none h = no_rows-IsTable doc doc' none (cc)
  parse_tokens-IsTable doc doc' (l ∷ ls) none h =
      let ((state, next), ran, later) = bind-eq-go (parse_token plat timestamp doc l) _ h in
      let (at, rows) = stamp_line-go doc next l state ran in
      header-IsTable next doc' ls (rows ∙ none)
        (subst (λ s. parse_tokens plat s next ls ≡ go doc') at later)
