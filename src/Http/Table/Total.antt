-- ===== src/Http/Table/Total.antt =====
-- The parser never throws.
use psych.Prelude.{◌≤◌, List, [], ◌∷◌, ◌≡◌, ◌≢◌, refl, sym, arith, length}
use mathlib.Core.Path.{subst}
use psych.Prelude.Bytes.{Bytes}
use psych.Platform.{Platform}
use psych.Http.Header.{Parsed, go, fail, escape, ◌>>=◌, parse_stamp, parse_stamp-ne-escape}
use psych.Http.Table.Lines.{timestamp, header, row, Document, parse_token, parse_tokens}
use psych.Http.Table.Width.{parse_tokens-table, columns_line-go, stamp_line-go}

module _ {ℓ κ} {A : Type ℓ} {B : Type κ} where
  pub bind-ne-escape :
      (m : Parsed A) (f : A → Parsed B)
      → m ≢ escape
      → ((a : A) → m ≡ go a → f a ≢ escape)
      → (m >>= f) ≢ escape
  bind-ne-escape (go a) f h k e = k a refl e
  bind-ne-escape fail f h k e = cc
  bind-ne-escape escape f h k e = h refl

module _ (plat : Platform) where
  row-ne-escape :
      (doc : Document plat) (tokens : List Bytes)
      → 2 ≤ length doc.columns
      → parse_tokens plat row doc tokens ≢ escape
  row-ne-escape doc tokens two h = cc (parse_tokens-table plat tokens doc (omega arith))

  columns_line-ne-escape :
      (doc : Document plat) (l : Bytes) → parse_token plat header doc l ≢ escape
  unfolding parse_token
  columns_line-ne-escape doc l h = ground arith

  stamp_line-ne-escape :
      (doc : Document plat) (l : Bytes) → parse_token plat timestamp doc l ≢ escape
  unfolding parse_token
  stamp_line-ne-escape doc l =
      bind-ne-escape (parse_stamp plat doc.stamp l) _ (parse_stamp-ne-escape plat doc.stamp l)
        (λ stamp _ h. cc)

  header-ne-escape :
      (doc : Document plat) (tokens : List Bytes) → parse_tokens plat header doc tokens ≢ escape
  unfolding parse_tokens
  header-ne-escape doc [] = λ h. cc
  header-ne-escape doc (l ∷ ls) =
      bind-ne-escape (parse_token plat header doc l) _ (columns_line-ne-escape doc l)
        λ (state, next) ran.
          let (at, two, _) = columns_line-go plat doc next l state ran in
          subst (λ s. parse_tokens plat s next ls ≢ escape) (sym at) (row-ne-escape next ls two)

  -- Whatever the lines are, the parser does not throw, and reads no cell that is not there.
  pub parse_tokens-ne-escape :
      (doc : Document plat) (tokens : List Bytes) → parse_tokens plat timestamp doc tokens ≢ escape
  unfolding parse_tokens
  parse_tokens-ne-escape doc [] = λ h. cc
  parse_tokens-ne-escape doc (l ∷ ls) =
      bind-ne-escape (parse_token plat timestamp doc l) _ (stamp_line-ne-escape doc l)
        λ (state, next) ran.
          let (at, _) = stamp_line-go plat doc next l state ran in
          subst (λ s. parse_tokens plat s next ls ≢ escape) (sym at) (header-ne-escape next ls)
