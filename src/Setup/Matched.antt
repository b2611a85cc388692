-- ===== src/Setup/Matched.antt =====
-- Loops of the parsers of src/config.cc: what they append and emplace, element by element.
use psych.Prelude.{
  Option, none, some, List, [], ◌∷◌, ◌++◌, ◌≡◌, refl, sym, ap, ◌∙◌, if◌then◌else◌, Bool-cases, inl,
  inr,
}
use mathlib.Core.List.{append-nil, append_assoc}
use psych.Prelude.Int.{ℤ}
use psych.Prelude.Bytes.{Bytes, equal}
use psych.Refresh.Fields.{find_field}
use psych.Setup.Dom.{Read, read, each, bind-read, read_inj}
use psych.Setup.Feed.{emplace}
use psych.Setup.Names.{
  IsSorted, or_else, at_key, or_else-none, emplace-IsSorted, find_field-emplace,
}
use psych.Setup.Json.{check}

-- Two lists of one length, whose elements belong together.
abbrev pub Matched {ℓ κ} : {A : Type ℓ} {B : Type κ} → (A → B → Type 0) → List A → List B → Type 0
Matched R [] [] = Unit
Matched R [] (b ∷ bs) = ⊥
Matched R (a ∷ rest) [] = ⊥
Matched R (a ∷ rest) (b ∷ bs) = R a b × Matched R rest bs

pub check-some {ℓ} : {A : Type ℓ} (o : Option A) (a : A) → check o ≡ read a → o ≡ some a
check-some none a h = absurd (cc h)
check-some (some b) a h = ap some (read_inj b a h)

-- A loop whose steps append an element each.
pub each-appended {ℓ κ μ} :
    {N : Type ℓ} {A : Type κ} {X : Type μ} (get : A → List X) (R : N → X → Type 0)
    (f : N → A → Read A)
    → ((n : N) (a b : A) → f n a ≡ read b → (x : X) × (get b ≡ get a ++ x ∷ []) × R n x)
    → (l : List N) (a b : A) → each f l a ≡ read b
    → (xs : List X) × (get b ≡ get a ++ xs) × Matched R l xs
each-appended get R f step [] a b h =
    ([], ap get (sym (read_inj a b h)) ∙ sym (append-nil (get a)), tt)
each-appended get R f step (n ∷ l) a b h =
    let (a1, first, rest) = bind-read (f n a) (each f l) h in
    let (x, here, r) = step n a a1 first in
    let (xs, there, rs) = each-appended get R f step l a1 b rest in
    (x ∷ xs, there ∙ ap (λ q. q ++ xs) here ∙ append_assoc (get a) (x ∷ []) xs, (r, rs))

-- the entries, emplaced in order
abbrev pub emplace_all {ℓ} : {V : Type ℓ} → List (Bytes × V) → List (Bytes × V) → List (Bytes × V)
emplace_all [] l = l
emplace_all ((k, v) ∷ rest) l = emplace_all rest (emplace k v l)

pub each-emplaced {ℓ κ} :
    {N : Type ℓ} {V : Type κ} (R : N → Bytes × V → Type 0)
    (f : N → List (Bytes × V) → Read (List (Bytes × V)))
    → ((n : N) (a b : List (Bytes × V))
        → f n a ≡ read b
        → (e : Bytes × V) × (emplace e.0 e.1 a ≡ b) × R n e)
    → (l : List N) (a b : List (Bytes × V)) → each f l a ≡ read b
    → (es : List (Bytes × V)) × (emplace_all es a ≡ b) × Matched R l es
each-emplaced R f step [] a b h = ([], read_inj a b h, tt)
each-emplaced R f step (n ∷ l) a b h =
    let (a1, first, rest) = bind-read (f n a) (each f l) h in
    let (e, here, r) = step n a a1 first in
    let (es, there, rs) = each-emplaced R f step l a1 b rest in
    (e ∷ es, ap (emplace_all es) here ∙ there, (r, rs))

-- the value of the first entry with a key
unfoldable pub first_entry : List (Bytes × ℤ) → Bytes → Option ℤ
first_entry [] j = none
first_entry ((k, v) ∷ rest) j = if equal k j then some v else first_entry rest j

or_else-first :
    (o : Option ℤ) (k : Bytes) (v : ℤ) (rest : List (Bytes × ℤ)) (j : Bytes)
    → or_else (or_else o (at_key k v j)) (first_entry rest j)
      ≡ or_else o (first_entry ((k, v) ∷ rest) j)
unfolding first_entry
or_else-first (some x) k v rest j = refl
or_else-first none k v rest j = elim (Bool-cases (equal k j)) [
  | inl here ↦ rw here refl
  | inr there ↦ rw there refl
]

pub find_field-emplace_all :
    (j : Bytes) (es l : List (Bytes × ℤ))
    → IsSorted l
    → find_field j (emplace_all es l) ≡ or_else (find_field j l) (first_entry es j)
unfolding first_entry
find_field-emplace_all j [] l s = sym (or_else-none (find_field j l))
find_field-emplace_all j ((k, v) ∷ es) l s =
    find_field-emplace_all j es (emplace k v l) (emplace-IsSorted k v l s)
    ∙ ap (λ o. or_else o (first_entry es j)) (find_field-emplace j k v l s)
    ∙ or_else-first (find_field j l) k v es j

-- In a map that starts empty, a key has the value of its first entry.
pub find_none :
    (j : Bytes) (es : List (Bytes × ℤ)) → find_field j (emplace_all es []) ≡ first_entry es j
unfolding find_field first_entry
find_none j es = find_field-emplace_all j es [] tt
