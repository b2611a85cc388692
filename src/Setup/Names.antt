-- ===== src/Setup/Names.antt =====
-- The map of field names that src/config.cc builds, where src/psych.cc looks a column up, against the
-- nodes that it was read from.
use psych.Prelude.{
  Bool, true, false, Option, none, some, List, [], ◌∷◌, ◌≡◌, refl, sym, ◌∙◌, ap, arith,
  if◌then◌else◌, All, Bool-cases, inl, inr, is_empty, not,
}
use mathlib.Core.Path.{subst}
use psych.Prelude.Int.{ℤ}
use psych.Prelude.Bytes.{Bytes, codes, equal, equal_iff, less}
use psych.Setup.Dom.{Dom, Read, read, failed, each, bind-read, read_inj}
use psych.Setup.Feed.{emplace, with_id, parse_field_node}
use psych.Setup.Numbers.{stoi}
use psych.Refresh.Fields.{find_field}

less_trans : (a b c : Bytes) → less a b ≡ true → less b c ≡ true → less a c ≡ true
unfolding less
less_trans [] [] c h k = cc h
less_trans [] (y ∷ b) [] h k = cc k
less_trans [] (y ∷ b) (z ∷ c) h k = refl
less_trans (x ∷ a) [] c h k = cc h
less_trans (x ∷ a) (y ∷ b) [] h k = cc k
less_trans (x ∷ a) (y ∷ b) (z ∷ c) h k = ground (arith, less_trans a b c)

less_total : (a b : Bytes) → equal a b ≡ false → less a b ≡ false → less b a ≡ true
unfolding less equal
less_total [] [] h k = cc h
less_total [] (y ∷ b) h k = cc k
less_total (x ∷ a) [] h k = refl
less_total (x ∷ a) (y ∷ b) h k = ground (arith, less_total a b)

less-equal : (a b : Bytes) → less a b ≡ true → equal a b ≡ false
unfolding less equal
less-equal [] [] h = cc h
less-equal [] (y ∷ b) h = refl
less-equal (x ∷ a) [] h = refl
less-equal (x ∷ a) (y ∷ b) h = ground (arith, less-equal a b)

equal_sym : (a b : Bytes) → equal a b ≡ equal b a
unfolding equal
equal_sym [] [] = refl
equal_sym [] (y ∷ b) = refl
equal_sym (x ∷ a) [] = refl
equal_sym (x ∷ a) (y ∷ b) = ground (arith, equal_sym a b)

-- The keys of a std::map are in strict order.
abbrev pub Before : Bytes → List (Bytes × ℤ) → Type 0
Before k l = All (λ (e : Bytes × ℤ). less k e.0 ≡ true) l

abbrev pub IsSorted : List (Bytes × ℤ) → Type 0
IsSorted [] = Unit
IsSorted ((k, v) ∷ rest) = Before k rest × IsSorted rest

abbrev pub or_else : Option ℤ → Option ℤ → Option ℤ
or_else none o = o
or_else (some v) o = some v

pub or_else-none : (o : Option ℤ) → or_else o none ≡ o
or_else-none none = refl
or_else-none (some v) = refl

-- one entry as a function
abbrev pub at_key : Bytes → ℤ → Bytes → Option ℤ
at_key k v j = if equal k j then some v else none

Before-trans : (j k : Bytes) (l : List (Bytes × ℤ)) → less j k ≡ true → Before k l → Before j l
Before-trans j k [] h b = tt
Before-trans j k ((i, v) ∷ l) h (first, rest) =
    (less_trans j k i h first, Before-trans j k l h rest)

Before-find : (k : Bytes) (l : List (Bytes × ℤ)) → Before k l → find_field k l ≡ none
unfolding find_field
Before-find k [] b = refl
Before-find k ((i, v) ∷ l) (first, rest) =
    rw (equal_sym i k ∙ less-equal k i first) (Before-find k l rest)

emplace-Before :
    (j k : Bytes) (v : ℤ) (l : List (Bytes × ℤ))
    → less j k ≡ true
    → Before j l
    → Before j (emplace k v l)
unfolding emplace
emplace-Before j k v [] h b = (h, tt)
emplace-Before j k v ((i, w) ∷ l) h (first, rest) = elim (Bool-cases (equal k i)) [
  | inl same ↦ rw same (first, rest)
  | inr other ↦ elim (Bool-cases (less k i)) [
    | inl lower ↦ rw (other, lower) (h, (first, rest))
    | inr higher ↦ rw (other, higher) (first, emplace-Before j k v l h rest)
  ]
]

pub emplace-IsSorted :
    (k : Bytes) (v : ℤ) (l : List (Bytes × ℤ)) → IsSorted l → IsSorted (emplace k v l)
unfolding emplace
emplace-IsSorted k v [] s = (tt, tt)
emplace-IsSorted k v ((i, w) ∷ l) (b, s) = elim (Bool-cases (equal k i)) [
  | inl same ↦ rw same (b, s)
  | inr other ↦ elim (Bool-cases (less k i)) [
    | inl lower ↦ rw (other, lower) ((lower, Before-trans k i l lower b), (b, s))
    | inr higher ↦
        rw (other, higher)
          (emplace-Before i k v l (less_total k i other higher) b, emplace-IsSorted k v l s)
  ]
]

pub find_field-emplace :
    (j k : Bytes) (v : ℤ) (l : List (Bytes × ℤ))
    → IsSorted l
    → find_field j (emplace k v l) ≡ or_else (find_field j l) (at_key k v j)
unfolding emplace find_field
find_field-emplace j k v [] s = refl
find_field-emplace j k v ((i, w) ∷ l) (b, s) = elim (Bool-cases (equal k i)) [
  | inl same ↦ elim (Bool-cases (equal i j)) [
    | inl here ↦ rw (same, here) refl
    | inr there ↦
        let apart : equal k j ≡ false = cc (there, (equal_iff k i).0 same) in
        rw (same, there, apart) (sym (or_else-none (find_field j l)))
  ]
  | inr other ↦ elim (Bool-cases (less k i)) [
    | inl lower ↦ elim (Bool-cases (equal k j)) [
      | inl here ↦
          let absent : find_field j ((i, w) ∷ l) ≡ none =
            subst (λ x. find_field x ((i, w) ∷ l) ≡ none) ((equal_iff k j).0 here)
              (Before-find k ((i, w) ∷ l) (lower, Before-trans k i l lower b)) in
          rw (other, lower, here) (sym (ap (λ o. or_else o (some v)) absent))
      | inr there ↦ rw (other, lower, there) (sym (or_else-none _))
    ]
    | inr higher ↦ elim (Bool-cases (equal i j)) [
      | inl here ↦ rw (other, higher, here) refl
      | inr there ↦ rw (other, higher, there) (find_field-emplace j k v l s)
    ]
  ]
]

-- A read that four tests have let pass.
guarded :
    (x y z : Bool) (m : Read (List (Bytes × ℤ))) (l : List (Bytes × ℤ))
    → (if not x then failed else if y then failed else if z then failed else m) ≡ read l
    → m ≡ read l
guarded false y z m l h = absurd (cc h)
guarded true true z m l h = absurd (cc h)
guarded true false true m l h = absurd (cc h)
guarded true false false m l h = h

with_id-read :
    (name : Bytes) (o : Option ℤ) (fields l : List (Bytes × ℤ))
    → with_id name o fields ≡ read l
    → (v : ℤ) × (o ≡ some v) × (emplace name v fields ≡ l)
with_id-read name none fields l h = absurd (cc h)
with_id-read name (some v) fields l h = (v, refl, read_inj (emplace name v fields) l h)

module _ (dom : Dom) where
  abbrev name_of : dom.Node → Bytes
  name_of node = dom.attribute node (codes "name")

  -- The FID of the first node with a name.
  unfoldable pub first_named : List dom.Node → Bytes → Option ℤ
  first_named [] j = none
  first_named (node ∷ rest) j =
      if equal (name_of node) j then stoi (dom.attribute node (codes "id")) else first_named rest j

  node_lem :
      (node : dom.Node) (fields l : List (Bytes × ℤ))
      → parse_field_node dom node fields ≡ read l
      → (v : ℤ) × (stoi (dom.attribute node (codes "id")) ≡ some v)
        × (emplace (name_of node) v fields ≡ l)
  unfolding parse_field_node
  node_lem node fields l h =
      with_id-read (name_of node) (stoi (dom.attribute node (codes "id"))) fields l (
        guarded (dom.has_attributes node) (is_empty (name_of node))
          (is_empty (dom.attribute node (codes "id"))) _ l h)

  or_else-step :
      (o : Option ℤ) (node : dom.Node) (rest : List dom.Node) (j : Bytes) (v : ℤ)
      → stoi (dom.attribute node (codes "id")) ≡ some v
      → or_else (or_else o (at_key (name_of node) v j)) (first_named rest j)
        ≡ or_else o (first_named (node ∷ rest) j)
  unfolding first_named
  or_else-step (some x) node rest j v h = refl
  or_else-step none node rest j v h = elim (Bool-cases (equal (name_of node) j)) [
    | inl here ↦ rw (here, h) refl
    | inr there ↦ rw there refl
  ]

  fields_lem :
      (nodes : List dom.Node) (l l' : List (Bytes × ℤ)) (j : Bytes)
      → IsSorted l
      → each (parse_field_node dom) nodes l ≡ read l'
      → find_field j l' ≡ or_else (find_field j l) (first_named nodes j)
  unfolding first_named
  fields_lem [] l l' j s h =
      ap (find_field j) (sym (read_inj l l' h)) ∙ sym (or_else-none (find_field j l))
  fields_lem (node ∷ rest) l l' j s h =
      let (x, first, later) =
        bind-read (parse_field_node dom node l) (each (parse_field_node dom) rest) h in
      let (v, id, same) = node_lem node l x first in
      fields_lem rest x l' j (subst IsSorted same (emplace-IsSorted (name_of node) v l s)) later
      ∙ ap (λ o. or_else o (first_named rest j))
          (ap (find_field j) (sym same) ∙ find_field-emplace j (name_of node) v l s)
      ∙ or_else-step (find_field j l) node rest j v id

  -- If the field nodes of a resource are read, then the lookup of any column in the resulting sorted
  -- map yields the FID of the first of the nodes with that name, and nothing where no node has it.
  pub find_field-parsed :
      (nodes : List dom.Node) (fields : List (Bytes × ℤ)) (column : Bytes)
      → each (parse_field_node dom) nodes [] ≡ read fields
      → find_field column fields ≡ first_named nodes column
  unfolding find_field
  find_field-parsed nodes fields column h = fields_lem nodes [] fields column tt h
