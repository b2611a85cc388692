-- ===== src/Snmp/Registered.antt =====
-- The registration of the tables (src/psychMIB.cc, initialize_table_*), and that each handler
-- answers just the columns that its table is registered with.
use psych.Prelude.{
  ℕ, ltb, ltb→lt, ◌+◌, ◌≤◌, ◌<◌, suc, some, List, [], ◌∷◌, ◌≡◌, ◌↔◌, inl, inr, refl, ap, ◌==◌,
  length, arith, Bool-cases, ==_iff,
}
use psych.Snmp.Objects.{SessionObject, Plugin, Value}
use psych.Snmp.Columns.{
  Cases, plugin_cases, plugin_performance_cases, session_cases, session_performance_cases,
}
use psych.Snmp.Handlers.{
  Answer, answered, no_such_object, select, Request, get, handle, plugin_handler,
  plugin_performance_handler, session_handler, session_performance_handler,
}

pub data IndexType : Type 0 where
  asn_octet_str asn_unsigned : IndexType

-- `netsnmp_table_registration_info`, with the name and the OID of the handler
pub record Registration : Type 0 where
  pub oid : List ℕ
  pub indexes : List IndexType
  pub min_column : ℕ
  pub max_column : ℕ

unfoldable pub plugin_table : Registration
plugin_table = record {
  oid = 1 ∷ 3 ∷ 6 ∷ 1 ∷ 4 ∷ 1 ∷ 67 ∷ 2 ∷ 1 ∷ 2 ∷ [];
  indexes = asn_octet_str ∷ asn_unsigned ∷ [];
  min_column = 3;
  max_column = 7;
}

unfoldable pub plugin_performance_table : Registration
plugin_performance_table = record {
  oid = 1 ∷ 3 ∷ 6 ∷ 1 ∷ 4 ∷ 1 ∷ 67 ∷ 2 ∷ 1 ∷ 4 ∷ [];
  indexes = asn_octet_str ∷ asn_unsigned ∷ [];
  min_column = 3;
  max_column = 26;
}

unfoldable pub session_table : Registration
session_table = record {
  oid = 1 ∷ 3 ∷ 6 ∷ 1 ∷ 4 ∷ 1 ∷ 67 ∷ 2 ∷ 1 ∷ 5 ∷ [];
  indexes = asn_octet_str ∷ asn_unsigned ∷ asn_unsigned ∷ [];
  min_column = 4;
  max_column = 12;
}

unfoldable pub session_performance_table : Registration
session_performance_table = record {
  oid = 1 ∷ 3 ∷ 6 ∷ 1 ∷ 4 ∷ 1 ∷ 67 ∷ 2 ∷ 1 ∷ 6 ∷ [];
  indexes = asn_octet_str ∷ asn_unsigned ∷ asn_unsigned ∷ [];
  min_column = 4;
  max_column = 26;
}

-- The columns of the cases are m, m + 1, m + 2 and so on.
abbrev pub Consecutive : {A : Type 0} → ℕ → Cases A → Type 0
Consecutive m [] = Unit
Consecutive m ((k, value) ∷ rest) = (k ≡ m) × Consecutive (suc m) rest

abbrev IsAnswered : Answer → Type 0
IsAnswered a = (v : Value) × (a ≡ answered v)

-- A column is answered, or it is no object.
module _ {A : Type 0} (a : A) (n : ℕ) where
  select_below :
      (m : ℕ) (cases : Cases A) → Consecutive m cases → n < m → select n cases a ≡ no_such_object
  unfolding select
  select_below m [] h lt = refl
  select_below m ((k, value) ∷ rest) (e, h) lt =
      ground (arith, ==_iff k n, select_below (suc m) rest h (omega arith))

  select_above :
      (m : ℕ) (cases : Cases A)
      → Consecutive m cases
      → m + length cases ≤ n
      → select n cases a ≡ no_such_object
  unfolding select
  select_above m [] h le = refl
  select_above m ((k, value) ∷ rest) (e, h) le =
      ground (arith, ==_iff k n, select_above (suc m) rest h (omega arith))

  select_inside :
      (m : ℕ) (cases : Cases A)
      → Consecutive m cases
      → m ≤ n
      → n < m + length cases
      → IsAnswered (select n cases a)
  unfolding select
  select_inside m [] h le lt = absurd (omega arith)
  select_inside m ((k, value) ∷ rest) (e, h) le lt = elim (Bool-cases (k == n)) [
    | inl same ↦ rw same (value a, refl)
    | inr other ↦ rw other (select_inside (suc m) rest h (ground (arith, ==_iff k n)) (omega arith))
  ]

abbrev pub asks : {A : Type 0} → A → ℕ → Request A
asks a n = record { row = some a; column = some n }

-- The one answer is a value just when the column is one that the table is registered with.
abbrev pub Serves : Registration → ℕ → List Answer → Type 0
Serves t n answers =
    ((v : Value) × (answers ≡ answered v ∷ [])) ↔ ((t.min_column ≤ n) × (n ≤ t.max_column))

answer-inj : (x : Answer) (v : Value) → x ∷ [] ≡ answered v ∷ [] → x ≡ answered v
answer-inj x v h = cc h

module _ {A : Type 0} (t : Registration) (cases : Cases A) (a : A) (n : ℕ)
    (h : Consecutive t.min_column cases) (e : suc t.max_column ≡ t.min_column + length cases) where
  registered_of_answered :
      (v : Value) → select n cases a ≡ answered v → (t.min_column ≤ n) × (n ≤ t.max_column)
  registered_of_answered v got = elim (Bool-cases (ltb n t.min_column)) [
    | inl below ↦
        absurd (cc (got, select_below a n t.min_column cases h (ltb→lt n t.min_column below)))
    | inr above ↦ elim (Bool-cases (ltb t.max_column n)) [
      | inl over ↦ absurd (
          cc (
            got,
            select_above a n t.min_column cases h (omega (arith, ltb→lt t.max_column n over)),
          ))
      | inr under ↦ ground arith
    ]
  ]

  Serves-of_Consecutive : Serves t n (handle cases get (asks a n ∷ []))
  unfolding handle
  Serves-of_Consecutive = (
    λ (v, got). registered_of_answered v (answer-inj _ v got),
    λ (low, high).
        let (v, got) = select_inside a n t.min_column cases h low (omega arith) in
        (v, ap (λ x. x ∷ []) got),
  )

-- Whatever the row, each of the four handlers answers a value just for the columns that its table is
-- registered with.
pub tables_served :
    (p : Plugin) (s : SessionObject) (n : ℕ)
    → Serves plugin_table n (plugin_handler get (asks p n ∷ []))
      × Serves plugin_performance_table n (plugin_performance_handler get (asks p n ∷ []))
      × Serves session_table n (session_handler get (asks s n ∷ []))
      × Serves session_performance_table n (session_performance_handler get (asks s n ∷ []))
unfolding plugin_table plugin_performance_table session_table session_performance_table plugin_cases
    plugin_performance_cases session_cases session_performance_cases plugin_handler
    plugin_performance_handler session_handler session_performance_handler
tables_served p s n = (
  Serves-of_Consecutive plugin_table plugin_cases p n (ground arith) refl,
  Serves-of_Consecutive plugin_performance_table plugin_performance_cases p n (ground arith) refl,
  Serves-of_Consecutive session_table session_cases s n (ground arith) refl,
  Serves-of_Consecutive session_performance_table session_performance_cases s n (ground arith) refl,
)
