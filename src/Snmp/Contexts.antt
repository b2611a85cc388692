-- ===== src/Snmp/Contexts.antt =====
-- The loop contexts of src/psychMIB.cc: `global_list` of snmp_context_t, by the addresses of its
-- elements. get_first_data_point adds a context, free_loop_context removes it.
use psych.Prelude.{
  ℕ, zero, suc, true, false, List, [], ◌∷◌, ◌++◌, ◌≡◌, refl, ap, arith, ◌==◌, ==_iff, if◌then◌else◌,
  All,
}
use mathlib.Core.List.{append_assoc}
use psych.Snmp.Objects.{Plugin}

-- a call of a get_first_data_point of a plug-in table: no context where there is no plug-in
unfoldable pub open_context : (address : ℕ) → List Plugin → List ℕ → List ℕ
open_context address [] contexts = contexts
open_context address (p ∷ ps) contexts = contexts ++ address ∷ []

-- What `erase` leaves of the list behind `remove_if`: a context less; or the end was erased, where none
-- was removed; or elements that were moved from are still there, where more than one was.
pub data Freed : Type 0 where
  freed : List ℕ → Freed
  erased_end leftovers : Freed

-- the elements that `remove_if` keeps
unfoldable pub kept : ℕ → List ℕ → List ℕ
kept address [] = []
kept address (x ∷ rest) = let later = kept address rest in if x == address then later else x ∷ later

abbrev erase_at : (removed : ℕ) → List ℕ → Freed
erase_at zero rest = erased_end
erase_at (suc zero) rest = freed rest
erase_at (suc (suc n)) rest = leftovers

unfoldable pub removed : ℕ → List ℕ → ℕ
removed address [] = 0
removed address (x ∷ rest) =
    let later = removed address rest in if x == address then suc later else later

-- `free_loop_context` of each table
unfoldable pub free_loop_context : ℕ → List ℕ → Freed
unfolding kept removed
free_loop_context address contexts = erase_at (removed address contexts) (kept address contexts)

abbrev Absent : ℕ → List ℕ → Type 0
Absent address l = All (λ x. (x == address) ≡ false) l

kept-Absent : (a : ℕ) (l m : List ℕ) → Absent a l → kept a (l ++ m) ≡ l ++ kept a m
unfolding kept
kept-Absent a [] m h = refl
kept-Absent a (x ∷ l) m (h, hs) = rw h (ap (λ r. x ∷ r) (kept-Absent a l m hs))

removed-Absent : (a : ℕ) (l m : List ℕ) → Absent a l → removed a (l ++ m) ≡ removed a m
unfolding removed
removed-Absent a [] m h = refl
removed-Absent a (x ∷ l) m (h, hs) = rw h (removed-Absent a l m hs)

kept_none : (a : ℕ) (l : List ℕ) → Absent a l → kept a l ≡ l
unfolding kept
kept_none a [] h = refl
kept_none a (x ∷ l) (h, hs) = rw h (ap (λ r. x ∷ r) (kept_none a l hs))

removed_none : (a : ℕ) (l : List ℕ) → Absent a l → removed a l ≡ 0
unfolding removed
removed_none a [] h = refl
removed_none a (x ∷ l) (h, hs) = rw h (removed_none a l hs)

-- A context that a call has opened, with an address that no other open context has, is freed without
-- touching those that were open before or have been opened since.
pub free_loop_context-open_context :
    (address : ℕ) (p : Plugin) (ps : List Plugin) (before since : List ℕ)
    → Absent address before
    → Absent address since
    → free_loop_context address (open_context address (p ∷ ps) before ++ since)
      ≡ freed (before ++ since)
unfolding free_loop_context open_context
free_loop_context-open_context address p ps before since h k =
    let here : (address == address) ≡ true = ground (arith, ==_iff address address) in
    rw
      (
        append_assoc before (address ∷ []) since,
        kept-Absent address before (address ∷ since) h,
        removed-Absent address before (address ∷ since) h,
      )
      (unfold kept removed in
        rw (here, kept_none address since k, removed_none address since k) refl)
