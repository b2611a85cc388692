-- ===== src/Snmp/Walk.antt =====
-- The rows that the calls for data points go through (src/psychMIB.cc), one after the other until
-- there is none.
use psych.Prelude.{ℕ, zero, suc, ◌≤◌, some, List, [], ◌∷◌, ◌++◌, map, ◌≡◌, refl, ap, arith, length}
use psych.Snmp.Objects.{SessionObject, ProviderObject, Plugin}
use psych.Snmp.Rows.{
  Found, out_of_range, no_row, found, SessionRow, plugin_row, session_row, Hunt, lost, at,
  in_sessions, yields, from_node, plugin_get_next, plugin_get_first, session_get_next,
}

-- How a walk ends: with the rows that it went through, out of a list, or out of fuel.
pub data Walked (R : Type 0) : Type 0 where
  complete : List R → Walked R
  broke unfinished : Walked R

abbrev pub then_row : {R : Type 0} → R → Walked R → Walked R
then_row r (complete rs) = complete (r ∷ rs)
then_row r broke = broke
then_row r unfinished = unfinished

-- The table helper calls for the next row as long as there is one.
unfoldable pub walk : {R C : Type 0} → (C → Found R C) → ℕ → Found R C → Walked R
walk next n out_of_range = broke
walk next n no_row = complete []
walk next zero (found r c) = unfinished
walk next (suc n) (found r c) = then_row r (walk next n (next c))

plugin_walk_lem :
    (ps : List Plugin) (n : ℕ)
    → length ps ≤ n
    → walk plugin_get_next n (plugin_get_next ps) ≡ complete (map plugin_row ps)
unfolding walk plugin_get_next
plugin_walk_lem [] n h = refl
plugin_walk_lem (p ∷ ps) zero h = absurd (omega arith)
plugin_walk_lem (p ∷ ps) (suc n) h =
    ap (then_row (plugin_row p)) (plugin_walk_lem ps n (omega arith))

pub plugin_walk :
    (ps : List Plugin) (n : ℕ)
    → length ps ≤ n
    → walk plugin_get_next n (plugin_get_first ps) ≡ complete (map plugin_row ps)
unfolding plugin_get_first walk
plugin_walk [] n h = refl
plugin_walk (p ∷ ps) n h = plugin_walk_lem (p ∷ ps) n h

-- A plug-in with a provider that has sessions, and one with a provider that has none.
abbrev pub HasSessions : Plugin → Type 0
HasSessions p =
    (q : ProviderObject) × (s : SessionObject) × (l : List SessionObject) × (p.provider ≡ some q)
    × (q.sessions ≡ s ∷ l)

abbrev pub HasNone : Plugin → Type 0
HasNone p = (q : ProviderObject) × (p.provider ≡ some q) × (q.sessions ≡ [])

abbrev pub sessions_of : Plugin → List SessionObject
sessions_of p = in_sessions p.provider [] (λ l. l)

abbrev pub tail : List SessionObject → List SessionObject
tail [] = []
tail (s ∷ l) = l

-- the rows of later plug-ins: all but the first session of each
unfoldable pub later_rows : List Plugin → List SessionRow
later_rows [] = []
later_rows (p ∷ ps) = map (session_row p) (tail (sessions_of p)) ++ later_rows ps

pub walk-yields :
    (r : SessionRow) (h : Hunt) (n : ℕ)
    → walk session_get_next (suc n) (yields r h)
      ≡ then_row r (walk session_get_next n (from_node h))
unfolding walk
walk-yields r lost n = refl
walk-yields r (at c) n = refl

pub in_sessions_lem {ℓ} :
    {A : Type ℓ} (p : Plugin) (out : A) (k : List SessionObject → A) (q : ProviderObject)
    (l : List SessionObject)
    → p.provider ≡ some q
    → q.sessions ≡ l
    → in_sessions p.provider out k ≡ k l
in_sessions_lem p out k q l e f = rw e (ap k f)
