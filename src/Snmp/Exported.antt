-- ===== src/Snmp/Exported.antt =====
-- The counters that the performance tables answer (src/psychMIB.cc), against the enums of
-- src/session.hh and src/psych.hh.
use psych.Prelude.{
  false, ℕ, zero, suc, ◌+◌, ◌≤◌, ◌<◌, [], ◌∷◌, ◌≡◌, refl, ap, ◌∙◌, arith, ◌==◌, drop, ==_iff,
}
use psych.Snmp.Objects.{SessionObject, Plugin, Value, counter}
use psych.Snmp.Columns.{
  Cases, plugin_performance_cases, session_performance_cases, stat, session_stat,
}
use psych.Snmp.Handlers.{
  answered, select, get, handle, plugin_performance_handler, session_performance_handler,
}
use psych.Snmp.Registered.{Consecutive, asks}

module _ {A : Type 0} (a : A) where
  -- The first cases are not those of a later column.
  select-drop :
      (d m n : ℕ) (cases : Cases A)
      → Consecutive m cases
      → m + d ≤ n
      → select n cases a ≡ select n (drop d cases) a
  unfolding select
  select-drop zero m n cases h le = refl
  select-drop (suc d) m n [] h le = refl
  select-drop (suc d) m n ((k, value) ∷ rest) (e, h) le =
      ground (arith, ==_iff k n, select-drop d (suc m) n rest h (omega arith))

  -- The first `c` cases are those of the columns from `m` on, which answer the counters from `i` on.
  abbrev Run : (ℕ → A → Value) → ℕ → ℕ → ℕ → Cases A → Type 0
  Run f zero m i cases = Unit
  Run f (suc c) m i [] = ⊥
  Run f (suc c) m i ((k, value) ∷ rest) = (k ≡ m) × (value a ≡ f i a) × Run f c (suc m) (suc i) rest

  select-Run :
      (f : ℕ → A → Value) (c m i j n l : ℕ) (cases : Cases A)
      → Run f c m i cases
      → j < c
      → n ≡ m + j
      → l ≡ i + j
      → select n cases a ≡ answered (f l a)
  unfolding select
  select-Run f zero m i j n l cases h lt x y = absurd (omega arith)
  select-Run f (suc c) m i j n l [] h lt x y = elim h [ ]
  select-Run f (suc c) m i zero n l ((k, value) ∷ rest) (e, v, h) lt x y =
      let same : i ≡ l = omega arith in
      rw ((==_iff k n).1 (omega arith)) (ap answered (v ∙ ap (λ u. f u a) same))
  select-Run f (suc c) m i (suc j) n l ((k, value) ∷ rest) (e, v, h) lt x y =
      let other : (k == n) ≡ false = ground arith in
      rw other
        (select-Run f c (suc m) (suc i) j n l rest h (omega arith) (omega arith) (omega arith))

-- Column n + 5 of the session performance table is the counter n of the session, for every counter,
-- and column k + 14 of the plug-in performance table is the counter k + 2 of the plug-in, for every
-- counter of HTTP.
counters_exported :
    (p : Plugin) (s : SessionObject) (n k : ℕ)
    → n < 20
    → k < 13
    → (session_performance_handler get (asks s (5 + n) ∷ [])
        ≡ answered (counter (s.session.stats n)) ∷ [])
      × (plugin_performance_handler get (asks p (14 + k) ∷ [])
          ≡ answered (counter (p.stats (2 + k))) ∷ [])
unfolding session_performance_handler plugin_performance_handler handle session_performance_cases
    plugin_performance_cases
counters_exported p s n k lt lt' = (
  ap (λ x. x ∷ [])
      (select-drop s 1 4 (5 + n) session_performance_cases (ground arith) (omega arith)
        ∙ select-Run s session_stat 20 5 0 n (5 + n) n (drop 1 session_performance_cases)
            (ground arith) lt (omega arith) (omega arith)),
  ap (λ x. x ∷ [])
      (select-drop p 11 3 (14 + k) plugin_performance_cases (ground arith) (omega arith)
        ∙ select-Run p stat 13 14 2 k (14 + k) (2 + k) (drop 11 plugin_performance_cases)
            (ground arith) lt' (omega arith) (omega arith)),
)
