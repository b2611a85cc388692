-- ===== src/Snmp/Skipped.antt =====
-- What a walk through a session table reaches (src/psychMIB.cc): the first session of every plug-in
-- but the first is missing, and a plug-in without sessions is an access out of range.
use psych.Prelude.{
  ℕ, zero, suc, ◌<◌, ◌≤◌, List, [], ◌∷◌, ◌++◌, map, ◌≡◌, refl, ap, sym, ◌∙◌, arith, length, All,
}
use mathlib.Core.Path.{subst}
use psych.Snmp.Objects.{SessionObject, Plugin}
use psych.Snmp.Rows.{
  plugin_row, plugin_get_next, plugin_get_first, plugin_performance_get_next,
  plugin_performance_get_first, out_of_range, SessionRow, session_row, in_sessions, first_node,
  hunt, yields, next_row, from_node, session_get_next, session_performance_get_next,
  session_performance_get_first, session_next, session_get_first, stop_at, lost,
}
use psych.Snmp.Walk.{
  plugin_walk, complete, broke, then_row, walk, HasSessions, HasNone, sessions_of, later_rows,
  walk-yields, in_sessions_lem,
}

-- A call for the row of the session at the head of what is left of a plug-in with sessions.
next_lem :
    (p : Plugin) (ps : List Plugin) (s : SessionObject) (l : List SessionObject)
    → HasSessions p
    → session_get_next (record { psych_it = p ∷ ps; session_it = s ∷ l })
      ≡ yields (session_row p s) (hunt p ps (s ∷ l))
unfolding session_get_next session_next
next_lem p ps s l (q, u, us, e, f) = in_sessions_lem p _ (next_row p ps (s ∷ l)) q (u ∷ us) e f

-- Going on with the next plug-in loses its first session.
skip_lem :
    (q : Plugin) (qs : List Plugin)
    → HasSessions q
    → (u : SessionObject) × (us : List SessionObject) × (in_sessions q.provider lost
          (λ l. hunt q qs l)
        ≡ hunt q qs (u ∷ us))
      × (sessions_of q ≡ u ∷ us)
skip_lem q qs (o, u, us, e, f) = (
  u,
  us,
  in_sessions_lem q lost (λ l. hunt q qs l) o (u ∷ us) e f,
  in_sessions_lem q [] (λ l. l) o (u ∷ us) e f,
)

-- The rows from a session of `p` on, that session not included.
abbrev pub rest_rows : Plugin → List Plugin → List SessionObject → List SessionRow
rest_rows p ps l = map (session_row p) l ++ later_rows ps

walk-hunt :
    (n : ℕ) (p : Plugin) (ps : List Plugin) (s : SessionObject) (l : List SessionObject)
    → HasSessions p
    → All HasSessions ps
    → length (rest_rows p ps l) < suc n
    → walk session_get_next n (from_node (hunt p ps (s ∷ l))) ≡ complete (rest_rows p ps l)
unfolding walk hunt later_rows session_get_next session_next
walk-hunt n p [] s [] h hs fuel = refl
walk-hunt n p (q ∷ qs) s [] h (hq, hs) fuel =
    let (u, us, here, all) = skip_lem q qs hq in
    let same : rest_rows p (q ∷ qs) [] ≡ rest_rows q qs us = unfold later_rows in rw all refl in
    rw (here, same) (walk-hunt n q qs u us hq hs (rw (sym same) fuel))
walk-hunt zero p ps s (t ∷ l) h hs fuel = absurd (omega arith)
walk-hunt (suc n) p ps s (t ∷ l) h hs fuel =
    ap (walk session_get_next (suc n)) (next_lem p ps t l h)
    ∙ walk-yields (session_row p t) (hunt p ps (t ∷ l)) n
    ∙ ap (then_row (session_row p t)) (walk-hunt n p ps t l h hs (omega arith))

-- Plug-ins without sessions at the head of the list are passed over.
first_node_lem : (ps qs : List Plugin) → All HasNone ps → first_node (ps ++ qs) ≡ first_node qs
unfolding first_node
first_node_lem [] qs h = refl
first_node_lem (p ∷ ps) qs ((o, e, f), h) =
    in_sessions_lem p lost (stop_at p (ps ++ qs) (first_node (ps ++ qs))) o [] e f
    ∙ first_node_lem ps qs h

get_first_lem :
    (ps : List Plugin) (p : Plugin) (qs : List Plugin)
    → All HasNone ps
    → session_get_first (ps ++ p ∷ qs) ≡ from_node (first_node (p ∷ qs))
unfolding session_get_first
get_first_lem [] p qs h = refl
get_first_lem (x ∷ ps) p qs h = ap from_node (first_node_lem (x ∷ ps) (p ∷ qs) h)

first_lem :
    (p : Plugin) (qs : List Plugin)
    → HasSessions p
    → (u : SessionObject) × (us : List SessionObject) × (from_node (first_node (p ∷ qs))
        ≡ yields (session_row p u) (hunt p qs (u ∷ us)))
      × (sessions_of p ≡ u ∷ us)
unfolding first_node
first_lem p qs (o, u, us, e, f) = (
  u,
  us,
  ap from_node (in_sessions_lem p lost (stop_at p qs (first_node qs)) o (u ∷ us) e f)
      ∙ next_lem p qs u us (o, u, us, e, f),
  in_sessions_lem p [] (λ l. l) o (u ∷ us) e f,
)

walk_first :
    (n : ℕ) (p : Plugin) (qs : List Plugin) (u : SessionObject) (us : List SessionObject)
    → HasSessions p
    → All HasSessions qs
    → length (rest_rows p qs (u ∷ us)) ≤ n
    → walk session_get_next n (yields (session_row p u) (hunt p qs (u ∷ us)))
      ≡ complete (rest_rows p qs (u ∷ us))
walk_first zero p qs u us h hs fuel = absurd (omega arith)
walk_first (suc n) p qs u us h hs fuel =
    walk-yields (session_row p u) (hunt p qs (u ∷ us)) n
    ∙ ap (then_row (session_row p u)) (walk-hunt n p qs u us h hs fuel)

walk_lem :
    (ps : List Plugin) (p : Plugin) (qs : List Plugin) (n : ℕ)
    → All HasNone ps
    → All HasSessions (p ∷ qs)
    → length (rest_rows p qs (sessions_of p)) ≤ n
    → walk session_get_next n (session_get_first (ps ++ p ∷ qs))
      ≡ complete (rest_rows p qs (sessions_of p))
walk_lem ps p qs n empty (h, hs) fuel =
    let (u, us, here, all) = first_lem p qs h in
    rw (get_first_lem ps p qs empty, here, all)
      (walk_first n p qs u us h hs (subst (λ l. length (rest_rows p qs l) ≤ n) all fuel))

-- A walk through either plug-in table gives every instance of the global list, in order. Behind plug-ins
-- that have no session, a walk through either session table gives every session of the first plug-in
-- that has some, and of each later one, where all of these have sessions, every session but the first.
-- Fuel for each row is enough.
pub tables_walk :
    (ps : List Plugin) (p : Plugin) (qs : List Plugin) (n : ℕ)
    → All HasNone ps
    → All HasSessions (p ∷ qs)
    → length (ps ++ p ∷ qs) ≤ n
    → length (rest_rows p qs (sessions_of p)) ≤ n
    → (walk plugin_get_next n (plugin_get_first (ps ++ p ∷ qs))
        ≡ complete (map plugin_row (ps ++ p ∷ qs)))
      × (walk plugin_performance_get_next n (plugin_performance_get_first (ps ++ p ∷ qs))
          ≡ complete (map plugin_row (ps ++ p ∷ qs)))
      × (walk session_get_next n (session_get_first (ps ++ p ∷ qs))
          ≡ complete (rest_rows p qs (sessions_of p)))
      × (walk session_performance_get_next n (session_performance_get_first (ps ++ p ∷ qs))
          ≡ complete (rest_rows p qs (sessions_of p)))
unfolding session_performance_get_next session_performance_get_first plugin_performance_get_next
    plugin_performance_get_first
tables_walk ps p qs n empty h fuel fuel' = (
  plugin_walk (ps ++ p ∷ qs) n fuel,
  plugin_walk (ps ++ p ∷ qs) n fuel,
  walk_lem ps p qs n empty h fuel',
  walk_lem ps p qs n empty h fuel',
)

first_node_none : (ps : List Plugin) → All HasNone ps → first_node ps ≡ lost
unfolding first_node
first_node_none [] h = refl
first_node_none (p ∷ ps) ((o, e, f), h) =
    in_sessions_lem p lost (stop_at p ps (first_node ps)) o [] e f ∙ first_node_none ps h

walk-hunt_lost :
    (n : ℕ) (p : Plugin) (ps : List Plugin) (x : Plugin) (qs : List Plugin) (s : SessionObject)
    (l : List SessionObject)
    → HasSessions p
    → All HasSessions ps
    → HasNone x
    → length (rest_rows p ps l) ≤ n
    → walk session_get_next n (from_node (hunt p (ps ++ x ∷ qs) (s ∷ l))) ≡ broke
unfolding walk hunt later_rows
walk-hunt_lost n p [] x qs s [] h hs (o, e, f) fuel =
    rw (in_sessions_lem x lost (λ l. hunt x qs l) o [] e f) refl
walk-hunt_lost n p (q ∷ ps) x qs s [] h (hq, hs) empty fuel =
    let (u, us, here, all) = skip_lem q (ps ++ x ∷ qs) hq in
    let same : rest_rows p (q ∷ ps) [] ≡ rest_rows q ps us = unfold later_rows in rw all refl in
    rw here (walk-hunt_lost n q ps x qs u us hq hs empty (subst (λ r. length r ≤ n) same fuel))
walk-hunt_lost zero p ps x qs s (t ∷ l) h hs empty fuel = absurd (omega arith)
walk-hunt_lost (suc n) p ps x qs s (t ∷ l) h hs empty fuel =
    ap (walk session_get_next (suc n)) (next_lem p (ps ++ x ∷ qs) t l h)
    ∙ walk-yields (session_row p t) (hunt p (ps ++ x ∷ qs) (t ∷ l)) n
    ∙ ap (then_row (session_row p t)) (walk-hunt_lost n p ps x qs t l h hs empty (omega arith))

-- If no plug-in has a session, the first call for a row of a session table reads past the end of the
-- list of plug-ins.
session_get_first_lost :
    (p : Plugin) (ps : List Plugin)
    → All HasNone (p ∷ ps)
    → session_get_first (p ∷ ps) ≡ out_of_range
unfolding session_get_first
session_get_first_lost p ps h = ap from_node (first_node_none (p ∷ ps) h)

-- If a plug-in without sessions comes anywhere behind one with sessions, and those between have
-- sessions, then a walk through a session table steps past the end of a list of sessions, when the
-- fuel lasts till there.
pub session_walk_lost :
    (p : Plugin) (ps : List Plugin) (x : Plugin) (qs : List Plugin) (n : ℕ)
    → All HasSessions (p ∷ ps)
    → HasNone x
    → length (rest_rows p ps (sessions_of p)) ≤ n
    → walk session_get_next n (session_get_first (p ∷ ps ++ x ∷ qs)) ≡ broke
unfolding session_get_first
session_walk_lost p ps x qs zero (h, hs) empty fuel =
    let (u, us, here, all) = first_lem p [] h in
    absurd (omega (arith, subst (λ l. length (rest_rows p ps l) ≤ 0) all fuel))
session_walk_lost p ps x qs (suc n) (h, hs) empty fuel =
    let (u, us, here, all) = first_lem p (ps ++ x ∷ qs) h in
    let enough = subst (λ l. length (rest_rows p ps l) ≤ suc n) all fuel in
    rw here (
      walk-yields (session_row p u) (hunt p (ps ++ x ∷ qs) (u ∷ us)) n
      ∙ ap (then_row (session_row p u))
          (walk-hunt_lost n p ps x qs u us h hs empty (omega (arith, enough))))
