-- ===== src/Snmp/Rows.antt =====
-- The row iterators of src/psychMIB.cc: get_first_data_point and get_next_data_point of the plug-in
-- tables and of the session tables. An iterator is what is left of the list that it runs over. What
-- C++ leaves undefined is the value `out_of_range`: a step past the end, and a null provider.
use psych.Prelude.{ℕ, Option, none, some, List, [], ◌∷◌}
use psych.Prelude.Bytes.{Bytes}
use psych.Snmp.Objects.{SessionObject, ProviderObject, Plugin}

-- What a call for a data point returns: a row, with the loop context after the call, or null.
pub data Found (R C : Type 0) : Type 0 where
  out_of_range no_row : Found R C
  found : R → C → Found R C

-- the index values of the plug-in tables, and the data context
pub record PluginRow : Type 0 where
  pub plugin_id : Bytes
  pub instance : ℕ
  pub object : Plugin

-- the index values of the session tables, and the data context
pub record SessionRow : Type 0 where
  pub plugin_id : Bytes
  pub instance : ℕ
  pub session_instance : ℕ
  pub object : SessionObject

abbrev pub plugin_row : Plugin → PluginRow
plugin_row p = record { plugin_id = p.plugin_id; instance = p.instance; object = p }

abbrev pub session_row : Plugin → SessionObject → SessionRow
session_row p s = record {
  plugin_id = p.plugin_id;
  instance = p.instance;
  session_instance = s.session.instance_id;
  object = s;
}

-- `psychPluginTable_get_next_data_point`; the context is `psych_it`
unfoldable pub plugin_get_next : List Plugin → Found PluginRow (List Plugin)
plugin_get_next [] = no_row
plugin_get_next (p ∷ ps) = found (plugin_row p) ps

-- `psychPluginTable_get_first_data_point`
unfoldable pub plugin_get_first : List Plugin → Found PluginRow (List Plugin)
unfolding plugin_get_next
plugin_get_first [] = no_row
plugin_get_first (p ∷ ps) = plugin_get_next (p ∷ ps)

-- `psychPluginPerformanceTable_get_next_data_point` and `…_get_first_data_point`, the same code
unfoldable pub plugin_performance_get_next : List Plugin → Found PluginRow (List Plugin)
plugin_performance_get_next = plugin_get_next

unfoldable pub plugin_performance_get_first : List Plugin → Found PluginRow (List Plugin)
plugin_performance_get_first = plugin_get_first

-- `psych_it` and `session_it` of `snmp_context_t`
pub record Place : Type 0 where
  pub psych_it : List Plugin
  pub session_it : List SessionObject

-- A search for a place, which may step out of a list.
pub data Hunt : Type 0 where
  lost : Hunt
  at : Place → Hunt

-- `provider_->sessions_`
abbrev pub in_sessions {ℓ} : {A : Type ℓ} → Option ProviderObject → A → (List SessionObject → A) → A
in_sessions none out k = out
in_sessions (some provider) out k = k provider.sessions

-- one round of the loop that looks for the first plug-in with a session, given the rounds after it
abbrev pub stop_at : Plugin → List Plugin → Hunt → List SessionObject → Hunt
stop_at p ps later [] = later
stop_at p ps later (s ∷ l) = at (record { psych_it = p ∷ ps; session_it = s ∷ l })

-- The loop, and the test behind it, which reads `*psych_it` at the end of the list.
unfoldable pub first_node : List Plugin → Hunt
first_node [] = lost
first_node (p ∷ ps) = let later = first_node ps in in_sessions p.provider lost (stop_at p ps later)

-- The loop that hunts for the next valid node, from the plug-in `p` and what is left of its
-- sessions; its condition moves `session_it` on in every round.
unfoldable pub hunt : Plugin → List Plugin → List SessionObject → Hunt
hunt p ps [] = lost
hunt p ps (s ∷ t ∷ l) = at (record { psych_it = p ∷ ps; session_it = t ∷ l })
hunt p [] (s ∷ []) = at (record { psych_it = []; session_it = [] })
hunt p (q ∷ qs) (s ∷ []) = in_sessions q.provider lost (λ l. hunt q qs l)

abbrev pub yields : SessionRow → Hunt → Found SessionRow Place
yields r lost = out_of_range
yields r (at c) = found r c

abbrev pub next_row :
    Plugin → List Plugin → List SessionObject → List SessionObject → Found SessionRow Place
next_row p ps [] sessions = no_row
next_row p ps (s ∷ rest) sessions = yields (session_row p s) (hunt p ps (s ∷ rest))

-- `psychSessionTable_get_next_data_point`
unfoldable pub session_next : List Plugin → List SessionObject → Found SessionRow Place
session_next [] l = no_row
session_next (p ∷ ps) l = in_sessions p.provider out_of_range (next_row p ps l)

unfoldable pub session_get_next : Place → Found SessionRow Place
unfolding session_next hunt
session_get_next c = session_next c.psych_it c.session_it

abbrev pub from_node : Hunt → Found SessionRow Place
from_node lost = out_of_range
from_node (at c) = session_get_next c

-- `psychSessionTable_get_first_data_point`
unfoldable pub session_get_first : List Plugin → Found SessionRow Place
unfolding first_node
session_get_first [] = no_row
session_get_first (p ∷ ps) = from_node (first_node (p ∷ ps))

-- `psychSessionPerformanceTable_get_next_data_point` and `…_get_first_data_point`, the same code
unfoldable pub session_performance_get_next : Place → Found SessionRow Place
session_performance_get_next = session_get_next

unfoldable pub session_performance_get_first : List Plugin → Found SessionRow Place
session_performance_get_first = session_get_first
