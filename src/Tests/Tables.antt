-- ===== src/Tests/Tables.antt =====
-- The tables of the SNMP agent: src/psychMIB.cc, with three plug-ins.
use psych.Prelude.{ℕ, ◌≡◌, none, some, List, [], ◌∷◌, refl, no_stats, arith}
use psych.Prelude.Int.{pos}
use psych.Prelude.Bytes.{codes}
use psych.Config.{default_config, join_servers}
use psych.Snmp.Objects.{SessionObject, Plugin, octets}
use psych.Snmp.Columns.{session_cases}
use psych.Snmp.Handlers.{
  get, answered, no_such_object, no_such_instance, session_handler, plugin_handler,
  plugin_performance_handler, session_performance_handler, handle, select,
}
use psych.Snmp.Registered.{
  plugin_table, plugin_performance_table, session_table, session_performance_table, Serves, asks,
  tables_served,
}
use psych.Snmp.Rows.{
  out_of_range, SessionRow, session_row, plugin_row, plugin_get_next, plugin_get_first,
  plugin_performance_get_next, plugin_performance_get_first, session_get_next, session_get_first,
  session_performance_get_next, session_performance_get_first, first_node,
}
use psych.Snmp.Walk.{complete, broke, walk, later_rows}
use psych.Snmp.Skipped.{tables_walk, session_walk_lost}
use psych.Tests.Fixture.{ready}

abbrev session_at : ℕ → SessionObject
session_at i = record { session = ready i; last_activity = pos 0 }

abbrev plugin_with : ℕ → List SessionObject → Plugin
plugin_with i sessions = record {
  plugin_id = codes "psych";
  instance = i;
  config = default_config;
  stats = no_stats;
  last_activity = pos 0;
  tcl_time = record { shortest = none; longest = none; total = pos 0 };
  refresh_time = record { shortest = none; longest = none; total = pos 0 };
  provider = some (record { stats = no_stats; last_activity = pos 0; sessions = sessions });
}

abbrev idle : Plugin
idle = plugin_with 0 []

abbrev first : Plugin
first = plugin_with 1 (session_at 0 ∷ session_at 1 ∷ [])

abbrev second : Plugin
second = plugin_with 2 (session_at 0 ∷ session_at 1 ∷ [])

answers :
    session_handler get (
      record { row = some (session_at 0); column = some 10 }
      ∷ record { row = some (session_at 0); column = some 13 }
      ∷ record { row = none; column = some 10 }
      ∷ [])
    ≡ answered (octets (codes "S")) ∷ no_such_object ∷ no_such_instance ∷ []
unfolding session_handler handle select session_cases
answers = refl

servers : join_servers (codes "a" ∷ codes "b" ∷ []) ≡ codes "a, b"
unfolding join_servers
servers = refl

-- the second plug-in has two sessions, of which one is listed
abbrev listed : List SessionRow
listed =
    session_row first (session_at 0)
    ∷ session_row first (session_at 1)
    ∷ session_row second (session_at 1)
    ∷ []

tables_walk_example :
    (walk plugin_get_next 3 (plugin_get_first (idle ∷ first ∷ second ∷ []))
      ≡ complete (plugin_row idle ∷ plugin_row first ∷ plugin_row second ∷ []))
    × (walk plugin_performance_get_next 3
          (plugin_performance_get_first (idle ∷ first ∷ second ∷ []))
        ≡ complete (plugin_row idle ∷ plugin_row first ∷ plugin_row second ∷ []))
    × (walk session_get_next 3 (session_get_first (idle ∷ first ∷ second ∷ [])) ≡ complete listed)
    × (walk session_performance_get_next 3
          (session_performance_get_first (idle ∷ first ∷ second ∷ []))
        ≡ complete listed)
unfolding later_rows
tables_walk_example =
    tables_walk (idle ∷ []) first (second ∷ []) 3 ((_, refl, refl), tt)
      ((_, _, _, refl, refl), ((_, _, _, refl, refl), tt)) (omega arith) (omega arith)

session_walk_lost_example :
    walk session_get_next 2 (session_get_first (first ∷ idle ∷ second ∷ [])) ≡ broke
unfolding later_rows
session_walk_lost_example =
    session_walk_lost first [] idle (second ∷ []) 2 ((_, _, _, refl, refl), tt) (_, refl, refl)
      (omega arith)

no_sessions : session_get_first (idle ∷ []) ≡ out_of_range
unfolding session_get_first first_node
no_sessions = refl

tables_served_example :
    Serves plugin_table 3 (plugin_handler get (asks first 3 ∷ []))
    × Serves plugin_performance_table 3 (plugin_performance_handler get (asks first 3 ∷ []))
    × Serves session_table 3 (session_handler get (asks (session_at 0) 3 ∷ []))
    × Serves session_performance_table 3
        (session_performance_handler get (asks (session_at 0) 3 ∷ []))
tables_served_example = tables_served first (session_at 0) 3
