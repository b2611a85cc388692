-- ===== src/Snmp/Handlers.antt =====
-- The handlers of the four tables of src/psychMIB.cc, which differ in the cases of their switch.
use psych.Prelude.{ℕ, Option, none, some, List, [], ◌∷◌, ◌==◌, if◌then◌else◌, map}
use psych.Snmp.Objects.{SessionObject, Plugin, Value}
use psych.Snmp.Columns.{
  Cases, plugin_cases, plugin_performance_cases, session_cases, session_performance_cases,
}

-- `netsnmp_request_info`: the row that the iterator has found, and the column where the request has
-- table information
pub record Request (A : Type 0) : Type 0 where
  pub row : Option A
  pub column : Option ℕ

-- What a handler leaves in one request; `untouched` is the request without table information, or
-- the request of a mode that is not supported.
pub data Answer : Type 0 where
  answered : Value → Answer
  no_such_instance no_such_object untouched : Answer

-- the switch on the column
unfoldable pub select : {A : Type 0} → ℕ → Cases A → A → Answer
select n [] a = no_such_object
select n ((k, value) ∷ rest) a = if k == n then answered (value a) else select n rest a

abbrev pub on_column : {A : Type 0} → Cases A → A → Option ℕ → Answer
on_column cases a none = untouched
on_column cases a (some n) = select n cases a

abbrev pub on_row : {A : Type 0} → Cases A → Option ℕ → Option A → Answer
on_row cases column none = no_such_instance
on_row cases column (some a) = on_column cases a column

-- `reqinfo->mode`: MODE_GET or another
pub data Mode : Type 0 where
  get other : Mode

-- the loop over the requests
unfoldable pub handle : {A : Type 0} → Cases A → Mode → List (Request A) → List Answer
handle cases get [] = []
handle cases get (r ∷ rest) = on_row cases r.column r.row ∷ handle cases get rest
handle cases other requests = map (λ r. untouched) requests

unfoldable pub plugin_handler : Mode → List (Request Plugin) → List Answer
plugin_handler = handle plugin_cases

unfoldable pub plugin_performance_handler : Mode → List (Request Plugin) → List Answer
plugin_performance_handler = handle plugin_performance_cases

unfoldable pub session_handler : Mode → List (Request SessionObject) → List Answer
session_handler = handle session_cases

unfoldable pub session_performance_handler : Mode → List (Request SessionObject) → List Answer
session_performance_handler = handle session_performance_cases
