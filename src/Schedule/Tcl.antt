-- ===== src/Schedule/Tcl.antt =====
-- The Tcl commands: `execute`, `tclPsychRepublish` and `tclPsychHardRepublish` of src/tcl.cc.
use psych.Prelude.{Bool, true, false, Option, none, some, List, map, bump, if◌then◌else◌}
use psych.Prelude.Int.{ℤ, ◌-ℤ◌}
use psych.Prelude.Bytes.{Bytes, codes, equal}
use psych.Config.{Config}
use psych.Platform.{Platform}
use psych.Http.Counters.{tcl_query_received}
use psych.Http.Transfer.{Connection, new_connection}
use psych.Query.Loop.{record_time}
use psych.Query.Options.{Flags, republish_flags, hard_republish_flags}
use psych.Schedule.App.{App, QueryEnv, Outcome, returned, raised, gone, query_on, try_lock, unlock}

-- what a command returns, TCL_OK or TCL_ERROR, with the result that it sets
pub data TclResult : Type 0 where
  tcl_ok : TclResult
  tcl_error : Bytes → TclResult

abbrev pub basic_function_name : Bytes
basic_function_name = codes "psych_republish"

abbrev pub reset_function_name : Bytes
reset_function_name = codes "psych_hard_republish"

-- the duplicates of the connections
abbrev pub duplicate : Connection → Connection
duplicate c = new_connection c.resource c.url

unfoldable pub dup_connections : List Connection → List Connection
dup_connections = map duplicate

-- The lock is released and the duplicates are dropped, whichever way the query ends.
abbrev pub republish_outcome : Outcome → Option (App × TclResult)
republish_outcome (returned a connections) = some (unlock a, tcl_ok)
republish_outcome (raised a connections) = some (unlock a, tcl_error (codes "Unhandled exception"))
republish_outcome gone = none

abbrev pub republish_query :
    Platform → Config → Flags → QueryEnv → App × Bool → Option (App × TclResult)
republish_query plat config flags e (a, true) =
    republish_outcome (query_on plat config flags e (dup_connections a.connections) a)
republish_query plat config flags e (a, false) = some (a, tcl_error (codes "query already running"))

-- `tclPsychRepublish` and `tclPsychHardRepublish` inside the handlers of `execute`; they differ in the
-- flags of the query, which choose the options of its transfers
unfoldable pub tcl_psych_republish : Platform → Config → QueryEnv → App → Option (App × TclResult)
unfolding query_on dup_connections
tcl_psych_republish plat config e a = republish_query plat config republish_flags e (try_lock a)

unfoldable pub tcl_psych_hard_republish :
    Platform → Config → QueryEnv → App → Option (App × TclResult)
unfolding query_on dup_connections
tcl_psych_hard_republish plat config e a =
    republish_query plat config hard_republish_flags e (try_lock a)

unfoldable pub dispatch : Platform → Config → QueryEnv → Bytes → App → Option (App × TclResult)
unfolding tcl_psych_republish tcl_psych_hard_republish equal
dispatch plat config e command a =
    if equal command basic_function_name
    then tcl_psych_republish plat config e a
    else if equal command reset_function_name
    then tcl_psych_hard_republish plat config e a
    else some (a, tcl_error (codes "unknown function"))

abbrev pub count_tcl : App → App
count_tcl a = record a { stats = bump tcl_query_received a.stats }

abbrev pub time_tcl : ℤ → Option (App × TclResult) → Option (App × TclResult)
time_tcl td none = none
time_tcl td (some (a, r)) = some (record a { tcl_time = record_time td a.tcl_time }, r)

-- `execute`, between the times t0 and t1
unfoldable pub execute :
    Platform → Config → QueryEnv → (t0 t1 : ℤ) → Bytes → App → Option (App × TclResult)
unfolding dispatch record_time
execute plat config e t0 t1 command a =
    time_tcl (t1 -ℤ t0) (dispatch plat config e command (count_tcl a))
