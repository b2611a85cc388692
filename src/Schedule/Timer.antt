-- ===== src/Schedule/Timer.antt =====
-- The periodic timer: `OnTimer` of src/psych.cc and `time_pump_t::Run` of src/psych.hh.
use psych.Prelude.{Bool, true, false, Option, none, some, List, [], ◌∷◌, bump}
use psych.Prelude.Int.{ℤ, ◌+ℤ◌}
use psych.Config.{Config}
use psych.Platform.{Platform}
use psych.Http.Counters.{timer_query_received}
use psych.Query.Options.{timer_flags}
use psych.Schedule.App.{App, QueryEnv, Outcome, returned, raised, gone, query_on, try_lock, unlock}

abbrev pub count_timer : App → App
count_timer a = record a { stats = bump timer_query_received a.stats }

-- The query works on the connections of `psych_t` themselves. Only exceptions of the standard library
-- leave it, and for these the callback returns false; `none` is a process that is gone.
abbrev pub timer_outcome : Outcome → Option (App × Bool)
timer_outcome (returned a connections) =
    some (unlock (record a { connections = connections }), true)
timer_outcome (raised a connections) = some (unlock (record a { connections = connections }), false)
timer_outcome gone = none

abbrev pub timer_query : Platform → Config → QueryEnv → App × Bool → Option (App × Bool)
timer_query plat config e (a, true) =
    timer_outcome (query_on plat config timer_flags e a.connections a)
timer_query plat config e (a, false) = some (a, true)

-- `OnTimer`
unfoldable pub on_timer : Platform → Config → QueryEnv → App → Option (App × Bool)
unfolding query_on
on_timer plat config e a = timer_query plat config e (try_lock (count_timer a))

-- What happens at one turn of the pump: the thread is interrupted in its sleep, or it wakes up to a
-- query; `busy` says whether another thread then holds the mutex.
pub data Turn : Type 0 where
  interrupted : Turn
  wake : QueryEnv → Bool → Turn

-- How far the pump is after some turns: it goes on, it has ended, or the process is gone.
pub data Pump : Type 0 where
  pumping ended : App → Pump
  lost : Pump

-- a pump, with the due times of the calls that it has made
abbrev pub called : ℤ → List ℤ × Pump → List ℤ × Pump
called due (calls, p) = (due ∷ calls, p)

-- The lock of another thread is released again behind the callback.
abbrev pub with_lock : Bool → App → App
with_lock busy a = record a { locked = busy }

abbrev pub after_call : ℤ → Option (App × Bool) → (App → List ℤ × Pump) → List ℤ × Pump
after_call due none more = (due ∷ [], lost)
after_call due (some (a, false)) more = (due ∷ [], ended a)
after_call due (some (a, true)) more = called due (more a)

-- `time_pump_t::Run` for the turns given: the due times of the calls, and what becomes of the thread
unfoldable pub run_pump :
    Platform → Config → (interval : ℤ) → List Turn → (due : ℤ) → App → List ℤ × Pump
unfolding on_timer
run_pump plat config td [] due a = ([], pumping a)
run_pump plat config td (interrupted ∷ turns) due a = ([], ended a)
run_pump plat config td (wake e busy ∷ turns) due a =
    after_call due (on_timer plat config e (with_lock busy a))
      λ a'. run_pump plat config td turns (due +ℤ td) a'
