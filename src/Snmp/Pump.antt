-- ===== src/Snmp/Pump.antt =====
-- The loop of the agent's thread: `event_pump_t::Run` of src/snmp_agent.cc.
use psych.Prelude.{
  zero, suc, Bool, true, false, Option, none, some, List, [], ◌∷◌, ◌++◌, ◌≡◌, refl, sym, ap, ◌∙◌,
  arith, map, All, if◌then◌else◌,
}
use mathlib.Core.List.{append-nil}
use psych.Prelude.Int.{ℤ, pos, negsuc}

-- What `select` returns, and whether the socket that breaks the loop is then in the set.
pub record Selected : Type 0 where
  pub fds : ℤ
  pub is_signaled : Bool

pub data PumpCall : Type 0 where
  snmp_read snmp_timeout : PumpCall

-- an int as a condition
abbrev pub is_true : ℤ → Bool
is_true (pos zero) = false
is_true (pos (suc n)) = true
is_true (negsuc n) = true

-- One turn of the loop: the call, or `break`. An error of `select`, -1, is handled as if sockets were
-- ready.
unfoldable pub turn : Selected → Option PumpCall
turn s = if is_true s.fds then if s.is_signaled then none else some snmp_read else some snmp_timeout

abbrev pub go_on : Option PumpCall → List PumpCall × Bool → List PumpCall × Bool
go_on none later = ([], true)
go_on (some c) (calls, ended) = (c ∷ calls, ended)

-- The loop for the answers given: its calls, and whether it has ended.
unfoldable pub run_event_pump : List Selected → List PumpCall × Bool
unfolding turn
run_event_pump [] = ([], false)
run_event_pump (s ∷ rest) = go_on (turn s) (run_event_pump rest)

-- whether an answer ends the loop, and the call that another one makes
abbrev pub is_exit : Selected → Bool
is_exit s = if is_true s.fds then s.is_signaled else false

abbrev pub call_for : Selected → PumpCall
call_for s = if is_true s.fds then snmp_read else snmp_timeout

turn_exit : (s : Selected) → is_exit s ≡ true → turn s ≡ none
unfolding turn
turn_exit s h = ground arith

turn_other : (s : Selected) → is_exit s ≡ false → turn s ≡ some (call_for s)
unfolding turn
turn_other s h = ground arith

run_event_pump_before :
    (before later : List Selected)
    → All (λ s. is_exit s ≡ false) before
    → run_event_pump (before ++ later)
      ≡ (map call_for before ++ (run_event_pump later).0, (run_event_pump later).1)
unfolding run_event_pump
run_event_pump_before [] later h = refl
run_event_pump_before (s ∷ before) later (h, hs) =
    rw (turn_other s h, run_event_pump_before before later hs) refl

-- As long as `select` does not give back the signal, the loop reads or handles a timeout at each turn
-- and goes on; at the first turn at which it does, the loop ends, whatever would come later.
run_event_pump_signaled :
    (before later : List Selected) (s : Selected)
    → All (λ x. is_exit x ≡ false) before
    → is_exit s ≡ true
    → (run_event_pump before ≡ (map call_for before, false))
      × (run_event_pump (before ++ s ∷ later) ≡ (map call_for before, true))
unfolding run_event_pump
run_event_pump_signaled before later s hs h =
    let alone = run_event_pump_before before [] hs in
    let ends = run_event_pump_before before (s ∷ later) hs in
    (
      ap run_event_pump (sym (append-nil before)) ∙ alone ∙ rw append-nil refl,
      ends ∙ rw (turn_exit s h, append-nil) refl,
    )
