-- ===== src/Tests/Flexing.antt =====
-- FlexRecords and the loop of the SNMP agent: src/tcl.cc and src/snmp_agent.cc.
use psych.Prelude.{◌+◌, ◌%◌, ◌^◌, ◌≡◌, true, false, List, [], ◌∷◌, refl, arith, length}
use psych.Prelude.Int.{pos, negsuc}
use psych.Prelude.Bytes.{codes}
use psych.Prelude.Split.{split}
use psych.Config.Print.{decimal}
use psych.Schedule.Flex.{Tm, flexrecord, time_stamp, all_padded, padded}
use psych.Schedule.Flex.Fields.{IsTime, fields_of, split-flexrecord}
use psych.Snmp.Pump.{Selected, snmp_read, snmp_timeout, turn, run_event_pump}

abbrev morning : Tm
morning = record { year = 112; mon = 0; mday = 14; hour = 6; min = 9; sec = 28 }

morning-IsTime : IsTime morning
morning-IsTime = record {
  year_fits = omega arith;
  mon_fits = omega arith;
  mday_fits = omega arith;
  hour_fits = omega arith;
  min_fits = omega arith;
  sec_fits = omega arith;
}

quote :
    (flexrecord morning (codes "MSFT") (codes "Quote") (codes "9") 41).0
    ≡ codes "20120114060928.000,@@a,FR,MSFT,Quote,,41,V9,,"
unfolding flexrecord time_stamp all_padded padded decimal
quote = refl

split-flexrecord_example :
    (split b',' (flexrecord morning (codes "MSFT") (codes "Quote") (codes "9") 41).0
      ≡ fields_of morning (codes "MSFT") (codes "Quote") (codes "9") 41)
    × (length (time_stamp morning) ≡ 18)
    × ((flexrecord morning (codes "MSFT") (codes "Quote") (codes "9") 41).1 ≡ (41 + 1) % 2 ^ 64)
split-flexrecord_example =
    split-flexrecord morning (codes "MSFT") (codes "Quote") (codes "9") 41 morning-IsTime refl refl
      refl

-- Agent traffic, a timeout, and the signal of Clear; what comes later is not asked for.
abbrev answers : List Selected
answers =
    record { fds = pos 1; is_signaled = false }
    ∷ record { fds = pos 0; is_signaled = false }
    ∷ record { fds = pos 1; is_signaled = true }
    ∷ record { fds = pos 0; is_signaled = false }
    ∷ []

pumped : run_event_pump answers ≡ (snmp_read ∷ snmp_timeout ∷ [], true)
unfolding run_event_pump turn
pumped = refl

-- An error of `select` that leaves the set as it was looks like the signal.
broken_off : run_event_pump (record { fds = negsuc 0; is_signaled = true } ∷ []) ≡ ([], true)
unfolding run_event_pump turn
broken_off = refl
