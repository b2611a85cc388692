-- ===== src/Schedule/Overlapped.antt =====
-- The pump of the timer (src/psych.hh) and its calls of OnTimer (src/psych.cc): when they are due, and
-- what the calls do that find a query running.
use psych.Prelude.{
  ℕ, zero, suc, ◌+◌, ◌%◌, ◌<◌, Bool, true, false, Option, none, some, List, [], ◌∷◌, map, ◌≡◌, refl,
  ap, sym, ◌∙◌, arith, length, length-map, get_elem?, Stats, bump, u32_mod,
}
use psych.Prelude.Int.{ℤ, ◌+ℤ◌}
use psych.Config.{Config}
use psych.Platform.{Platform}
use psych.Http.Counters.{timer_query_received}
use psych.Schedule.App.{App, QueryEnv}
use psych.Schedule.Timer.{
  Turn, interrupted, wake, Pump, pumping, called, with_lock, after_call, on_timer, run_pump,
  count_timer,
}

-- n times the interval after the due time
abbrev pub later : ℤ → ℤ → ℕ → ℤ
later td due zero = due
later td due (suc n) = later td (due +ℤ td) n

-- the stats after a number of overlapped turns
abbrev bumps : ℕ → Stats → Stats
bumps zero s = s
bumps (suc n) s = bumps n (bump timer_query_received s)

-- A call after which the pump goes on has returned true.
after_call-pumping :
    (due : ℤ) (o : Option (App × Bool)) (more : App → List ℤ × Pump) (a' : App)
    → (after_call due o more).1 ≡ pumping a'
    → (x : App) × ((more x).1 ≡ pumping a') × (after_call due o more ≡ called due (more x))
after_call-pumping due none more a' h = absurd (cc h)
after_call-pumping due (some (a, false)) more a' h = absurd (cc h)
after_call-pumping due (some (a, true)) more a' h = (a, h, refl)

bumps-timer :
    (n : ℕ) (s : Stats)
    → s timer_query_received < u32_mod
    → bumps n s timer_query_received ≡ (s timer_query_received + n) % u32_mod
bumps-timer zero s h = omega arith
bumps-timer (suc n) s h = omega (arith, bumps-timer n (bump timer_query_received s) (omega arith))

module _ (plat : Platform) (config : Config) (td : ℤ) where
  -- If the pump still goes on after some turns, then it has made one call for each of them.
  run_pump-length :
      (turns : List Turn) (due : ℤ) (a a' : App)
      → (run_pump plat config td turns due a).1 ≡ pumping a'
      → length (run_pump plat config td turns due a).0 ≡ length turns
  unfolding run_pump
  run_pump-length [] due a a' h = refl
  run_pump-length (interrupted ∷ turns) due a a' h = absurd (cc h)
  run_pump-length (wake e busy ∷ turns) due a a' h =
      let (x, goes_on, same) =
        after_call-pumping due (on_timer plat config e (with_lock busy a))
          (λ a''. run_pump plat config td turns (due +ℤ td) a'') a' h in
      rw same (ap suc (run_pump-length turns (due +ℤ td) x a' goes_on))

  run_pump-get_elem? :
      (turns : List Turn) (due : ℤ) (a a' : App) (k : ℕ)
      → (run_pump plat config td turns due a).1 ≡ pumping a'
      → k < length turns
      → get_elem? (run_pump plat config td turns due a).0 k ≡ some (later td due k)
  unfolding run_pump
  run_pump-get_elem? [] due a a' k h lt = absurd (omega arith)
  run_pump-get_elem? (interrupted ∷ turns) due a a' k h lt = absurd (cc h)
  run_pump-get_elem? (wake e busy ∷ turns) due a a' zero h lt =
      let (x, goes_on, same) =
        after_call-pumping due (on_timer plat config e (with_lock busy a))
          (λ a''. run_pump plat config td turns (due +ℤ td) a'') a' h in
      rw same refl
  run_pump-get_elem? (wake e busy ∷ turns) due a a' (suc k) h lt =
      let (x, goes_on, same) =
        after_call-pumping due (on_timer plat config e (with_lock busy a))
          (λ a''. run_pump plat config td turns (due +ℤ td) a'') a' h in
      rw same (run_pump-get_elem? turns (due +ℤ td) x a' k goes_on (omega arith))

  -- If the pump still goes on after some turns, it has made one call for each of them, the call k
  -- (from 0) at the first due time and k intervals.
  pub run_pump_due :
      (turns : List Turn) (due : ℤ) (a a' : App) (k : ℕ)
      → (run_pump plat config td turns due a).1 ≡ pumping a'
      → k < length turns
      → (length (run_pump plat config td turns due a).0 ≡ length turns)
        × (get_elem? (run_pump plat config td turns due a).0 k ≡ some (later td due k))
  run_pump_due turns due a a' k h lt =
      (run_pump-length turns due a a' h, run_pump-get_elem? turns due a a' k h lt)

  overlapped_lem :
      (es : List QueryEnv) (due : ℤ) (a : App)
      → a.locked ≡ true
      → (run_pump plat config td (map (λ e. wake e true) es) due a).1
        ≡ pumping (record a { stats = bumps (length es) a.stats })
  unfolding run_pump on_timer
  overlapped_lem [] due a held = refl
  overlapped_lem (e ∷ es) due a held =
      overlapped_lem es (due +ℤ td) (count_timer (with_lock true a)) refl
      ∙ ap (λ l. pumping (record a { locked = l; stats = bumps (suc (length es)) a.stats }))
          (sym held)

  -- Turns that all find another query running, which holds the mutex, never end the pump, however
  -- many they are: the call k (from 0) is made at the first due time and k intervals, each call is
  -- counted, modulo 2^32, and the provider, the connections and the times stay as they are.
  pub run_pump_overlapped :
      (es : List QueryEnv) (due : ℤ) (a : App) (k : ℕ)
      → a.locked ≡ true
      → a.stats timer_query_received < u32_mod
      → k < length es
      → (a' : App) × ((run_pump plat config td (map (λ e. wake e true) es) due a).1 ≡ pumping a')
        × (get_elem? (run_pump plat config td (map (λ e. wake e true) es) due a).0 k
            ≡ some (later td due k))
        × (a'.stats timer_query_received ≡ (a.stats timer_query_received + length es) % u32_mod)
        × (a'.provider ≡ a.provider)
        × (a'.connections ≡ a.connections)
        × (a'.refresh_time ≡ a.refresh_time)
  run_pump_overlapped es due a k held small lt =
      let goes_on = overlapped_lem es due a held in
      (
        record a { stats = bumps (length es) a.stats },
        goes_on,
        run_pump-get_elem? (map (λ e. wake e true) es) due a _ k goes_on
            (omega (arith, length-map es (λ (e : QueryEnv). wake e true))),
        bumps-timer (length es) a.stats small,
        refl,
        refl,
        refl,
      )
