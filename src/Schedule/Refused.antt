-- ===== src/Schedule/Refused.antt =====
-- What a Tcl command leaves behind (src/tcl.cc), whichever command it is.
use psych.Prelude.{
  true, false, Option, none, some, ◌≡◌, ◌≢◌, ◌⊎◌, inl, inr, refl, sym, ap, Bool-cases,
}
use mathlib.Core.Path.{subst}
use psych.Prelude.Int.{ℤ, ◌-ℤ◌}
use psych.Prelude.Bytes.{Bytes, equal}
use psych.Config.{Config}
use psych.Platform.{Platform}
use psych.Query.Round.{Ended, running, thrown, dead}
use psych.Query.Loop.{Timing, record_time}
use psych.Query.Options.{Flags, republish_flags, hard_republish_flags}
use psych.Schedule.App.{
  App, QueryEnv, after_query, query_on, try_lock, try_lock-busy, try_lock-free,
}
use psych.Schedule.Tcl.{
  TclResult, tcl_ok, tcl_error, basic_function_name, reset_function_name, republish_outcome,
  republish_query, tcl_psych_republish, tcl_psych_hard_republish, dispatch, count_tcl, time_tcl,
  execute,
}

-- The command has found the mutex held and left the provider as it was, or it was free.
abbrev Kept : App → App → TclResult → Type 0
Kept a b r =
    (b.connections ≡ a.connections)
    × (b.locked ≡ a.locked)
    × (b.tcl_time ≡ a.tcl_time)
    × ((a.locked ≡ false) ⊎ ((b.provider ≡ a.provider) × (r ≢ tcl_ok)))

abbrev Result : Type 0
Result = App × TclResult

some_inj : (x y : Result) → some x ≡ some y → x ≡ y
some_inj x y h = cc h

error-ne-ok : (text : Bytes) → tcl_error text ≢ tcl_ok
error-ne-ok text h = cc h

-- `Kept` is seen at the result of a command.
Kept-at : (a : App) (x y : Result) → some x ≡ some y → Kept a x.0 x.1 → Kept a y.0 y.1
Kept-at a x y h k = subst (λ (z : Result). Kept a z.0 z.1) (some_inj x y h) k

outcome-Kept :
    (a b : App) (r : TclResult) (ended : Ended) (t : Timing)
    → a.locked ≡ false
    → republish_outcome (after_query (record a { locked = true }) ended t) ≡ some (b, r)
    → Kept a b r
outcome-Kept a b r (running q) t free h = Kept-at a _ (b, r) h (refl, sym free, refl, inl free)
outcome-Kept a b r (thrown q) t free h = Kept-at a _ (b, r) h (refl, sym free, refl, inl free)
outcome-Kept a b r dead t free h = absurd (cc h)

module _ (plat : Platform) (config : Config) (e : QueryEnv) where
  republish-Kept :
      (flags : Flags) (a b : App) (r : TclResult)
      → republish_query plat config flags e (try_lock a) ≡ some (b, r)
      → Kept a b r
  unfolding query_on
  republish-Kept flags a b r h = elim (Bool-cases a.locked) [
    | inl busy ↦
        Kept-at a _ (b, r)
          (subst (λ x. republish_query plat config flags e x ≡ some (b, r)) (try_lock-busy a busy)
            h)
          (refl, refl, refl, inr (refl, error-ne-ok _))
    | inr free ↦
        outcome-Kept a b r _ _ free (
          subst (λ x. republish_query plat config flags e x ≡ some (b, r)) (try_lock-free a free) h)
  ]

  dispatch-Kept :
      (command : Bytes) (a b : App) (r : TclResult)
      → dispatch plat config e command a ≡ some (b, r)
      → Kept a b r
  unfolding dispatch tcl_psych_republish tcl_psych_hard_republish
  dispatch-Kept command a b r = elim (Bool-cases (equal command basic_function_name)) [
    | inl basic ↦ rw basic (republish-Kept republish_flags a b r)
    | inr other ↦ elim (Bool-cases (equal command reset_function_name)) [
      | inl reset ↦ rw (other, reset) (republish-Kept hard_republish_flags a b r)
      | inr unknown ↦
          rw (other, unknown)
            λ h. Kept-at a _ (b, r) h (refl, refl, refl, inr (refl, error-ne-ok _))
    ]
  ]

  timed :
      (td : ℤ) (o : Option Result) (b : App) (r : TclResult)
      → time_tcl td o ≡ some (b, r)
      → (x : App) × (o ≡ some (x, r)) × (record x { tcl_time = record_time td x.tcl_time } ≡ b)
  timed td none b r h = absurd (cc h)
  timed td (some (x, q)) b r h =
      let same = some_inj (record x { tcl_time = record_time td x.tcl_time }, q) (b, r) h in
      (x, ap (λ (z : Result). some (x, z.1)) same, ap (λ (z : Result). z.0) same)

  -- Whatever the command and whichever way its query ends, unless the process is gone, the connections
  -- of the plug-in and the state of the mutex are as before and the time of the command is recorded;
  -- and either the mutex was free, or the provider is as before and the command does not succeed.
  pub execute_leaves :
      (t0 t1 : ℤ) (command : Bytes) (a b : App) (r : TclResult)
      → execute plat config e t0 t1 command a ≡ some (b, r)
      → (b.connections ≡ a.connections)
        × (b.locked ≡ a.locked)
        × (b.tcl_time ≡ record_time (t1 -ℤ t0) a.tcl_time)
        × ((a.locked ≡ false) ⊎ ((b.provider ≡ a.provider) × (r ≢ tcl_ok)))
  unfolding execute
  execute_leaves t0 t1 command a b r h =
      let (x, got, same) = timed (t1 -ℤ t0) (dispatch plat config e command (count_tcl a)) b r h in
      let (same_connections, same_lock, same_time, rest) =
        dispatch-Kept command (count_tcl a) x r got in
      subst
        (λ (y : App).
          (y.connections ≡ a.connections)
          × (y.locked ≡ a.locked)
          × (y.tcl_time ≡ record_time (t1 -ℤ t0) a.tcl_time)
          × ((a.locked ≡ false) ⊎ ((y.provider ≡ a.provider) × (r ≢ tcl_ok))))
        same (same_connections, same_lock, ap (record_time (t1 -ℤ t0)) same_time, rest)
