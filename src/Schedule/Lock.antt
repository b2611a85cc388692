-- ===== src/Schedule/Lock.antt =====
-- The query mutex (src/psych.cc, src/tcl.cc) under any interleaving of threads. Thread 0 is the
-- timer's; every other thread is one that the engine runs Tcl commands on. A query is in two steps,
-- at its start and at its end, so that the steps of other threads fall in between; what it does to
-- the members of `psych_t` is done at its end.
-- Unknown commands, which leave the mutex alone, and the times of commands are left out; a timer whose
-- query has raised an exception may go on here, which the pump of Schedule/Timer does not.
use psych.Prelude.{
  ℕ, ◌<◌, Bool, true, false, List, ◌==◌, ==_iff, if◌then◌else◌, ◌≡◌, ◌≢◌, ◌⊎◌, ◌↔◌, refl, arith,
  ◌∙◌, sym, Bool-cases, inl, inr,
}
use mathlib.Core.Path.{subst}
use psych.Config.{Config}
use psych.Platform.{Platform}
use psych.Http.Transfer.{Connection}
use psych.Query.Options.{Flags}
use psych.Schedule.App.{
  App, QueryEnv, returned, raised, query_on, try_lock, unlock, try_lock-busy, try_lock-free,
}
use psych.Schedule.Timer.{count_timer}
use psych.Schedule.Tcl.{count_tcl, dup_connections}

-- Where a thread is: outside of a query, or in one.
pub data Phase : Type 0 where
  outside inside : Phase

pub record System : Type 0 where
  pub app : App
  pub threads : ℕ → Phase

abbrev pub put_thread : ℕ → Phase → (ℕ → Phase) → ℕ → Phase
put_thread i ph threads j = if i == j then ph else threads j

-- A thread that has tried the lock goes into the query where it owns it, and is done where not.
abbrev pub entered : ℕ → System → App × Bool → System
entered i s (a, true) = record { app = a; threads = put_thread i inside s.threads }
entered i s (a, false) = record s { app = a }

-- The callback of the timer, and a command of another thread, up to the query.
unfoldable pub timer_enters : System → System
timer_enters s = entered 0 s (try_lock (count_timer s.app))

unfoldable pub command_enters : ℕ → System → System
command_enters i s = entered i s (try_lock (count_tcl s.app))

-- the connections that the query of a thread works on
abbrev pub connections_for : ℕ → App → List Connection
connections_for i a = if i == 0 then a.connections else dup_connections a.connections

-- what the timer writes back, and a command does not
abbrev pub write_back : ℕ → List Connection → App → App
write_back i connections a = if i == 0 then record a { connections = connections } else a

abbrev pub left : ℕ → App → List Connection → System → System
left i a connections s = record {
  app = unlock (write_back i connections a);
  threads = put_thread i outside s.threads;
}

module _ (plat : Platform) (config : Config) where
  pub data Step : System → System → Type 0 where
    timer_starts : {s : System} → s.threads 0 ≡ outside → Step s (timer_enters s)
    command_starts :
        {s : System} (i : ℕ) → 0 < i → s.threads i ≡ outside → Step s (command_enters i s)
    query_returns :
        {s : System} (i : ℕ) (flags : Flags) (e : QueryEnv) (a : App)
        (connections : List Connection)
        → s.threads i ≡ inside
        → query_on plat config flags e (connections_for i s.app) s.app ≡ returned a connections
        → Step s (left i a connections s)
    query_raises :
        {s : System} (i : ℕ) (flags : Flags) (e : QueryEnv) (a : App)
        (connections : List Connection)
        → s.threads i ≡ inside
        → query_on plat config flags e (connections_for i s.app) s.app ≡ raised a connections
        → Step s (left i a connections s)

  -- From a state in which the mutex is free and no thread is in a query.
  pub data Reach : System → Type 0 where
    start : {s : System} → s.app.locked ≡ false → ((i : ℕ) → s.threads i ≡ outside) → Reach s
    step : {s t : System} → Reach s → Step s t → Reach t

  -- The mutex says whether a thread is in a query, and at most one is.
  abbrev Exclusive : System → Type 0
  Exclusive s =
      ((i : ℕ) → s.threads i ≡ inside → s.app.locked ≡ true)
      × ((i j : ℕ) → s.threads i ≡ inside → s.threads j ≡ inside → i ≡ j)
      × (s.app.locked ≡ true → (i : ℕ) × (s.threads i ≡ inside))

  -- A thread other than the one that was put is where it was.
  put-cases :
      (i j : ℕ) (ph : Phase) (threads : ℕ → Phase)
      → put_thread i ph threads j ≡ inside
      → (i ≡ j) ⊎ (threads j ≡ inside)
  put-cases i j ph threads h = ground (arith, ==_iff i j)

  put_outside :
      (i j : ℕ) (threads : ℕ → Phase)
      → put_thread i outside threads j ≡ inside
      → (i ≢ j) × (threads j ≡ inside)
  put_outside i j threads h = ground (arith, ==_iff i j)

  put_here : (i : ℕ) (ph : Phase) (threads : ℕ → Phase) → put_thread i ph threads i ≡ ph
  put_here i ph threads = ground (arith, ==_iff i i)

  entered-Exclusive :
      (i : ℕ) (s : System) (a : App)
      → a.locked ≡ s.app.locked
      → Exclusive s
      → Exclusive (entered i s (try_lock a))
  entered-Exclusive i s a same (held, one, some_one) = elim (Bool-cases a.locked) [
    | inl busy ↦
        subst (λ x. Exclusive (entered i s x)) (sym (try_lock-busy a busy))
          (λ j h. busy, one, λ h. some_one (sym same ∙ busy))
    | inr free ↦
        let none_inside : (j : ℕ) → s.threads j ≡ inside → ⊥ = λ j h. cc (held j h, same, free) in
        let at : (j : ℕ) → put_thread i inside s.threads j ≡ inside → i ≡ j = λ j h.
          elim (put-cases i j inside s.threads h) [
            | inl e ↦ e
            | inr h' ↦ absurd (none_inside j h')
          ] in
        subst (λ x. Exclusive (entered i s x)) (sym (try_lock-free a free))
          (λ j h. refl, λ j k hj hk. sym (at j hj) ∙ at k hk, λ h. (i, put_here i inside s.threads))
  ]

  left-Exclusive :
      (i : ℕ) (s : System) (a : App) (connections : List Connection)
      → s.threads i ≡ inside
      → Exclusive s
      → Exclusive (left i a connections s)
  left-Exclusive i s a connections here (held, one, some_one) =
      let empty : (j : ℕ) → put_thread i outside s.threads j ≡ inside → ⊥ =
        λ j h. let (other, still) = put_outside i j s.threads h in other (one i j here still) in
      (λ j h. absurd (empty j h), λ j k hj hk. absurd (empty j hj), λ h. absurd (cc h))

  Reach-Exclusive : {s : System} → Reach s → Exclusive s
  unfolding timer_enters command_enters
  Reach-Exclusive (start free quiet) = (
    λ i h. absurd (cc (h, quiet i)),
    λ i j h k. absurd (cc (h, quiet i)),
    λ h. absurd (cc (h, free)),
  )
  Reach-Exclusive (step {s} r (timer_starts _)) =
      entered-Exclusive 0 s (count_timer s.app) refl (Reach-Exclusive r)
  Reach-Exclusive (step {s} r (command_starts i _ _)) =
      entered-Exclusive i s (count_tcl s.app) refl (Reach-Exclusive r)
  Reach-Exclusive (step {s} r (query_returns i flags e a connections here _)) =
      left-Exclusive i s a connections here (Reach-Exclusive r)
  Reach-Exclusive (step {s} r (query_raises i flags e a connections here _)) =
      left-Exclusive i s a connections here (Reach-Exclusive r)

  Phase-cases : (ph : Phase) → (ph ≡ outside) ⊎ (ph ≡ inside)
  Phase-cases outside = inl refl
  Phase-cases inside = inr refl

  -- In every state that threads reach from one without queries, whatever order their steps come in, of
  -- any two threads one is outside of a query; and the mutex is held just when a thread is in one, so
  -- that no way out of a query leaves it locked.
  pub queries_exclusive :
      {s : System}
      → Reach s
      → (i j : ℕ)
      → ((i ≡ j) ⊎ (s.threads i ≡ outside) ⊎ (s.threads j ≡ outside))
        × ((s.app.locked ≡ true) ↔ ((k : ℕ) × (s.threads k ≡ inside)))
  queries_exclusive {s} r i j =
      let (held, one, some_one) = Reach-Exclusive r in
      (
        elim (Phase-cases (s.threads i)) [
          | inl out ↦ inr (inl out)
          | inr here ↦ elim (Phase-cases (s.threads j)) [
            | inl out ↦ inr (inr out)
            | inr there ↦ inl (one i j here there)
          ]
        ],
        (some_one, λ (k, h). held k h),
      )
