-- ===== src/Boot/Balance.antt =====
-- What the guards of src/main.cc leave behind.
use psych.Prelude.{
  ℕ, ◌<◌, ◌≡◌, ◌∙◌, refl, Option-cases, inl, inr, Bool-cases, Bool, true, false, Option, none, some,
  List, [], ◌∷◌, ◌++◌, arith, ◌==◌, if◌then◌else◌,
}
use psych.Boot.Guards.{
  Call, wsa_startup, wsa_cleanup, run_psych, time_begin_period, time_end_period, SystemEnv, offers,
  init_logging, register_log_provider, start_winsock, stop_winsock, period, begin_period,
  start_timecaps, stop_timecaps, main_calls,
}

-- What a process holds of the system, the last first: the socket library, timer periods, and the log
-- with its event provider.
pub data Held : Type 0 where
  sockets log_state log_provider : Held
  timer : ℕ → Held

-- `none`: what is given back is not what was taken last
abbrev pub without_sockets : List Held → Option (List Held)
without_sockets (sockets ∷ held) = some held
without_sockets held = none

abbrev pub without_timer : ℕ → List Held → Option (List Held)
without_timer p (timer q ∷ held) = if p == q then some held else none
without_timer p held = none

abbrev pub take_if : Bool → Held → List Held → List Held
take_if true x held = x ∷ held
take_if false x held = held

-- `psych` is what the program's own part does to it.
abbrev pub effect :
    (psych : List Held → Option (List Held)) → SystemEnv → Call → List Held → Option (List Held)
effect psych env wsa_startup held = some (take_if env.starts sockets held)
effect psych env wsa_cleanup held = without_sockets held
effect psych env run_psych held = psych held
effect psych env init_logging held = some (log_state ∷ held)
effect psych env register_log_provider held = some (log_provider ∷ held)
effect psych env (time_begin_period p) held = some (take_if (env.takes_period p) (timer p) held)
effect psych env (time_end_period p) held = without_timer p held

abbrev pub and_then : Option (List Held) → (List Held → Option (List Held)) → Option (List Held)
and_then none next = none
and_then (some held) next = next held

-- the calls, one after the other
unfoldable pub play :
    (psych : List Held → Option (List Held))
    → SystemEnv
    → List Call
    → List Held
    → Option (List Held)
play psych env [] held = some held
play psych env (c ∷ calls) held = and_then (effect psych env c held) (play psych env calls)

play-append :
    (psych : List Held → Option (List Held)) (env : SystemEnv) (xs ys : List Call)
    (held : List Held)
    → play psych env (xs ++ ys) held ≡ and_then (play psych env xs held) (play psych env ys)
unfolding play
play-append psych env [] ys held = refl
play-append psych env (x ∷ xs) ys held = elim (Option-cases (effect psych env x held)) [
  | inl e ↦ rw e refl
  | inr (h, e) ↦ rw e (play-append psych env xs ys h)
]

module _ (psych : List Held → Option (List Held)) where
  -- Calls that leave the process as it was, whatever it holds.
  abbrev Restores : SystemEnv → List Call → Type 0
  Restores env calls = (held : List Held) → play psych env calls held ≡ some held

  -- What the last calls give back is what the first have taken.
  abbrev Pairs : SystemEnv → List Call → List Call → List Held → Type 0
  Pairs env first last held =
      (between : List Held) × (play psych env first held ≡ some between)
      × (play psych env last between ≡ some held)

  framed :
      (env : SystemEnv) (first middle last : List Call) (held : List Held)
      → Restores env middle
      → Pairs env first last held
      → play psych env (first ++ (middle ++ last)) held ≡ some held
  framed env first middle last held same (between, taken, given) =
      play-append psych env first (middle ++ last) held
      ∙ rw taken (play-append psych env middle last between ∙ rw (same between) given)

  winsock-Pairs :
      (env : SystemEnv) (version : ℕ × ℕ) (held : List Held)
      → Pairs env (start_winsock env version).0 (stop_winsock (start_winsock env version).1) held
  unfolding start_winsock stop_winsock play
  winsock-Pairs env version held = elim (Bool-cases env.starts) [
    | inr down ↦ rw down (held, refl, refl)
    | inl up ↦ elim (Bool-cases (offers version env.version)) [
      | inl right ↦ rw (up, right) (sockets ∷ held, refl, refl)
      | inr wrong ↦ rw (up, wrong) (held, refl, refl)
    ]
  ]

  begin_period-Pairs :
      (env : SystemEnv) (p : ℕ) (held : List Held)
      → 0 < p
      → Pairs env (begin_period env p).0 (stop_timecaps (begin_period env p).1) held
  unfolding stop_timecaps play
  begin_period-Pairs env p held h = elim (Bool-cases (env.takes_period p)) [
    | inl taken ↦ rw taken (timer p ∷ held, refl, ground arith)
    | inr refused ↦ rw refused (held, refl, refl)
  ]

  timecaps-Pairs :
      (env : SystemEnv) (resolution : ℕ) (held : List Held)
      → ((caps : ℕ × ℕ) → env.periods ≡ some caps → 0 < caps.1)
      → 0 < resolution
      → Pairs env
          (start_timecaps env resolution).0
          (stop_timecaps (start_timecaps env resolution).1)
          held
  unfolding start_timecaps stop_timecaps play period
  timecaps-Pairs env resolution held positive h = elim (Option-cases env.periods) [
    | inl e ↦ rw e (held, refl, refl)
    | inr (caps, e) ↦ rw e (
        begin_period-Pairs env (period caps resolution) held
          (let some_period = positive caps e in ground arith))
  ]

  -- If the system's greatest timer period is positive, and the program's own part leaves the socket
  -- library and the timer's period as it found them, then after `main`, whatever the system has
  -- answered, all that the two guards have taken, the socket library and the period, has been given
  -- back, in the reverse order; the log and its event provider, which `env_t` has set up, have not.
  pub play-main_calls :
      (env : SystemEnv) (held : List Held)
      → ((caps : ℕ × ℕ) → env.periods ≡ some caps → 0 < caps.1)
      → ((h : List Held) → psych h ≡ some h)
      → play psych env (main_calls env) held ≡ some (log_provider ∷ log_state ∷ held)
  unfolding play main_calls
  play-main_calls env held positive same =
      let (first, initialized) = start_winsock env (2, 2) in
      let (next, res) = start_timecaps env 1 in
      let logged = log_provider ∷ log_state ∷ held in
      framed env first (next ++ (run_psych ∷ [] ++ stop_timecaps res)) (stop_winsock initialized)
        logged
        (λ h.
          framed env next (run_psych ∷ []) (stop_timecaps res) h (λ h'. rw (same h') refl)
            (timecaps-Pairs env 1 h positive (omega arith)))
        (winsock-Pairs env (2, 2) logged)
