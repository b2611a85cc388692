-- ===== src/Life/Pump.antt =====
-- The loops that dispatch RFA's events, `event_pump_t::Run` of src/psych.hh and `MainLoop` of
-- src/psych.cc, under any interleaving with the threads that deactivate the queue: the console's
-- handler, and Clear before it joins the thread. A dispatch may wait, and returns as one step.
use psych.Prelude.{
  ℕ, suc, ◌+◌, ◌≤◌, Bool, true, false, ◌≡◌, ◌≢◌, ◌⊎◌, inl, inr, refl, arith, if◌then◌else◌,
  Bool-cases,
}

-- Where the thread of the loop is: at the test of its condition, in a dispatch, or behind the loop.
pub data Point : Type 0 where
  testing dispatching left : Point

-- `late` counts the dispatches that have returned since the queue was deactivated.
pub record Loop : Type 0 where
  pub is_active : Bool
  pub point : Point
  pub late : ℕ

-- `isActive`
abbrev pub test : Loop → Loop
test s = record s { point = if s.is_active then dispatching else left }

-- the end of `dispatch (InfiniteWait)`
abbrev pub dispatched : Loop → Loop
dispatched s = record s { point = testing; late = if s.is_active then s.late else s.late + 1 }

-- `deactivate`
abbrev pub deactivated : Loop → Loop
deactivated s = record s { is_active = false }

-- a step of the loop's own thread
pub data Own : Loop → Loop → Type 0 where
  tests : {s : Loop} → s.point ≡ testing → Own s (test s)
  returns : {s : Loop} → s.point ≡ dispatching → Own s (dispatched s)

pub data Step : Loop → Loop → Type 0 where
  own : {s t : Loop} → Own s t → Step s t
  stops : (s : Loop) → Step s (deactivated s)

pub data Reach : Loop → Type 0 where
  start : Reach (record { is_active = true; point = testing; late = 0 })
  step : {s t : Loop} → Reach s → Step s t → Reach t

-- how many steps of its own the loop takes at most until it is left, once the queue is inactive
abbrev pub left_over : Point → ℕ
left_over testing = 1
left_over dispatching = 2
left_over left = 0

abbrev Bounded : Loop → Type 0
Bounded s =
    (s.is_active ≡ true → (s.late ≡ 0) × (s.point ≢ left))
    × (s.late ≤ 1)
    × (s.point ≡ dispatching → s.late ≡ 0)

Own-Bounded : {s t : Loop} → Own s t → Bounded s → Bounded t
Own-Bounded (tests at) b = ground arith
Own-Bounded (returns at) b = ground arith

Step-Bounded : {s t : Loop} → Step s t → Bounded s → Bounded t
Step-Bounded (own o) b = Own-Bounded o b
Step-Bounded (stops s) b = ground arith

Reach-Bounded : {s : Loop} → Reach s → Bounded s
Reach-Bounded start = ground arith
Reach-Bounded (step r st) = Step-Bounded st (Reach-Bounded r)

at_most : (p : Point) → left_over p ≤ 2
at_most testing = omega arith
at_most dispatching = omega arith
at_most left = omega arith

-- The thread has left the loop, or has a step to take, after which fewer are left if the queue is
-- inactive.
Ends : Loop → Type 0
Ends s =
    (s.point ≡ left)
    ⊎ ((t : Loop) × Own s t × (s.is_active ≡ false → suc (left_over t.point) ≡ left_over s.point))

goes_on : (s : Loop) → Ends s
unfolding Ends
goes_on s = from_point s.point refl
  where
    from_point : (p : Point) → s.point ≡ p → Ends s
    from_point testing e = inr (test s, tests e, λ h. ground arith)
    from_point dispatching e = inr (dispatched s, returns e, λ h. ground arith)
    from_point left e = inl e

-- In every state that is reached, whatever order the steps of the threads come in, at most one
-- dispatch has returned since the queue became inactive. While the queue is active, the loop is not
-- left and has a step to take. Once it is inactive, the loop is left, or it has a step to take, after
-- which it is one step nearer to its end; it is never more than two away.
pub Reach-ends :
    {s : Loop}
    → Reach s
    → (s.late ≤ 1)
      × (left_over s.point ≤ 2)
      × (((s.is_active ≡ true) × (s.late ≡ 0) × (s.point ≢ left) × ((t : Loop) × Own s t))
          ⊎ ((s.is_active ≡ false)
              × ((s.point ≡ left)
                  ⊎ ((t : Loop) × Own s t × (suc (left_over t.point) ≡ left_over s.point)))))
unfolding Ends
Reach-ends {s} r =
    let (active, few, early) = Reach-Bounded r in
    (
      few,
      at_most s.point,
      elim (Bool-cases s.is_active) [
        | inl on ↦
            let (zero_late, here) = active on in
            elim (goes_on s) [
              | inl gone ↦ absurd (here gone)
              | inr (t, o, _) ↦ inl (on, zero_late, here, (t, o))
            ]
        | inr off ↦ elim (goes_on s) [
          | inl gone ↦ inr (off, inl gone)
          | inr (t, o, near) ↦ inr (off, inr (t, o, near off))
        ]
      ],
    )
