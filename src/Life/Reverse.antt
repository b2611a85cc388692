-- ===== src/Life/Reverse.antt =====
-- Clear against Init (src/psych.cc), wherever Init has stopped.
use psych.Prelude.{
  Bool, true, false, List, [], ◌∷◌, ◌++◌, ◌≡◌, refl, ap, ◌∙◌, sym, arith, if◌then◌else◌,
}
use mathlib.Core.Path.{subst}
use mathlib.Core.List.{append-nil, append_assoc}
use psych.Life.Stages.{
  Part, connections, tcl, Attempt, not_made, half_made, made, holds, stages, stage, init, release,
  clear, without, destroy,
}

abbrev pub reversed : List Part → List Part
reversed [] = []
reversed (p ∷ rest) = reversed rest ++ p ∷ []

-- Every beginning of a list of stages, behind some others, has a property.
abbrev Beginnings : (List Part → Type 0) → List Part → List Part → Type 0
Beginnings P before [] = P before
Beginnings P before (p ∷ rest) = P before × Beginnings P (before ++ p ∷ []) rest

module _ (P : List Part → Type 0) where
  Beginnings-first : (before ps : List Part) → Beginnings P before ps → P before
  Beginnings-first before [] h = h
  Beginnings-first before (p ∷ ps) (here, _) = here

  stage-Beginnings :
      (a : Attempt) (p : Part) (before : List Part) (later : List Part × Bool)
      → P before
      → P (before ++ p ∷ [])
      → P ((before ++ p ∷ []) ++ later.0)
      → P (before ++ (stage p a later).0)
  stage-Beginnings not_made p before later here next all = subst P (sym (append-nil before)) here
  stage-Beginnings half_made p before later here next all = next
  stage-Beginnings made p before later here next all =
      subst P (append_assoc before (p ∷ []) later.0) all

  -- What Init leaves set is a beginning of its stages.
  init-Beginnings :
      (attempt : Part → Attempt) (before ps : List Part)
      → Beginnings P before ps
      → P (before ++ (init attempt ps).0)
  unfolding init
  init-Beginnings attempt before [] h = subst P (sym (append-nil before)) h
  init-Beginnings attempt before (p ∷ ps) (here, h) =
      stage-Beginnings (attempt p) p before (init attempt ps) here
        (Beginnings-first (before ++ p ∷ []) ps h) (init-Beginnings attempt (before ++ p ∷ []) ps h)

-- a part, if it is held
abbrev pub if_held : List Part → Part → List Part
if_held held p = if holds held p then p ∷ [] else []

abbrev Undone : List Part → Type 0
Undone held =
    (clear held ≡ reversed (without (connections ∷ tcl ∷ []) held))
    × (without (clear held) held ≡ if_held held connections ++ if_held held tcl)
    × (destroy held ≡ if_held held connections)

abbrev Cleared : List Part → Type 0
Cleared held = without (clear held) held ≡ if_held held connections

stages-Cleared : (is_snmp_enabled : Bool) → Beginnings Cleared [] (stages true is_snmp_enabled)
unfolding stages clear release without
stages-Cleared true = ground arith
stages-Cleared false = ground arith

-- In the application, Clear leaves the connections alone.
pub without-clear_application :
    (attempt : Part → Attempt) (is_snmp_enabled : Bool)
    → let held = (init attempt (stages true is_snmp_enabled)).0 in
      without (clear held) held ≡ if_held held connections
without-clear_application attempt is_snmp_enabled =
    init-Beginnings Cleared attempt [] (stages true is_snmp_enabled)
      (stages-Cleared is_snmp_enabled)

stage-made :
    (a : Attempt) (p : Part) (later : List Part × Bool) (ps : List Part)
    → (stage p a later).1 ≡ true
    → (later.1 ≡ true → later.0 ≡ ps)
    → (stage p a later).0 ≡ p ∷ ps
stage-made not_made p later ps h k = absurd (cc h)
stage-made half_made p later ps h k = absurd (cc h)
stage-made made p later ps h k = ap (λ l. p ∷ l) (k h)

init-made :
    (attempt : Part → Attempt) (ps : List Part)
    → (init attempt ps).1 ≡ true
    → (init attempt ps).0 ≡ ps
unfolding init
init-made attempt [] h = refl
init-made attempt (p ∷ ps) h =
    stage-made (attempt p) p (init attempt ps) ps h (init-made attempt ps)

destroy-stages : (is_snmp_enabled : Bool) → destroy (stages true is_snmp_enabled) ≡ connections ∷ []
unfolding stages clear release without destroy
destroy-stages true = refl
destroy-stages false = refl

-- In the application, Destroy leaves the connections alone where all of Init has succeeded.
pub destroy-init_application :
    (attempt : Part → Attempt) (is_snmp_enabled : Bool)
    → (init attempt (stages true is_snmp_enabled)).1 ≡ true
    → destroy (init attempt (stages true is_snmp_enabled)).0 ≡ connections ∷ []
destroy-init_application attempt is_snmp_enabled h =
    ap destroy (init-made attempt (stages true is_snmp_enabled) h) ∙ destroy-stages is_snmp_enabled
