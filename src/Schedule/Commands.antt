-- ===== src/Schedule/Commands.antt =====
-- The registration of the Tcl commands: `RegisterTclApi` and `UnregisterTclApi` of src/tcl.cc.
use psych.Prelude.{
  Bool, true, false, List, [], ◌∷◌, map, ◌≡◌, ◌⊎◌, inl, inr, refl, All, Bool-cases, if◌then◌else◌,
}
use psych.Prelude.Bytes.{Bytes, codes, equal}
use psych.Config.{Config}
use psych.Platform.{Platform}
use psych.Schedule.App.{App, QueryEnv}
use psych.Schedule.Tcl.{
  dispatch, tcl_psych_republish, tcl_psych_hard_republish, basic_function_name, reset_function_name,
}

-- `kTclApi`
abbrev pub tcl_api : List Bytes
tcl_api = codes "psych_republish" ∷ codes "psych_hard_republish" ∷ []

-- a call of the engine that has succeeded, with the plug-in's id and the name
pub data EngineCall : Type 0 where
  register_command deregister_command : Bytes → Bytes → EngineCall

-- one name, given what is done for the names behind it; where the engine throws, they are not reached
abbrev pub register_first : Bool → Bytes → Bytes → List EngineCall × Bool → List EngineCall × Bool
register_first false id name later = ([], false)
register_first true id name (calls, ok) = (register_command id name ∷ calls, ok)

unfoldable pub register_names : (Bytes → Bool) → Bytes → List Bytes → List EngineCall × Bool
register_names accepts id [] = ([], true)
register_names accepts id (name ∷ rest) =
    register_first (accepts name) id name (register_names accepts id rest)

-- `RegisterTclApi`; false where an exception leaves it
unfoldable pub register_tcl_api : (accepts : Bytes → Bool) → Bytes → List EngineCall × Bool
unfolding register_names
register_tcl_api accepts id = register_names accepts id tcl_api

-- `UnregisterTclApi`
unfoldable pub unregister_tcl_api : Bytes → List EngineCall
unregister_tcl_api id = map (deregister_command id) tcl_api

-- the names that calls register
abbrev pub registered : List EngineCall → List Bytes
registered [] = []
registered (register_command id name ∷ calls) = name ∷ registered calls
registered (deregister_command id name ∷ calls) = registered calls

-- Whether calls deregister a name.
abbrev pub deregisters : Bytes → List EngineCall → Bool
deregisters name [] = false
deregisters name (register_command id other ∷ calls) = deregisters name calls
deregisters name (deregister_command id other ∷ calls) =
    if equal name other then true else deregisters name calls

-- A command that execute answers by a query.
abbrev pub Served : Bytes → Type 1
Served name =
    (plat : Platform) (config : Config) (e : QueryEnv) (a : App)
    → (dispatch plat config e name a ≡ tcl_psych_republish plat config e a)
      ⊎ (dispatch plat config e name a ≡ tcl_psych_hard_republish plat config e a)

basic-Served : Served basic_function_name
unfolding dispatch equal
basic-Served plat config e a = inl refl

reset-Served : Served reset_function_name
unfolding dispatch equal
reset-Served plat config e a = inr refl

-- Whichever name the engine refuses, each command that is registered is one that execute answers by a
-- query, and is deregistered when the plug-in is destroyed.
registered-Served :
    (accepts : Bytes → Bool) (id : Bytes)
    → All
        (λ name. Served name × (deregisters name (unregister_tcl_api id) ≡ true))
        (registered (register_tcl_api accepts id).0)
unfolding register_tcl_api register_names unregister_tcl_api equal
registered-Served accepts id = elim (Bool-cases (accepts basic_function_name)) [
  | inr none_taken ↦ rw none_taken tt
  | inl first ↦ elim (Bool-cases (accepts reset_function_name)) [
    | inr one ↦ rw (first, one) ((basic-Served, refl), tt)
    | inl two ↦ rw (first, two) ((basic-Served, refl), ((reset-Served, refl), tt))
  ]
]
