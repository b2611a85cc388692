-- ===== src/Session/End.antt =====
-- The destructor of `session_t` (src/session.cc).
use psych.Prelude.{
  Bool, true, false, Option, none, some, List, [], ◌∷◌, ◌++◌, ◌≡◌, refl, if◌then◌else◌, inl, inr, ℕ,
  Option-cases, Bool-cases,
}
use mathlib.Core.Path.{subst}
use psych.Provider.Login.{
  Started, StartEnv, create_omm_provider, send_login_request, register_login, login_request,
}
use psych.Store.{Session}

-- what is given back to RFA
pub data EndCall : Type 0 where
  unregister_item unregister_error destroy_omm_provider release_session : EndCall

abbrev pub call_if : Bool → EndCall → List EndCall
call_if true c = c ∷ []
call_if false c = []

-- The clients are unregistered at the OMM provider, which is null before the start-up has made it.
abbrev pub unregister_clients : Session → Option (List EndCall)
unregister_clients s =
    if s.item_handle
    then (if s.has_omm_provider
        then some (unregister_item ∷ call_if s.error_item_handle unregister_error)
        else none)
    else if s.error_item_handle
    then (if s.has_omm_provider then some (unregister_error ∷ []) else none)
    else some []

abbrev pub release_rest : Session → Option (List EndCall) → Option (List EndCall)
release_rest s none = none
release_rest s (some calls) =
    let rest =
      call_if s.has_omm_provider destroy_omm_provider ++ call_if s.has_session release_session in
    some (calls ++ rest)

-- `~session_t`; `none` is a call through a null pointer
unfoldable pub end_session : Session → Option (List EndCall)
end_session s = release_rest s (unregister_clients s)

-- all that a session has, in the order in which it is given back
abbrev pub held : Session → List EndCall
held s =
    (call_if s.item_handle unregister_item ++ call_if s.error_item_handle unregister_error)
    ++ (call_if s.has_omm_provider destroy_omm_provider ++ call_if s.has_session release_session)

abbrev EndsIf : Option Started → Type 0
EndsIf none = Unit
EndsIf (some (ok, s, w)) = end_session s ≡ some (held s)

login-Ends :
    (env : StartEnv) (s : Session) (v : ℕ × ℕ)
    → s.has_omm_provider ≡ true
    → EndsIf (some (send_login_request env s v))
unfolding send_login_request end_session
login-Ends env s v there = elim (Option-cases (env.registers (login_request s.config))) [
  | inl e ↦ elim (Bool-cases s.error_item_handle) [
    | inl on ↦ rw (e, register_login, there, on) refl
    | inr off ↦ rw (e, register_login, there, off) refl
  ]
  | inr ((c, d), e) ↦ rw (e, register_login, there) refl
]

module _ (env : StartEnv) (v : ℕ × ℕ) (s : Session) (no_item : s.item_handle ≡ false)
    (no_error : s.error_item_handle ≡ false) where
  started-Ends :
      (has creates registers : Bool)
      → EndsIf (
          if has
          then some (
              if creates
              then (if registers
                  then send_login_request env
                      (record s { has_omm_provider = true; error_item_handle = true })
                      v
                  else (false, record s { has_omm_provider = true; error_item_handle = false }, v))
              else (false, record s { has_omm_provider = false }, v))
          else none)
  unfolding end_session
  started-Ends true true true = login-Ends env _ v refl
  started-Ends true true false = rw no_item refl
  started-Ends true false registers = rw (no_item, no_error) refl
  started-Ends false creates registers = tt

  -- Wherever the start-up of a session without clients stops, the destructor reads no null pointer,
  -- and gives back all that the session has: the login before the client of errors, and both before
  -- the OMM provider.
  end_session-create_omm_provider :
      (s' : Session) (w : ℕ × ℕ) (ok : Bool)
      → create_omm_provider env s v ≡ some (ok, s', w)
      → end_session s' ≡ some (held s')
  unfolding create_omm_provider
  end_session-create_omm_provider s' w ok e =
      subst EndsIf e (started-Ends s.has_session env.creates_provider env.registers_errors)
