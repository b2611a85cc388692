-- ===== src/Provider/Negotiation.antt =====
-- What the start-up of one session does to the wire format version of the provider
-- (src/session.cc, SendLoginRequest and CreateOMMProvider).
use psych.Prelude.{
  ℕ, ◌+◌, ◌<◌, ◌≤◌, Bool, true, false, Option, none, some, List, [], ◌∷◌, ◌≡◌, ◌⊎◌, inl, inr, refl,
  sym, ◌∙◌, ap, arith, Option-cases, if◌then◌else◌,
}
use mathlib.Core.Path.{subst}
use psych.Store.{Session}
use psych.Provider.Login.{
  Started, negotiate, StartEnv, LoginRequest, create_omm_provider, send_login_request,
  register_login, login_request,
}

-- Order on versions: by major, then by minor number.
abbrev pub NotAbove : ℕ × ℕ → ℕ × ℕ → Type 0
NotAbove (a, b) (c, d) = (a < c) ⊎ ((a ≡ c) × (b ≤ d))

-- 0.0 stands for no version yet.
abbrev pub IsVersion : ℕ × ℕ → Type 0
IsVersion (a, b) = 0 < a + b

-- `v` is at most the version that the session has negotiated, if it has.
abbrev pub Floor : ℕ × ℕ → Session → Type 0
Floor v s = s.item_handle ≡ true → IsVersion v × NotAbove v (s.rwf_major, s.rwf_minor)

-- The session has negotiated just `v`.
abbrev pub Has : ℕ × ℕ → Session → Type 0
Has v s = (s.item_handle ≡ true) × (s.rwf_major ≡ v.0) × (s.rwf_minor ≡ v.1)

abbrev pub SomeHas : ℕ × ℕ → List Session → Type 0
SomeHas v [] = ⊥
SomeHas v (s ∷ ss) = Has v s ⊎ SomeHas v ss

-- A version is never replaced by a higher one, nor by none.
abbrev pub Lowers : ℕ × ℕ → ℕ × ℕ → Type 0
Lowers v w = IsVersion v → IsVersion w × NotAbove w v

-- RFA negotiates versions above 0.0.
abbrev pub RealVersions : (ℕ → StartEnv) → Type 0
RealVersions env =
    (i : ℕ) (r : LoginRequest) (w : ℕ × ℕ) → (env i).registers r ≡ some w → IsVersion w

pub Lowers-trans : (u v w : ℕ × ℕ) → Lowers u v → Lowers v w → Lowers u w
Lowers-trans (a, b) (c, d) (e, f) h k x = ground (arith, h x, λ (y : IsVersion (c, d)). k y)

pub Floor-Lowers : (v w : ℕ × ℕ) (s : Session) → Floor v s → Lowers v w → Floor w s
Floor-Lowers (a, b) (c, d) s h k x = ground (arith, h x, λ (y : IsVersion (a, b)). k y)

module _ (a b c d : ℕ) (real : IsVersion (c, d)) where
  negotiate-Lowers : Lowers (a, b) (negotiate (a, b) (c, d))
  unfolding negotiate
  negotiate-Lowers h = ground arith

  negotiate_lower : IsVersion (negotiate (a, b) (c, d)) × NotAbove (negotiate (a, b) (c, d)) (c, d)
  unfolding negotiate
  negotiate_lower = ground arith

  negotiate_either : (negotiate (a, b) (c, d) ≡ (a, b)) ⊎ (negotiate (a, b) (c, d) ≡ (c, d))
  unfolding negotiate
  negotiate_either = ground arith

-- What the start of one session does to the version.
pub record Negotiated (v w : ℕ × ℕ) (s : Session) : Type 0 where
  pub lowers : Lowers v w
  pub floor : Floor w s
  pub attained : (w ≡ v) ⊎ Has w s

unregistered : (v : ℕ × ℕ) (s : Session) → s.item_handle ≡ false → Negotiated v v s
unregistered (a, b) s h = record {
  lowers = λ x. (x, inr (refl, omega arith));
  floor = λ x. absurd (ground arith);
  attained = inl refl;
}

registered :
    (v : ℕ × ℕ) (c d : ℕ) (s : Session)
    → s.rwf_major ≡ c
    → s.rwf_minor ≡ d
    → s.item_handle ≡ true
    → IsVersion (c, d)
    → Negotiated v (negotiate v (c, d)) s
registered (a, b) c d s e f h real = record {
  lowers = negotiate-Lowers a b c d real;
  floor = λ _. rw (e, f) (negotiate_lower a b c d real);
  attained = elim (negotiate_either a b c d real) [
    | inl old ↦ inl old
    | inr new ↦
        inr (h, e ∙ sym (ap (λ (x : ℕ × ℕ). x.0) new), f ∙ sym (ap (λ (x : ℕ × ℕ). x.1) new))
  ];
}

send_login_request-Negotiated :
    (env : StartEnv) (s : Session) (v : ℕ × ℕ)
    → ((r : LoginRequest) (w : ℕ × ℕ) → env.registers r ≡ some w → IsVersion w)
    → Negotiated v (send_login_request env s v).2 (send_login_request env s v).1
unfolding send_login_request
send_login_request-Negotiated env s v real =
    elim (Option-cases (env.registers (login_request s.config))) [
      | inl e ↦ rw (e, register_login) (unregistered v _ refl)
      | inr ((c, d), e) ↦ rw (e, register_login) (registered v c d _ refl refl refl (real _ _ e))
    ]

abbrev pub NegotiatedIf : ℕ × ℕ → Option Started → Type 0
NegotiatedIf v none = Unit
NegotiatedIf v (some (ok, s, w)) = Negotiated v w s

module _ (env : StartEnv)
    (real : (r : LoginRequest) (x : ℕ × ℕ) → env.registers r ≡ some x → IsVersion x) (v : ℕ × ℕ)
    (s : Session) (h : s.item_handle ≡ false) where
  started-Negotiated :
      (has creates registers : Bool)
      → NegotiatedIf v (
          if has
          then some (
              if creates
              then (if registers
                  then send_login_request env
                      (record s { has_omm_provider = true; error_item_handle = true })
                      v
                  else (false, record s { has_omm_provider = true; error_item_handle = false }, v))
              else (false, record s { has_omm_provider = false }, v))
          else none)
  started-Negotiated true true true = send_login_request-Negotiated env _ v real
  started-Negotiated true true false = unregistered v _ h
  started-Negotiated true false registers = unregistered v _ h
  started-Negotiated false creates registers = tt

  pub create_omm_provider-Negotiated :
      (s' : Session) (w : ℕ × ℕ) (ok : Bool)
      → create_omm_provider env s v ≡ some (ok, s', w)
      → Negotiated v w s'
  unfolding create_omm_provider
  create_omm_provider-Negotiated s' w ok e =
      subst (NegotiatedIf v) e
        (started-Negotiated s.has_session env.creates_provider env.registers_errors)
