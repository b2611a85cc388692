-- ===== src/Provider/Version.antt =====
-- The provider's wire format version is the lowest that a session has negotiated (src/session.cc,
-- SendLoginRequest; src/provider.cc, Init).
use psych.Prelude.{
  ℕ, ◌+◌, Bool, true, false, Option, none, some, List, [], ◌∷◌, ◌≡◌, ◌⊎◌, inl, inr, refl, ◌∙◌, ap,
  arith, All,
}
use psych.Store.{Session, Provider}
use psych.Provider.Login.{
  Started, StartEnv, create_omm_provider, create_omm_providers, cons_started, init_sessions,
  init_provider, start_rest, finish_init,
}
use psych.Provider.Negotiation.{
  NotAbove, IsVersion, Floor, SomeHas, RealVersions, Lowers-trans, Floor-Lowers, Negotiated,
  create_omm_provider-Negotiated,
}

-- What the start of all sessions does to the version.
pub record Lowest (v w : ℕ × ℕ) (ss : List Session) : Type 0 where
  pub lowers : IsVersion v → IsVersion w × NotAbove w v
  pub floor : All (Floor w) ss
  pub attained : (w ≡ v) ⊎ SomeHas w ss

cons_started-some :
    (s : Session) (o : Option (List Session × (ℕ × ℕ))) (ss : List Session) (w : ℕ × ℕ)
    → cons_started s o ≡ some (ss, w)
    → (rest : List Session) × (o ≡ some (rest, w)) × (ss ≡ s ∷ rest)
cons_started-some s none ss w h = cc
cons_started-some s (some (rest, x)) ss w h = (rest, cc, cc)

Lowest-cons :
    (u v w : ℕ × ℕ) (s : Session) (ss : List Session)
    → Negotiated u v s
    → Lowest v w ss
    → Lowest u w (s ∷ ss)
Lowest-cons u v w s ss n l = record {
  lowers = Lowers-trans u v w n.lowers l.lowers;
  floor = (Floor-Lowers v w s n.floor l.lowers, l.floor);
  attained = elim l.attained [
    | inr below ↦ inr (inr below)
    | inl same ↦ elim n.attained [
      | inl start ↦ inl (same ∙ start)
      | inr here ↦ inr (inl (rw same here))
    ]
  ];
}

Lowest-nil : (v w : ℕ × ℕ) (ss : List Session) → ss ≡ [] → w ≡ v → Lowest v w ss
Lowest-nil (a, b) w ss e f =
    rw (e, f)
      (record { lowers = λ h. (h, inr (refl, omega arith)); floor = tt; attained = inl refl })

start_rest-some :
    (o : Option Started) (later : ℕ × ℕ → Option (List Session × (ℕ × ℕ))) (ss : List Session)
    (w : ℕ × ℕ)
    → start_rest o later ≡ some (ss, w)
    → (s : Session) × (x : ℕ × ℕ) × (ok : Bool) × (rest : List Session) × (o ≡ some (ok, s, x))
      × (later x ≡ some (rest, w))
      × (ss ≡ s ∷ rest)
start_rest-some none later ss w h = cc
start_rest-some (some (ok, s, x)) later ss w h =
    let (rest, ran, split) = cons_started-some s (later x) ss w h in
    (s, x, ok, rest, refl, ran, split)

create_omm_providers-Lowest :
    (env : ℕ → StartEnv)
    → RealVersions env
    → (i : ℕ) (ss : List Session) (v : ℕ × ℕ) (ss' : List Session) (w : ℕ × ℕ)
    → All (λ s. s.item_handle ≡ false) ss
    → create_omm_providers env i ss v ≡ some (ss', w)
    → Lowest v w ss'
unfolding create_omm_providers
create_omm_providers-Lowest env real i [] v ss' w h e = Lowest-nil v w ss' (cc) (cc)
create_omm_providers-Lowest env real i (s ∷ ss) v ss' w h e =
    let (s', x, ok, rest, ran, later, split) =
      start_rest-some (create_omm_provider (env i) s v) (λ u. create_omm_providers env (i + 1) ss u)
        ss' w e in
    rw split (
      Lowest-cons v x w s' rest
        (create_omm_provider-Negotiated (env i) (real i) v s h.0 s' x ok ran)
        (create_omm_providers-Lowest env real (i + 1) ss x rest w h.1 later))

init_sessions-unregistered :
    (env : ℕ → StartEnv) (i : ℕ) (ss : List Session)
    → All (λ s. s.item_handle ≡ false) ss
    → All (λ s. s.item_handle ≡ false) (init_sessions env i ss)
unfolding init_sessions
init_sessions-unregistered env i [] h = tt
init_sessions-unregistered env i (s ∷ ss) h = (h.0, init_sessions-unregistered env (i + 1) ss h.1)

finish_init-some :
    (p q : Provider) (o : Option (List Session × (ℕ × ℕ)))
    → finish_init p o ≡ some (true, q)
    → o ≡ some (q.sessions, (q.min_rwf_major, q.min_rwf_minor))
unfolding finish_init
finish_init-some p q none h = cc
finish_init-some p q (some (ss, (a, b))) h = ground arith

-- If the start-up of a provider at version 0.0 with no session logged in succeeds, and RFA negotiates
-- versions above 0.0 only, the version that the provider encodes with is at most that of every
-- session that has logged in; and it is 0.0, or the version of one of them.
pub init_provider-Lowest :
    (env : ℕ → StartEnv) (version_ok : Bool) (p q : Provider)
    → RealVersions env
    → p.min_rwf_major ≡ 0
    → p.min_rwf_minor ≡ 0
    → All (λ s. s.item_handle ≡ false) p.sessions
    → init_provider env version_ok p ≡ some (true, q)
    → Lowest (0, 0) (q.min_rwf_major, q.min_rwf_minor) q.sessions
unfolding init_provider
init_provider-Lowest env false p q real a b h e = cc
init_provider-Lowest env true p q real a b h e =
    create_omm_providers-Lowest env real 0 (init_sessions env 0 p.sessions) (0, 0) q.sessions
      (q.min_rwf_major, q.min_rwf_minor) (init_sessions-unregistered env 0 p.sessions h)
      (ap (λ v. create_omm_providers env 0 (init_sessions env 0 p.sessions) v) zero_version
        ∙ finish_init-some p q _ e)
  where
    zero_version : ◌≡◌ {A = ℕ × ℕ} (0, 0) (p.min_rwf_major, p.min_rwf_minor)
    zero_version = ground arith
