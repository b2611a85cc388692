-- ===== src/Life/Instances/Survivors.antt =====
-- Which plug-ins the global list of src/psych.cc has, and what their numbers are.
use psych.Prelude.{
  ℕ, suc, ◌+◌, ◌%◌, ◌<◌, ◌≤◌, Bool, true, false, List, [], ◌∷◌, ◌++◌, ◌≡◌, refl, ap, sym, ◌∙◌,
  arith, ◌==◌, if◌then◌else◌, Bool-cases, inl, inr, u32_mod,
}
use mathlib.Core.List.{append_assoc, append-nil}
use psych.Life.Instances.{
  Instance, Instances, no_instances, Event, constructed, destructed, construct, destruct, remove,
  play_all,
}

-- whether a plug-in at the address is destructed by one of the events
abbrev pub dies : ℕ → List Event → Bool
dies this [] = false
dies this (constructed other ∷ es) = dies this es
dies this (destructed other ∷ es) = if this == other then true else dies this es

-- The plug-ins that are constructed by the events and not destructed behind that, numbered in the order
-- in which all of them are constructed.
abbrev pub survivors : ℕ → List Event → List Instance
survivors n [] = []
survivors n (constructed this ∷ es) =
    if dies this es
    then survivors (n + 1) es
    else record { address = this; number = n } ∷ survivors (n + 1) es
survivors n (destructed this ∷ es) = survivors n es

abbrev pub constructions : List Event → ℕ
constructions [] = 0
constructions (constructed this ∷ es) = suc (constructions es)
constructions (destructed this ∷ es) = constructions es

-- the numbers go up along the list, from the bound on
abbrev pub Increasing : ℕ → List Instance → Type 0
Increasing n [] = Unit
Increasing n (p ∷ rest) = (n ≤ p.number) × Increasing (suc p.number) rest

-- what the events leave of a list
abbrev spared : List Event → List Instance → List Instance
spared es [] = []
spared es (p ∷ rest) = if dies p.address es then spared es rest else p ∷ spared es rest

spared-append :
    (es : List Event) (l m : List Instance) → spared es (l ++ m) ≡ spared es l ++ spared es m
spared-append es [] m = refl
spared-append es (p ∷ l) m = elim (Bool-cases (dies p.address es)) [
  | inl gone ↦ rw gone (spared-append es l m)
  | inr stays ↦ rw stays (ap (λ r. p ∷ r) (spared-append es l m))
]

spared-remove :
    (this : ℕ) (es : List Event) (l : List Instance)
    → spared es (remove this l) ≡ spared (destructed this ∷ es) l
unfolding remove
spared-remove this es [] = refl
spared-remove this es (p ∷ l) = elim (Bool-cases (p.address == this)) [
  | inl same ↦ rw same (spared-remove this es l)
  | inr other ↦ elim (Bool-cases (dies p.address es)) [
    | inl gone ↦ rw (other, gone) (spared-remove this es l)
    | inr stays ↦ rw (other, stays) (ap (λ r. p ∷ r) (spared-remove this es l))
  ]
]

spared_none : (l : List Instance) → spared [] l ≡ l
spared_none [] = refl
spared_none (p ∷ l) = ap (λ r. p ∷ r) (spared_none l)

last_lem :
    (this n : ℕ) (es : List Event)
    → spared es (record { address = this; number = n } ∷ []) ++ survivors (n + 1) es
      ≡ survivors n (constructed this ∷ es)
last_lem this n es = elim (Bool-cases (dies this es)) [
  | inl gone ↦ rw gone refl
  | inr stays ↦ rw stays refl
]

spared-constructed :
    (this : ℕ) (es : List Event) (l : List Instance)
    → spared (constructed this ∷ es) l ≡ spared es l
spared-constructed this es [] = refl
spared-constructed this es (p ∷ l) = elim (Bool-cases (dies p.address es)) [
  | inl gone ↦ rw gone (spared-constructed this es l)
  | inr stays ↦ rw stays (ap (λ r. p ∷ r) (spared-constructed this es l))
]

same_instances :
    (c d : ℕ) (l m : List Instance)
    → c ≡ d
    → l ≡ m
    → ◌≡◌ {A = Instances}
        (record { count = c; global_list = l })
        (record { count = d; global_list = m })
same_instances c d l m p q = rw (p, q) refl

play_all-spared :
    (es : List Event) (n : ℕ) (l : List Instance)
    → n + constructions es < u32_mod
    → play_all es (record { count = n; global_list = l })
      ≡ record { count = n + constructions es; global_list = spared es l ++ survivors n es }
unfolding play_all construct destruct
play_all-spared [] n l h =
    same_instances n (n + 0) l (spared [] l ++ []) (omega arith)
      (sym (append-nil (spared [] l) ∙ spared_none l))
play_all-spared (constructed this ∷ es) n l h =
    let added : Instance = record { address = this; number = n } in
    let small : (n + 1) % u32_mod ≡ n + 1 = omega arith in
    rw small (
      play_all-spared es (n + 1) (l ++ added ∷ []) (omega arith)
      ∙ same_instances (n + 1 + constructions es) (n + suc (constructions es)) _ _ (omega arith) (
          ap (λ r. r ++ survivors (n + 1) es) (spared-append es l (added ∷ []))
          ∙ append_assoc (spared es l) (spared es (added ∷ [])) (survivors (n + 1) es)
          ∙ ap (λ r. spared es l ++ r) (last_lem this n es)
          ∙ ap (λ r. r ++ survivors n (constructed this ∷ es))
              (sym (spared-constructed this es l))))
play_all-spared (destructed this ∷ es) n l h =
    play_all-spared es n (remove this l) h ∙ rw (spared-remove this es l) refl

survivors-Increasing : (n m : ℕ) (es : List Event) → m ≤ n → Increasing m (survivors n es)
survivors-Increasing n m [] h = tt
survivors-Increasing n m (constructed this ∷ es) h = elim (Bool-cases (dies this es)) [
  | inl gone ↦ rw gone (survivors-Increasing (n + 1) m es (omega arith))
  | inr stays ↦ rw stays (h, survivors-Increasing (n + 1) (suc n) es (omega arith))
]
survivors-Increasing n m (destructed this ∷ es) h = survivors-Increasing n m es h

-- If there are fewer than 2^32 plug-ins in the life of the process, then whatever the order is in which
-- they are constructed and destructed, and wherever the memory of one is used for another, the global
-- list has just those that are not destructed, in the order in which they were constructed; the number
-- of each is how many were constructed before it, so that the numbers go up along the list and none is
-- used again.
pub play_all-survivors :
    (es : List Event)
    → constructions es < u32_mod
    → (play_all es no_instances ≡ record { count = constructions es; global_list = survivors 0 es })
      × Increasing 0 (survivors 0 es)
play_all-survivors es h = (
  play_all-spared es 0 [] (omega arith)
      ∙ same_instances (0 + constructions es) _ _ _ (omega arith) refl,
  survivors-Increasing 0 0 es (omega arith),
)
