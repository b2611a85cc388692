-- ===== src/Provider/Coverage/Reset.antt =====
-- What `ResetTokens` of one session does to the tokens of the streams.
use psych.Prelude.{
  ℕ, ◌<◌, Bool, true, false, Option, none, some, List, [], ◌∷◌, ◌≡◌, ◌⊎◌, inl, inr, refl, arith,
  ◌==◌, ==_iff, if◌then◌else◌, length, get_elem?, set, length-set, get_elem?-set, lt-of_get_elem?,
}
use mathlib.Core.Path.{subst}
use psych.Prelude.Bytes.{Bytes}
use psych.Store.{Session, ItemStream}
use psych.Session.Tokens.{lock, reset_token, reset_entries}

-- a slot that holds a token
abbrev pub issued : Option (Option ℕ) → Bool
issued none = false
issued (some none) = false
issued (some (some t)) = true

-- Stream `q`, if it is alive, has a token for session `i`.
abbrev pub HasToken : List ItemStream → ℕ → ℕ → Type 0
HasToken streams q i =
    (st : ItemStream)
    → get_elem? streams q ≡ some st
    → st.alive ≡ true
    → issued (get_elem? st.token i) ≡ true

-- Every stream has a slot for each of `n` sessions.
abbrev pub Sized : ℕ → List ItemStream → Type 0
Sized n streams = (q : ℕ) (st : ItemStream) → get_elem? streams q ≡ some st → length st.token ≡ n

-- The directory lists stream `q`.
abbrev pub Listed : ℕ → List (Bytes × ℕ) → Type 0
Listed q [] = ⊥
Listed q ((k, p) ∷ d) = (p ≡ q) ⊎ Listed q d

lock-some :
    (o : Option ItemStream) (st : ItemStream) → lock o ≡ some st → (o ≡ some st) × (st.alive ≡ true)
lock-some none st h = cc
lock-some (some st') st h = ground arith

pub reset_token-instance_id :
    (p : ℕ) (o : Option ItemStream) (w : List ItemStream × Session)
    → (reset_token p o w).1.instance_id ≡ w.1.instance_id
unfolding reset_token
reset_token-instance_id p none w = refl
reset_token-instance_id p (some st) w = refl

module _ (n p : ℕ) (streams : List ItemStream) (s : Session) (fits : s.instance_id < n) where
  token-reset :
      (st : ItemStream) (j : ℕ)
      → length st.token ≡ n
      → get_elem? (set st.token s.instance_id (some s.generated)) j
        ≡ (if s.instance_id == j then some (some s.generated) else get_elem? st.token j)
  token-reset st j h = get_elem?-set st.token s.instance_id j (some s.generated) (omega arith)

  -- the streams after one reset, for a stream that is alive
  streams-reset :
      (st : ItemStream) (q : ℕ)
      → lock (get_elem? streams p) ≡ some st
      → get_elem? (reset_token p (some st) (streams, s)).0 q ≡ (
          if p == q
          then some (record st { token = set st.token s.instance_id (some s.generated) })
          else get_elem? streams q)
  unfolding reset_token
  streams-reset st q e =
      let (at, a) = lock-some (get_elem? streams p) st e in
      get_elem?-set streams p q _ (lt-of_get_elem? streams p st at)

  reset_token-Sized :
      (o : Option ItemStream)
      → lock (get_elem? streams p) ≡ o
      → Sized n streams
      → Sized n (reset_token p o (streams, s)).0
  reset_token-Sized none e sized q st' h = unfold reset_token in sized q st' h
  reset_token-Sized (some st) e sized q st' h =
      let (at, a) = lock-some (get_elem? streams p) st e in
      ground (
        arith,
        streams-reset st q e,
        sized q st',
        sized p st at,
        length-set {0} st.token s.instance_id (some s.generated),
      )

  reset_token-HasToken :
      (o : Option ItemStream) (q j : ℕ)
      → lock (get_elem? streams p) ≡ o
      → Sized n streams
      → HasToken streams q j
      → HasToken (reset_token p o (streams, s)).0 q j
  reset_token-HasToken none q j e sized had st' h a = had st' (unfold reset_token in h) a
  reset_token-HasToken (some st) q j e sized had st' h a =
      let (at, up) = lock-some (get_elem? streams p) st e in
      ground
        (arith, streams-reset st q e, had st', had st, ==_iff p q, sized p st at, token-reset st j)

  reset_token-HasToken_self :
      (o : Option ItemStream)
      → lock (get_elem? streams p) ≡ o
      → Sized n streams
      → HasToken (reset_token p o (streams, s)).0 p s.instance_id
  reset_token-HasToken_self none e sized st' h a = unfold reset_token in ground arith
  reset_token-HasToken_self (some st) e sized st' h a =
      let (at, up) = lock-some (get_elem? streams p) st e in
      ground (arith, streams-reset st p e, sized p st at, token-reset st s.instance_id)

-- the loop of `ResetTokens` leaves the slots in place, ...
pub reset_entries-Sized :
    (n : ℕ) (d : List (Bytes × ℕ)) (w : List ItemStream × Session)
    → w.1.instance_id < n
    → Sized n w.0
    → Sized n (reset_entries d w).0
unfolding reset_entries
reset_entries-Sized n [] w fits sized = sized
reset_entries-Sized n ((k, p) ∷ d) w fits sized =
    let o = lock (get_elem? w.0 p) in
    reset_entries-Sized n d (reset_token p o w) (rw (reset_token-instance_id p o w) fits)
      (reset_token-Sized n p w.0 w.1 fits o refl sized)

-- ... takes no token away, ...
pub reset_entries-HasToken :
    (n : ℕ) (d : List (Bytes × ℕ)) (w : List ItemStream × Session) (q j : ℕ)
    → w.1.instance_id < n
    → Sized n w.0
    → HasToken w.0 q j
    → HasToken (reset_entries d w).0 q j
unfolding reset_entries
reset_entries-HasToken n [] w q j fits sized had = had
reset_entries-HasToken n ((k, p) ∷ d) w q j fits sized had =
    let o = lock (get_elem? w.0 p) in
    reset_entries-HasToken n d (reset_token p o w) q j (rw (reset_token-instance_id p o w) fits)
      (reset_token-Sized n p w.0 w.1 fits o refl sized)
      (reset_token-HasToken n p w.0 w.1 fits o q j refl sized had)

-- ... and gives every live stream of the directory one for this session.
pub reset_entries-HasToken_self :
    (n : ℕ) (d : List (Bytes × ℕ)) (w : List ItemStream × Session) (q : ℕ)
    → w.1.instance_id < n
    → Sized n w.0
    → Listed q d
    → HasToken (reset_entries d w).0 q w.1.instance_id
unfolding reset_entries
reset_entries-HasToken_self n [] w q fits sized l = absurd l
reset_entries-HasToken_self n ((k, p) ∷ d) w q fits sized (inl e) =
    let o = lock (get_elem? w.0 p) in
    reset_entries-HasToken n d (reset_token p o w) q w.1.instance_id
      (rw (reset_token-instance_id p o w) fits) (reset_token-Sized n p w.0 w.1 fits o refl sized)
      (rw (← e) (reset_token-HasToken_self n p w.0 w.1 fits o refl sized))
reset_entries-HasToken_self n ((k, p) ∷ d) w q fits sized (inr l) =
    let o = lock (get_elem? w.0 p) in
    subst (λ i. HasToken (reset_entries d (reset_token p o w)).0 q i)
      (reset_token-instance_id p o w)
      (reset_entries-HasToken_self n d (reset_token p o w) q
        (rw (reset_token-instance_id p o w) fits) (reset_token-Sized n p w.0 w.1 fits o refl sized)
        l)
