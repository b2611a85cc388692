-- ===== src/Provider/Coverage/Publish.antt =====
-- What `CreateItemStream` and `Send` of src/provider.cc do to each session.
use psych.Prelude.{
  ℕ, suc, zero, ◌+◌, false, Option, none, some, List, [], ◌∷◌, ◌++◌, ◌≡◌, refl, ap, arith, ◌≢◌,
  length, get_elem?, bump, if◌then◌else◌, Bool-cases, inl, inr,
}
use psych.Messages.{RespMsg}
use psych.Store.{Session}
use psych.Session.Counters.{rfa_msgs_sent}
use psych.Session.Tokens.{SubmitResult, create_item_stream, send}
use psych.Provider.Streams.{
  create_tokens, Sent, all_sent, threw, out_of_range, send_tokens, send_first,
}

pub length-create_tokens_sessions : (ss : List Session) → length (create_tokens ss).0 ≡ length ss
unfolding create_tokens
length-create_tokens_sessions [] = refl
length-create_tokens_sessions (s ∷ ss) = ap suc (length-create_tokens_sessions ss)

pub length-create_tokens : (ss : List Session) → length (create_tokens ss).1 ≡ length ss
unfolding create_tokens
length-create_tokens [] = refl
length-create_tokens (s ∷ ss) = ap suc (length-create_tokens ss)

-- Each session is treated by itself, and fills its own slot.
pub get_elem?-create_tokens :
    (ss : List Session) (i : ℕ) (s' : Session)
    → get_elem? (create_tokens ss).0 i ≡ some s'
    → (s : Session) × (get_elem? ss i ≡ some s)
      × (s' ≡ (create_item_stream s none).0)
      × (get_elem? (create_tokens ss).1 i ≡ some (create_item_stream s none).1)
unfolding create_tokens
get_elem?-create_tokens [] i s' h = cc
get_elem?-create_tokens (s ∷ ss) zero s' h = (s, refl, cc, refl)
get_elem?-create_tokens (s ∷ ss) (suc i) s' h = get_elem?-create_tokens ss i s' h

-- What one round of `Send` did to a session: nothing, or a submission under the session's token.
pub data Sends (msg : RespMsg) (s : Session) (t : Option (Option ℕ)) (s' : Session) : Type 0 where
  unsent : s' ≡ s → Sends msg s t s'
  submitted :
      (x : Option ℕ)
      → s.is_muted ≡ false
      → t ≡ some x
      → s' ≡ record s {
        stats = bump rfa_msgs_sent s.stats;
        wire = s.wire ++ (record { msg = msg; token = x } ∷ []);
      }
      → Sends msg s t s'

-- the sessions that `Send` leaves
abbrev pub sessions_after : List Session → Sent → List Session
sessions_after ss (all_sent ss') = ss'
sessions_after ss (threw ss') = ss'
sessions_after ss out_of_range = ss

-- Session `x` stands where `ss` had one that a round of `Send` turned into it.
abbrev pub Treated : RespMsg → List Session → List (Option ℕ) → ℕ → Session → Type 0
Treated msg ss tokens i x =
    (s : Session) × (get_elem? ss i ≡ some s) × Sends msg s (get_elem? tokens i) x

send-Sends :
    (r : SubmitResult) (msg : RespMsg) (s s' : Session) (t : Option ℕ) (n : ℕ)
    → send r s msg t ≡ some (s', n)
    → Sends msg s (some t) s'
unfolding send
send-Sends none msg s s' t n h = elim (Bool-cases s.is_muted) [
  | inl m ↦ unsent (ground arith)
  | inr m ↦ absurd (ground arith)
]
send-Sends (some k) msg s s' t n h = elim (Bool-cases s.is_muted) [
  | inl m ↦ unsent (ground arith)
  | inr m ↦ submitted t m refl (ground arith)
]

module _ (msg : RespMsg) (s : Session) (t : Option ℕ) (rest : List Session)
    (tokens : List (Option ℕ)) where
  untouched :
      (i : ℕ) (x : Session)
      → get_elem? (s ∷ rest) i ≡ some x
      → Treated msg (s ∷ rest) (t ∷ tokens) i x
  untouched i x h = (x, h, unsent refl)

  send_first-Treated :
      (r : Option (Session × ℕ)) (later : Sent) (i : ℕ) (x : Session)
      → ((s' : Session) (n : ℕ) → r ≡ some (s', n) → Sends msg s (some t) s')
      → ((j : ℕ) (y : Session)
          → get_elem? (sessions_after rest later) j ≡ some y
          → Treated msg rest tokens j y)
      → get_elem? (sessions_after (s ∷ rest) (send_first s rest r later)) i ≡ some x
      → Treated msg (s ∷ rest) (t ∷ tokens) i x
  send_first-Treated none later i x sent ih h = untouched i x h
  send_first-Treated (some (s', n)) (all_sent ss) zero x sent ih h = (s, refl, sent x n (cc))
  send_first-Treated (some (s', n)) (all_sent ss) (suc i) x sent ih h = ih i x h
  send_first-Treated (some (s', n)) (threw ss) zero x sent ih h = (s, refl, sent x n (cc))
  send_first-Treated (some (s', n)) (threw ss) (suc i) x sent ih h = ih i x h
  send_first-Treated (some (s', n)) out_of_range i x sent ih h = untouched i x h

-- After `Send`, every session is as it was, or has submitted the message once, under its own token.
pub send_tokens-Treated :
    (answers : ℕ → SubmitResult) (msg : RespMsg) (k : ℕ) (tokens : List (Option ℕ))
    (ss : List Session) (i : ℕ) (x : Session)
    → get_elem? (sessions_after ss (send_tokens answers msg k tokens ss)) i ≡ some x
    → Treated msg ss tokens i x
unfolding send_tokens
send_tokens-Treated answers msg k tokens [] i x h = cc
send_tokens-Treated answers msg k [] (s ∷ ss) i x h = (x, h, unsent refl)
send_tokens-Treated answers msg k (t ∷ tokens) (s ∷ ss) i x h =
    send_first-Treated msg s t ss tokens (send (answers k) s msg t)
      (send_tokens answers msg (k + 1) tokens ss) i x
      (λ s' n e. send-Sends (answers k) msg s s' t n e)
      (λ j y e. send_tokens-Treated answers msg (k + 1) tokens ss j y e) h

length-send_first :
    (s : Session) (rest : List Session) (r : Option (Session × ℕ)) (later : Sent)
    → length (sessions_after rest later) ≡ length rest
    → length (sessions_after (s ∷ rest) (send_first s rest r later)) ≡ suc (length rest)
length-send_first s rest none later h = refl
length-send_first s rest (some (s', n)) (all_sent ss) h = ap suc h
length-send_first s rest (some (s', n)) (threw ss) h = ap suc h
length-send_first s rest (some (s', n)) out_of_range h = refl

pub length-send_tokens :
    (answers : ℕ → SubmitResult) (msg : RespMsg) (k : ℕ) (tokens : List (Option ℕ))
    (ss : List Session)
    → length (sessions_after ss (send_tokens answers msg k tokens ss)) ≡ length ss
unfolding send_tokens
length-send_tokens answers msg k tokens [] = refl
length-send_tokens answers msg k [] (s ∷ ss) = refl
length-send_tokens answers msg k (t ∷ tokens) (s ∷ ss) =
    length-send_first s ss (send (answers k) s msg t) (send_tokens answers msg (k + 1) tokens ss)
      (length-send_tokens answers msg (k + 1) tokens ss)

-- What becomes of a session when `Send` meets no exception.
abbrev pub published : RespMsg → Option ℕ → Session → Session
published msg t s = if s.is_muted then s else record s {
  stats = bump rfa_msgs_sent s.stats;
  wire = s.wire ++ (record { msg = msg; token = t } ∷ []);
}

abbrev pub all_published : RespMsg → List (Option ℕ) → List Session → List Session
all_published msg [] ss = []
all_published msg (t ∷ tokens) [] = []
all_published msg (t ∷ tokens) (s ∷ ss) = published msg t s ∷ all_published msg tokens ss

-- With no exception and a slot for each session, every unmuted session gets the message once.
pub send_tokens-published :
    (answers : ℕ → SubmitResult) (msg : RespMsg) (k : ℕ) (tokens : List (Option ℕ))
    (ss : List Session)
    → ((i : ℕ) → answers i ≢ none)
    → length tokens ≡ length ss
    → send_tokens answers msg k tokens ss ≡ all_sent (all_published msg tokens ss)
unfolding send_tokens send
send_tokens-published answers msg k [] [] fine h = refl
send_tokens-published answers msg k (t ∷ tokens) [] fine h = absurd (omega arith)
send_tokens-published answers msg k [] (s ∷ ss) fine h = absurd (omega arith)
send_tokens-published answers msg k (t ∷ tokens) (s ∷ ss) fine h =
    ground (arith, fine k, send_tokens-published answers msg (k + 1) tokens ss fine)
