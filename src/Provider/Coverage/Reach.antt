-- ===== src/Provider/Coverage/Reach.antt =====
-- The life of a provider as a step relation (src/provider.cc, src/session.cc): streams are created,
-- RFA delivers events, messages are sent.
use psych.Prelude.{
  ℕ, ◌<◌, true, false, Option, none, some, List, [], ◌∷◌, ◌++◌, ◌≡◌, ◌⊎◌, inl, inr, refl, sym, ap,
  ◌∙◌, arith, length, get_elem?, length-append, get_elem?-concat_cases, All, Bool-cases, ltb,
  ltb→lt,
}
use mathlib.Core.Path.{subst}
use psych.Prelude.Bytes.{Bytes}
use psych.Messages.{RespMsg}
use psych.Store.{Session, ItemStream, Provider}
use psych.Session.Tokens.{SubmitResult, create_item_stream}
use psych.Session.Events.{LoginEnv, Event}
use psych.Provider.Streams.{
  create_stream, create_tokens, contains_key, send_stream, send_tokens, finish_send, deliver, Sent,
  all_sent, threw, out_of_range,
}
use psych.Provider.Coverage.Reset.{issued, Listed}
use psych.Provider.Coverage.Login.{HoldsToken}
use psych.Provider.Coverage.Publish.{
  length-create_tokens, length-create_tokens_sessions, get_elem?-create_tokens, sessions_after,
  send_tokens-Treated, length-send_tokens,
}
use psych.Provider.Coverage.Steps.{SessionOk, Covered, deliver-Covered, sent_ok}

finish_send-sessions :
    (p : Provider) (r : Sent) → (finish_send p r).0.sessions ≡ sessions_after p.sessions r
finish_send-sessions p (all_sent ss) = refl
finish_send-sessions p (threw ss) = refl
finish_send-sessions p out_of_range = refl

finish_send-rest :
    (p : Provider) (r : Sent)
    → ((finish_send p r).0.streams ≡ p.streams) × ((finish_send p r).0.directory ≡ p.directory)
finish_send-rest p (all_sent ss) = (refl, refl)
finish_send-rest p (threw ss) = (refl, refl)
finish_send-rest p out_of_range = (refl, refl)

module _ (p : Provider) (c : Covered p) where
  pub send_stream-Covered :
      (answers : ℕ → SubmitResult) (q : ℕ) (st : ItemStream) (msg : RespMsg)
      → get_elem? p.streams q ≡ some st
      → st.alive ≡ true
      → Covered (send_stream answers p st msg).0
  unfolding send_stream
  send_stream-Covered answers q st msg at up =
      let r = send_tokens answers msg 0 st.token p.sessions in
      let (streams, directory) = finish_send-rest p r in
      let sessions = finish_send-sessions p r in
      let same_length = ap length sessions ∙ length-send_tokens answers msg 0 st.token p.sessions in
      record {
        sized = λ k x h. c.sized k x (sym (ap (λ l. get_elem? l k) streams) ∙ h) ∙ sym same_length;
        listed = λ k l.
            subst (Listed k) (sym directory) (c.listed k (subst (λ x. k < length x) streams l));
        each = λ i x h. sent_ok p c msg st q i x (finish_send p r).0 at up streams (
            send_tokens-Treated answers msg 0 st.token p.sessions i x
              (sym (ap (λ l. get_elem? l i) sessions) ∙ h));
      }

Listed-append :
    (d : List (Bytes × ℕ)) (k : Bytes) (q n : ℕ)
    → Listed q d ⊎ (n ≡ q)
    → Listed q (d ++ (k, n) ∷ [])
Listed-append [] k q n (inl l) = absurd l
Listed-append [] k q n (inr e) = inl e
Listed-append ((j, m) ∷ d) k q n (inl (inl e)) = inl e
Listed-append ((j, m) ∷ d) k q n (inl (inr l)) = inr (Listed-append d k q n (inl l))
Listed-append ((j, m) ∷ d) k q n (inr e) = inr (Listed-append d k q n (inr e))

-- What `CreateItemStream` leaves alone in a session.
record Alike (s x : Session) : Type 0 where
  id : x.instance_id ≡ s.instance_id
  ready : x.has_omm_provider ≡ s.has_omm_provider
  wire : x.wire ≡ s.wire
  muted : x.is_muted ≡ s.is_muted

create_item_stream-Alike : (s : Session) (t : Option ℕ) → Alike s (create_item_stream s t).0
unfolding create_item_stream
create_item_stream-Alike s t = elim (Bool-cases s.is_muted) [
  | inl m ↦ record { id = rw m; ready = rw m; wire = rw m; muted = rw m }
  | inr m ↦ record { id = rw m; ready = rw m; wire = rw m; muted = rw m }
]

create_item_stream-issued :
    (s : Session) (t : Option ℕ)
    → s.is_muted ≡ false
    → issued (some (create_item_stream s t).1) ≡ true
unfolding create_item_stream
create_item_stream-issued s t m = rw m

module _ (p : Provider) (c : Covered p) (name : Bytes) where
  abbrev new_stream : ItemStream
  new_stream = record { rfa_name = name; token = (create_tokens p.sessions).1; alive = true }

  abbrev created : Provider
  created = record p {
    sessions = (create_tokens p.sessions).0;
    streams = p.streams ++ new_stream ∷ [];
    directory = p.directory ++ (name, length p.streams) ∷ [];
  }

  created_session :
      (i : ℕ) (x : Session)
      → get_elem? (create_tokens p.sessions).0 i ≡ some x
      → SessionOk created i x
  created_session i x h =
      let (s, at, e, slot) = get_elem?-create_tokens p.sessions i x h in
      let ok = c.each i s at in
      let alike = create_item_stream-Alike s none in
      record {
        id = rw e (alike.id ∙ ok.id);
        ready = rw e (alike.ready ∙ ok.ready);
        wire = rw e (subst (All HoldsToken) (sym alike.wire) ok.wire);
        tokens = λ u q st there up.
            let unmuted = sym alike.muted ∙ sym (ap (λ (y : Session). y.is_muted) e) ∙ u in
            elim (get_elem?-concat_cases p.streams q new_stream st there) [
              | inl (_, new) ↦
                  subst (λ (y : ItemStream). issued (get_elem? y.token i) ≡ true) new
                    (rw slot (create_item_stream-issued s none unmuted))
              | inr old ↦ ok.tokens unmuted q st old up
            ];
      }

  created-Covered : Covered created
  created-Covered = record {
    sized = λ q st h. elim (get_elem?-concat_cases p.streams q new_stream st h) [
      | inl (_, new) ↦
          subst (λ (y : ItemStream). length y.token ≡ length (create_tokens p.sessions).0) new
            (length-create_tokens p.sessions ∙ sym (length-create_tokens_sessions p.sessions))
      | inr old ↦ c.sized q st old ∙ sym (length-create_tokens_sessions p.sessions)
    ];
    listed = λ q l.
        Listed-append p.directory name q (length p.streams)
          (elim (Bool-cases (ltb q (length p.streams))) [
            | inl old ↦ inl (c.listed q (ltb→lt _ _ old))
            | inr new ↦ inr (ground (arith, length-append {0} p.streams (new_stream ∷ [])))
          ]);
    each = created_session;
  }

  -- A stream of a new name.
  pub create_stream-Covered : contains_key name p.directory ≡ false → Covered (create_stream p name)
  unfolding create_stream
  create_stream-Covered fresh = rw fresh created-Covered

-- `create_stream` is only called with a name that has no stream yet, and `Send` with a live stream
-- of the provider.
pub data Step : Provider → Provider → Type 0 where
  creates :
      (p : Provider) (name : Bytes)
      → contains_key name p.directory ≡ false
      → Step p (create_stream p name)
  delivers : (p : Provider) (env : LoginEnv) (i : ℕ) (e : Event) → Step p (deliver env p i e)
  sends :
      (p : Provider) (answers : ℕ → SubmitResult) (q : ℕ) (st : ItemStream) (msg : RespMsg)
      → get_elem? p.streams q ≡ some st
      → st.alive ≡ true
      → Step p (send_stream answers p st msg).0

pub data Reach (p : Provider) : Provider → Type 0 where
  here : Reach p p
  next : {q r : Provider} → Reach p q → Step q r → Reach p r

Step-Covered : {p q : Provider} → Step p q → Covered p → Covered q
Step-Covered (creates p name fresh) c = create_stream-Covered p c name fresh
Step-Covered (delivers p env i e) c = deliver-Covered p c env i e
Step-Covered (sends p answers q st msg at up) c = send_stream-Covered p c answers q st msg at up

-- From a covered provider, whatever streams are created under new names, whatever events RFA
-- delivers to whichever session, and whatever is sent on live streams, with or without exceptions:
-- each unmuted session holds a token for every live stream, and every message that a session has
-- submitted carried a token.
pub Reach-Covered : {p q : Provider} → Covered p → Reach p q → Covered q
Reach-Covered c here = c
Reach-Covered c (next r st) = Step-Covered st (Reach-Covered c r)
