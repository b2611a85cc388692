-- ===== src/Provider/Coverage/Steps.antt =====
-- The life of a provider as steps: streams are created, RFA delivers events, messages are sent.
use psych.Prelude.{
  ℕ, ◌<◌, true, false, none, some, ◌≡◌, inl, inr, sym, ap, ◌∙◌, length, get_elem?, set, length-set,
  get_elem?-set_cases, lt-of_get_elem?, All, All-append, Option-cases,
}
use mathlib.Core.Path.{subst}
use psych.Messages.{RespMsg}
use psych.Store.{Session, ItemStream, Provider}
use psych.Session.Events.{LoginEnv, Event, process_event}
use psych.Provider.Streams.{deliver}
use psych.Provider.Coverage.Reset.{HasToken, Sized, Listed}
use psych.Provider.Coverage.Login.{Handled, HoldsToken, process_event-Handled}
use psych.Provider.Coverage.Publish.{unsent, submitted, Treated}

-- What holds of session number `i` of a provider.
pub record SessionOk (p : Provider) (i : ℕ) (s : Session) : Type 0 where
  pub id : s.instance_id ≡ i
  pub ready : s.has_omm_provider ≡ true
  pub wire : All HoldsToken s.wire
  pub tokens : s.is_muted ≡ false → (q : ℕ) → HasToken p.streams q i

-- The streams have a slot for each session and are all in the directory; every session knows its
-- place; an unmuted session has a token for every live stream; all that was submitted had a token.
pub record Covered (p : Provider) : Type 0 where
  pub sized : Sized (length p.sessions) p.streams
  pub listed : (q : ℕ) → q < length p.streams → Listed q p.directory
  pub each : (i : ℕ) (s : Session) → get_elem? p.sessions i ≡ some s → SessionOk p i s

-- A delivered event.
deliver-session :
    (env : LoginEnv) (p : Provider) (i : ℕ) (e : Event) (s : Session)
    → get_elem? p.sessions i ≡ some s
    → deliver env p i e ≡ record p {
      sessions = set p.sessions i (process_event env p e s).0;
      streams = (process_event env p e s).1;
    }
unfolding deliver
deliver-session env p i e s h = rw h

deliver-nobody :
    (env : LoginEnv) (p : Provider) (i : ℕ) (e : Event)
    → get_elem? p.sessions i ≡ none
    → deliver env p i e ≡ p
unfolding deliver
deliver-nobody env p i e h = rw h

module _ (p : Provider) (c : Covered p) where
  abbrev delivered : LoginEnv → ℕ → Event → Session → Provider
  delivered env i e s = record p {
    sessions = set p.sessions i (process_event env p e s).0;
    streams = (process_event env p e s).1;
  }

  handled :
      (env : LoginEnv) (i : ℕ) (e : Event) (s : Session)
      → get_elem? p.sessions i ≡ some s
      → Handled (length p.sessions) p s (process_event env p e s)
  handled env i e s h =
      let ok = c.each i s h in
      process_event-Handled (length p.sessions) p s c.sized
        (rw ok.id (lt-of_get_elem? p.sessions i s h)) ok.ready env e

  -- the session that received the event
  receiver :
      (env : LoginEnv) (i : ℕ) (e : Event) (s : Session)
      → get_elem? p.sessions i ≡ some s
      → SessionOk (delivered env i e s) i (process_event env p e s).0
  receiver env i e s h =
      let ok = c.each i s h in
      let hd = handled env i e s h in
      record {
        id = hd.same_id ∙ ok.id;
        ready = hd.same_provider ∙ ok.ready;
        wire = hd.wire ok.wire;
        tokens = λ u q st at. elim (hd.unmuted u) [
          | inl old ↦ hd.kept q i (ok.tokens old q) st at
          | inr new ↦
              subst (HasToken (process_event env p e s).1 q) ok.id
                (new q (
                  c.listed q
                    (rw (← hd.same_length) (lt-of_get_elem? (process_event env p e s).1 q st at))))
                st at
        ];
      }

  -- the other sessions
  bystander :
      (env : LoginEnv) (i : ℕ) (e : Event) (s : Session)
      → get_elem? p.sessions i ≡ some s
      → (j : ℕ) (x : Session) → get_elem? p.sessions j ≡ some x
      → SessionOk (delivered env i e s) j x
  bystander env i e s h j x at =
      let ok = c.each j x at in
      let hd = handled env i e s h in
      record {
        id = ok.id;
        ready = ok.ready;
        wire = ok.wire;
        tokens = λ u q. hd.kept q j (ok.tokens u q);
      }

  deliver_some :
      (env : LoginEnv) (i : ℕ) (e : Event) (s : Session)
      → get_elem? p.sessions i ≡ some s
      → Covered (delivered env i e s)
  deliver_some env i e s h =
      let r = process_event env p e s in
      let after = delivered env i e s in
      let hd = handled env i e s h in
      record {
        sized = rw (length-set p.sessions i r.0) hd.sized;
        listed = λ q l. c.listed q (rw (← hd.same_length) l);
        each = λ j x e'.
            elim (get_elem?-set_cases p.sessions i j r.0 x (lt-of_get_elem? p.sessions i s h) e') [
              | inl (same, new) ↦
                  subst (λ k. SessionOk after k x) same
                    (subst (SessionOk after i) new (receiver env i e s h))
              | inr old ↦ bystander env i e s h j x old
            ];
      }

  -- RFA may deliver any event to any session.
  pub deliver-Covered : (env : LoginEnv) (i : ℕ) (e : Event) → Covered (deliver env p i e)
  deliver-Covered env i e = elim (Option-cases (get_elem? p.sessions i)) [
    | inl h ↦ subst Covered (sym (deliver-nobody env p i e h)) c
    | inr (s, h) ↦ subst Covered (sym (deliver-session env p i e s h)) (deliver_some env i e s h)
  ]

  pub sent_ok :
      (msg : RespMsg) (st : ItemStream) (q i : ℕ) (x : Session) (r : Provider)
      → get_elem? p.streams q ≡ some st
      → st.alive ≡ true
      → r.streams ≡ p.streams
      → Treated msg p.sessions st.token i x
      → SessionOk r i x
  sent_ok msg st q i x r at up same (s, h, unsent e) =
      let ok = c.each i s h in
      record {
        id = rw e ok.id;
        ready = rw e ok.ready;
        wire = rw e ok.wire;
        tokens = λ u k. rw same (ok.tokens (sym (ap (λ (y : Session). y.is_muted) e) ∙ u) k);
      }
  sent_ok msg st q i x r at up same (s, h, submitted t u have e) =
      let ok = c.each i s h in
      record {
        id = rw e ok.id;
        ready = rw e ok.ready;
        wire =
            rw e (All-append HoldsToken s.wire _ ok.wire (rw have at (ok.tokens u q st at up), tt));
        tokens = λ _ k. rw same (ok.tokens u k);
      }
