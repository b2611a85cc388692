-- ===== src/Provider/Coverage/Login.antt =====
-- What one event does to the tokens of the streams, and to the session that receives it.
use psych.Prelude.{
  ℕ, ◌<◌, Bool, true, false, Option, none, some, List, [], ◌∷◌, ◌≡◌, ◌⊎◌, inl, inr, refl, sym, ◌∙◌,
  arith, length, get_elem?, bump, All, All-append, length-set,
}
use mathlib.Core.Path.{subst}
use psych.Prelude.Bytes.{Bytes}
use psych.Store.{
  Submission, Session, ItemStream, Provider, StreamState, stream_open, stream_closed, stream_other,
  DataState, data_ok, data_suspect, data_other,
}
use psych.Session.Counters.{
  rfa_events_received, omm_item_events_received, response_msgs_received, login_response_received,
}
use psych.Session.Tokens.{SubmitResult, reset_entries, reset_token, reset_tokens, lock}
use psych.Session.Unsent.{reset_entries-wire}
use psych.Session.Events.{
  Validation, valid, warned, raised, LoginEnv, Event, item_event, cmd_error, other_event,
  process_event, on_login_success,
}
use psych.Provider.Coverage.Reset.{
  issued, HasToken, Sized, Listed, reset_token-instance_id, reset_entries-Sized,
  reset_entries-HasToken, reset_entries-HasToken_self,
}

reset_entries-instance_id :
    (d : List (Bytes × ℕ)) (w : List ItemStream × Session)
    → (reset_entries d w).1.instance_id ≡ w.1.instance_id
unfolding reset_entries
reset_entries-instance_id [] w = refl
reset_entries-instance_id ((k, p) ∷ d) w =
    reset_entries-instance_id d _ ∙ reset_token-instance_id p (lock (get_elem? w.0 p)) w

-- A submission that carries a token.
abbrev pub HoldsToken : Submission → Type 0
HoldsToken x = issued (some x.token) ≡ true

-- The outcome of an event for session `s` of provider `p`, as the invariant needs it.
pub record Handled (n : ℕ) (p : Provider) (s : Session) (r : Session × List ItemStream)
    : Type 0 where
  pub same_id : r.0.instance_id ≡ s.instance_id
  pub same_provider : r.0.has_omm_provider ≡ s.has_omm_provider
  pub same_length : length r.1 ≡ length p.streams
  pub sized : Sized n r.1
  pub kept : (q j : ℕ) → HasToken p.streams q j → HasToken r.1 q j
  pub wire : All HoldsToken s.wire → All HoldsToken r.0.wire
  pub unmuted :
      r.0.is_muted ≡ false
      → (s.is_muted ≡ false) ⊎ ((q : ℕ) → Listed q p.directory → HasToken r.1 q s.instance_id)

reset_entries-has_omm_provider :
    (d : List (Bytes × ℕ)) (w : List ItemStream × Session)
    → (reset_entries d w).1.has_omm_provider ≡ w.1.has_omm_provider
unfolding reset_entries
reset_entries-has_omm_provider [] w = refl
reset_entries-has_omm_provider ((k, p) ∷ d) w =
    reset_entries-has_omm_provider d _ ∙ same (lock (get_elem? w.0 p))
  where
    same : (o : Option ItemStream) → (reset_token p o w).1.has_omm_provider ≡ w.1.has_omm_provider
    same none = unfold reset_token in refl
    same (some st) = unfold reset_token in refl

length-reset_entries :
    (d : List (Bytes × ℕ)) (w : List ItemStream × Session)
    → length (reset_entries d w).0 ≡ length w.0
unfolding reset_entries
length-reset_entries [] w = refl
length-reset_entries ((k, p) ∷ d) w = length-reset_entries d _ ∙ same (lock (get_elem? w.0 p))
  where
    same : (o : Option ItemStream) → length (reset_token p o w).0 ≡ length w.0
    same none = unfold reset_token in refl
    same (some st) = unfold reset_token in length-set w.0 p _

reset_tokens-entries :
    (p : Provider) (s : Session)
    → s.has_omm_provider ≡ true
    → reset_tokens p s ≡ reset_entries p.directory (p.streams, s)
unfolding reset_tokens
reset_tokens-entries p s h = ground arith

-- the session as a login response finds it
abbrev at_login : StreamState → DataState → Session → Session
at_login stream d s = record s {
  stream_state = stream;
  data_state = d;
  stats = bump login_response_received (
      bump response_msgs_received
        (bump omm_item_events_received (bump rfa_events_received s.stats)));
}

module _ (n : ℕ) (p : Provider) (s : Session) (sized : Sized n p.streams) where
  -- Where the streams stay and the session does not come out of its muting.
  streams_stay :
      (s' : Session)
      → s'.instance_id ≡ s.instance_id
      → s'.has_omm_provider ≡ s.has_omm_provider
      → s'.wire ≡ s.wire
      → (s'.is_muted ≡ false → s.is_muted ≡ false)
      → Handled n p s (s', p.streams)
  streams_stay s' i o x m = record {
    same_id = i;
    same_provider = o;
    same_length = refl;
    sized = sized;
    kept = λ q j h. h;
    wire = λ h. rw x h;
    unmuted = λ u. inl (m u);
  }

  module _ (fits : s.instance_id < n) (ready : s.has_omm_provider ≡ true) where
    All-reset :
        (s' : Session)
        → s'.instance_id ≡ s.instance_id
        → s'.has_omm_provider ≡ s.has_omm_provider
        → (All HoldsToken s.wire → All HoldsToken s'.wire)
        → Handled n p s (record (reset_tokens p s').1 { is_muted = false }, (reset_tokens p s').0)
    All-reset s' i o x =
        let fits' : s'.instance_id < n = omega (arith, i) in
        let w : List ItemStream × Session = (p.streams, s') in
        rw (reset_tokens-entries p s' (o ∙ ready)) (record {
          same_id = reset_entries-instance_id p.directory w ∙ i;
          same_provider = reset_entries-has_omm_provider p.directory w ∙ o;
          same_length = length-reset_entries p.directory w;
          sized = reset_entries-Sized n p.directory w fits' sized;
          kept = λ q j h. reset_entries-HasToken n p.directory w q j fits' sized h;
          wire = λ h. rw (reset_entries-wire p.directory w) (x h);
          unmuted = λ u. inr (λ q l.
              subst (λ j. HasToken (reset_entries p.directory w).0 q j) i
                (reset_entries-HasToken_self n p.directory w q fits' sized l));
        })

    success-Handled :
        (v : Validation) (r : SubmitResult) (s' : Session)
        → s'.instance_id ≡ s.instance_id
        → s'.has_omm_provider ≡ s.has_omm_provider
        → s'.is_muted ≡ s.is_muted
        → s'.wire ≡ s.wire
        → Handled n p s (on_login_success (record { validation = v; submission = r }) p s')
    unfolding on_login_success
    success-Handled valid none s' i o m x = streams_stay _ i o x (λ u. sym m ∙ u)
    success-Handled valid (some k) s' i o m x =
        All-reset _ i o (λ h. All-append HoldsToken s'.wire _ (rw x h) (refl, tt))
    success-Handled warned none s' i o m x = streams_stay _ i o x (λ u. sym m ∙ u)
    success-Handled warned (some k) s' i o m x =
        All-reset _ i o (λ h. All-append HoldsToken s'.wire _ (rw x h) (refl, tt))
    success-Handled raised r s' i o m x = All-reset _ i o (λ h. rw x h)

    login-Handled :
        (env : LoginEnv) (stream : StreamState) (d : DataState)
        → Handled n p s (
            process_event env p
              (item_event
                (some (record { is_login = true; stream_state = stream; data_state = d })))
              s)
    unfolding process_event
    login-Handled env stream_open data_ok =
        success-Handled env.validation env.submission (at_login stream_open data_ok s) refl refl
          refl refl
    login-Handled env stream_open data_suspect = streams_stay _ refl refl refl (λ u. cc)
    login-Handled env stream_open (data_other k) = streams_stay _ refl refl refl (λ u. u)
    login-Handled env stream_closed d = streams_stay _ refl refl refl (λ u. cc)
    login-Handled env (stream_other k) d = streams_stay _ refl refl refl (λ u. u)

    response-Handled :
        (env : LoginEnv) (is_login : Bool) (stream : StreamState) (d : DataState)
        → Handled n p s (
            process_event env p
              (item_event
                (some (record { is_login = is_login; stream_state = stream; data_state = d })))
              s)
    unfolding process_event
    response-Handled env true stream d = login-Handled env stream d
    response-Handled env false stream d = streams_stay _ refl refl refl (λ u. u)

    -- Every event leaves the tokens in place, and one that unmutes the session has given a token for
    -- it to every live stream of the directory.
    pub process_event-Handled :
        (env : LoginEnv) (e : Event) → Handled n p s (process_event env p e s)
    unfolding process_event
    process_event-Handled env (item_event none) = streams_stay _ refl refl refl (λ u. u)
    process_event-Handled env (item_event (some m)) =
        response-Handled env m.is_login m.stream_state m.data_state
    process_event-Handled env cmd_error = streams_stay _ refl refl refl (λ u. u)
    process_event-Handled env other_event = streams_stay _ refl refl refl (λ u. u)
