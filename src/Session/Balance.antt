-- ===== src/Session/Balance.antt =====
-- The event counters of a session add up (src/session.cc).
use psych.Prelude.{
  ℕ, ◌+◌, ◌%◌, Bool, true, false, Option, none, some, List, [], ◌∷◌, ◌≡◌, ◌≢◌, refl, ◌∙◌, arith,
  Stats, get_elem?, ◌<◌, u32_mod, no_stats, bump,
}
use psych.Prelude.Bytes.{Bytes}
use psych.Store.{
  Session, ItemStream, Provider, StreamState, stream_open, stream_closed, stream_other, DataState,
  data_ok, data_suspect, data_other,
}
use psych.Session.Counters.{
  rfa_events_received, rfa_events_discarded, omm_item_events_received, omm_item_events_discarded,
  response_msgs_received, response_msgs_discarded, login_response_received,
  login_response_discarded, login_success_received, login_suspect_received, login_closed_received,
  omm_cmd_errors, tokens_generated, directory_validated,
}
use psych.Session.Tokens.{SubmitResult, reset_entries, reset_token, reset_tokens, lock}
use psych.Session.Events.{
  Validation, valid, warned, raised, LoginEnv, Event, item_event, cmd_error, other_event,
  process_event, on_login_success,
}

-- Each counter of a kind of message is the sum of what became of those messages, modulo 2^32.
pub record Balanced (c : Stats) : Type 0 where
  pub events :
      (c omm_item_events_received + c omm_cmd_errors + c rfa_events_discarded) % u32_mod
      ≡ c rfa_events_received
  pub items :
      (c omm_item_events_discarded + c response_msgs_received) % u32_mod
      ≡ c omm_item_events_received
  pub responses :
      (c response_msgs_discarded + c login_response_received) % u32_mod ≡ c response_msgs_received
  pub logins :
      (c login_response_discarded
          + c login_success_received
          + c login_suspect_received
          + c login_closed_received)
        % u32_mod
      ≡ c login_response_received

reset_token-stats :
    (q : ℕ) (o : Option ItemStream) (streams : List ItemStream) (s : Session) (k : ℕ)
    → k ≢ tokens_generated
    → (reset_token q o (streams, s)).1.stats k ≡ s.stats k
unfolding reset_token
reset_token-stats q none streams s k h = refl
reset_token-stats q (some st) streams s k h = ground arith

-- `ResetTokens` touches no counter but its own.
reset_entries-stats :
    (ds : List (Bytes × ℕ)) (w : List ItemStream × Session) (k : ℕ)
    → k ≢ tokens_generated
    → (reset_entries ds w).1.stats k ≡ w.1.stats k
unfolding reset_entries
reset_entries-stats [] w k h = refl
reset_entries-stats ((key, q) ∷ ds) w k h =
    reset_entries-stats ds (reset_token q (lock (get_elem? w.0 q)) w) k h
    ∙ reset_token-stats q (lock (get_elem? w.0 q)) w.0 w.1 k h

reset_tokens-stats :
    (p : Provider) (s : Session) (k : ℕ)
    → k ≢ tokens_generated
    → (reset_tokens p s).1.stats k ≡ s.stats k
unfolding reset_tokens
reset_tokens-stats p s k h = ground (arith, reset_entries-stats p.directory (p.streams, s) k)

-- A login success touches, of the counters of events and messages, its own alone.
on_login_success-stats :
    (v : Validation) (r : SubmitResult) (p : Provider) (s : Session) (k : ℕ)
    → 0 < k
    → k < directory_validated
    → (on_login_success (record { validation = v; submission = r }) p s).0.stats k
      ≡ bump login_success_received s.stats k
unfolding on_login_success
on_login_success-stats valid none p s k a b = ground arith
on_login_success-stats valid (some n) p s k a b =
    reset_tokens-stats p _ k (omega arith) ∙ ground arith
on_login_success-stats warned none p s k a b = ground arith
on_login_success-stats warned (some n) p s k a b =
    reset_tokens-stats p _ k (omega arith) ∙ ground arith
on_login_success-stats raised r p s k a b = reset_tokens-stats p _ k (omega arith) ∙ ground arith

-- Counters that agree where `Balanced` looks.
abbrev Agree : Stats → Stats → Type 0
Agree c d = (k : ℕ) → 0 < k → k < directory_validated → c k ≡ d k

Balanced-Agree : (c d : Stats) → Agree c d → Balanced d → Balanced c
Balanced-Agree c d e b = omega (
  arith,
  e 1 (omega arith),
  e 2 (omega arith),
  e 3 (omega arith),
  e 4 (omega arith),
  e 5 (omega arith),
  e 6 (omega arith),
  e 7 (omega arith),
  e 8 (omega arith),
  e 9 (omega arith),
  e 10 (omega arith),
  e 11 (omega arith),
  e 12 (omega arith),
)

-- the counters that every login response passes
abbrev at_login : Stats → Stats
at_login c =
    bump login_response_received
      (bump response_msgs_received (bump omm_item_events_received (bump rfa_events_received c)))

module _ (c : Stats) (b : Balanced c) where
  Balanced-success : Balanced (bump login_success_received (at_login c))
  Balanced-success = ground arith

module _ (env : LoginEnv) (p : Provider) where
  login-Balanced :
      (stream : StreamState) (d : DataState) (s : Session)
      → Balanced s.stats
      → Balanced
          (process_event env p
            (item_event (some (record { is_login = true; stream_state = stream; data_state = d })))
            s).0.stats
  unfolding process_event
  login-Balanced stream_open data_ok s b =
      let s' = record s {
        stats = at_login s.stats;
        stream_state = stream_open;
        data_state = data_ok;
      } in
      Balanced-Agree _ _ (on_login_success-stats env.validation env.submission p s')
        (Balanced-success s.stats b)
  login-Balanced stream_open data_suspect s b = ground arith
  login-Balanced stream_open (data_other n) s b = ground arith
  login-Balanced stream_closed d s b = ground arith
  login-Balanced (stream_other n) d s b = ground arith

  response-Balanced :
      (is_login : Bool) (stream : StreamState) (d : DataState) (s : Session)
      → Balanced s.stats
      → Balanced
          (process_event env p
            (item_event
              (some (record { is_login = is_login; stream_state = stream; data_state = d })))
            s).0.stats
  unfolding process_event
  response-Balanced true stream d s b = login-Balanced stream d s b
  response-Balanced false stream d s b = ground arith

  -- If the counters of a session add up, they still do after any event: the events received are the
  -- item events, the command errors and the discarded ones, and so on down to the login responses,
  -- each of which was counted as a success, a suspect or closed login, or as discarded.
  pub process_event-Balanced :
      (e : Event) (s : Session) → Balanced s.stats → Balanced (process_event env p e s).0.stats
  unfolding process_event
  process_event-Balanced (item_event none) s b = ground arith
  process_event-Balanced (item_event (some m)) s b =
      response-Balanced m.is_login m.stream_state m.data_state s b
  process_event-Balanced cmd_error s b = ground arith
  process_event-Balanced other_event s b = ground arith

pub no_stats-Balanced : Balanced no_stats
no_stats-Balanced = omega arith
