-- ===== src/Tests/Publishing.antt =====
-- Sessions and the provider: src/session.cc and src/provider.cc at a provider with two sessions.
use psych.Prelude.{
  ℕ, zero, suc, ◌≡◌, true, false, Option, none, some, List, [], ◌∷◌, refl, bump, ◌==◌,
  if◌then◌else◌, arith, get_elem?, All, length,
}
use mathlib.Core.Path.{subst}
use psych.Prelude.Bytes.{codes}
use psych.Store.{Session, Provider, ItemStream, new_session}
use psych.Session.Tokens.{create_item_stream, submit, reset_tokens, reset_entries, reset_token}
use psych.Session.Events.{
  raised, process_event, on_resp_msg, on_login_success, send_directory_response,
}
use psych.Session.Muting.{process_event-is_muted, next_mute}
use psych.Session.Balance.{Balanced, process_event-Balanced, no_stats-Balanced}
use psych.Provider.Streams.{create_stream, create_tokens, contains_key, send_stream, deliver}
use psych.Provider.Login.{
  init_provider, StartEnv, new_provider, init_sessions, init_session, create_omm_providers,
  create_omm_provider, send_login_request, login_request, register_login, negotiate, finish_init,
}
use psych.Session.Counters.{login_sent, login_validated}
use psych.Provider.Negotiation.{RealVersions}
use psych.Provider.Version.{Lowest, init_provider-Lowest}
use psych.Provider.Coverage.Steps.{Covered, SessionOk}
use psych.Provider.Coverage.Reach.{Reach, here, next, creates, delivers, sends, Reach-Covered}
use psych.Tests.Fixture.{
  provider, login_env, login_success, message, ready, session_config, two_session_config,
}

ready_ok : (i : ℕ) → SessionOk provider i (ready i)
ready_ok i = record { id = refl; ready = refl; wire = tt; tokens = λ u q. absurd (cc u) }

session_ok : (i : ℕ) (s : Session) → get_elem? provider.sessions i ≡ some s → SessionOk provider i s
session_ok zero s h = subst (λ (x : Session). SessionOk provider 0 x) (cc h) (ready_ok 0)
session_ok (suc zero) s h = subst (λ (x : Session). SessionOk provider 1 x) (cc h) (ready_ok 1)
session_ok (suc (suc i)) s h = absurd (cc h)

pub provider-Covered : Covered provider
provider-Covered = record {
  sized = λ q st h. absurd (cc h);
  listed = λ q l. absurd (omega arith);
  each = session_ok;
}

abbrev named : Provider
named = create_stream provider (codes "topic")

abbrev pub logged_in : Provider
logged_in = deliver login_env named 0 login_success

abbrev stream : ItemStream
stream = record { rfa_name = codes "topic"; token = some 1 ∷ none ∷ []; alive = true }

topic_stream : get_elem? logged_in.streams 0 ≡ some stream
unfolding create_stream create_tokens create_item_stream contains_key deliver process_event
    on_resp_msg on_login_success send_directory_response submit reset_tokens reset_entries
    reset_token
topic_stream = refl

pub one_stream : length logged_in.streams ≡ 1
unfolding create_stream create_tokens create_item_stream contains_key deliver process_event
    on_resp_msg on_login_success send_directory_response submit reset_tokens reset_entries
    reset_token
one_stream = refl

is_new : contains_key (codes "topic") provider.directory ≡ false
unfolding contains_key
is_new = refl

walk : Reach provider (send_stream (λ i. some 0) logged_in stream message).0
walk =
    next
      (next (next here (creates provider (codes "topic") is_new))
        (delivers named login_env 0 login_success))
      (sends logged_in (λ i. some 0) 0 stream message topic_stream refl)

pub logged_in-Covered : Covered logged_in
logged_in-Covered = Reach-Covered provider-Covered (
    next (next here (creates provider (codes "topic") is_new))
      (delivers named login_env 0 login_success))

Reach-Covered_example : Covered (send_stream (λ i. some 0) logged_in stream message).0
Reach-Covered_example = Reach-Covered provider-Covered walk

process_event-is_muted_example :
    ((process_event login_env named login_success (ready 0)).0.is_muted
      ≡ next_mute login_env login_success true)
    × ((process_event
          (record login_env { validation = raised })
          named
          login_success
          (ready 0)).0.wire
        ≡ [])
    × ((process_event
          (record login_env { validation = raised })
          named
          login_success
          (ready 0)).0.is_muted
        ≡ false)
process_event-is_muted_example = process_event-is_muted login_env named login_success (ready 0)

process_event-Balanced_example :
    Balanced (process_event login_env named login_success (ready 0)).0.stats
process_event-Balanced_example =
    process_event-Balanced login_env named login_success (ready 0) no_stats-Balanced

abbrev tokens : List (Option ℕ)
tokens = some 1 ∷ none ∷ []

two_sessions : length tokens ≡ length logged_in.sessions
unfolding create_stream create_tokens create_item_stream contains_key deliver process_event
two_sessions = refl

-- RFA starts session 0 at version 14.1 and session 1 at 14.0.
abbrev starting : ℕ → StartEnv
starting i = record {
  acquires = true;
  creates_provider = true;
  registers_errors = true;
  validates = λ r. true;
  registers = λ r. some (14, if i == 0 then 1 else 0);
}

abbrev fresh : Provider
fresh = new_provider two_session_config

abbrev started : Session → ℕ → Session
started s minor = record s {
  has_session = true;
  has_omm_provider = true;
  error_item_handle = true;
  item_handle = true;
  rwf_major = 14;
  rwf_minor = minor;
  stats = bump login_sent (bump login_validated s.stats);
}

abbrev running : Provider
running = record fresh {
  min_rwf_major = 14;
  sessions =
      started (new_session 0 session_config) 1 ∷ started (new_session 1 session_config) 0 ∷ [];
}

starting-RealVersions : RealVersions starting
starting-RealVersions i r (a, b) h = ground arith

starts : init_provider starting true fresh ≡ some (true, running)
unfolding new_provider init_provider init_sessions init_session create_omm_providers
    create_omm_provider send_login_request login_request register_login negotiate finish_init
starts = refl

none_registered : All (λ s. s.item_handle ≡ false) fresh.sessions
unfolding new_provider
none_registered = (refl, (refl, tt))

init_provider-Lowest_example : Lowest (0, 0) (14, 0) running.sessions
unfolding new_provider
init_provider-Lowest_example =
    init_provider-Lowest starting true fresh running starting-RealVersions refl refl none_registered
      starts
