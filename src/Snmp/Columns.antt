-- ===== src/Snmp/Columns.antt =====
-- The cases of the four handlers of src/psychMIB.cc: what each column answers.
use psych.Prelude.{ℕ, Option, none, some, List, [], ◌∷◌, ◌++◌, ltb, if◌then◌else◌}
use psych.Prelude.Int.{ℤ, div_trunc}
use psych.Config.{join_servers}
use psych.Http.Counters.{
  tcl_query_received, timer_query_received, http_request_sent, http_1xx_received, http_2xx_received,
  http_3xx_received, http_4xx_received, http_5xx_received, http_200_received, http_304_received,
  http_malformed, http_retries_exceeded, httpd_clock_drift, http_clock_drift, psych_clock_drift,
  to_u32,
}
use psych.Session.Counters.{
  rfa_msgs_sent, rfa_events_received, rfa_events_discarded, omm_item_events_received,
  omm_item_events_discarded, response_msgs_received, response_msgs_discarded,
  login_response_received, login_response_discarded, login_success_received, login_suspect_received,
  login_closed_received, omm_cmd_errors, login_validated, login_malformed, login_sent,
  directory_validated, directory_malformed, directory_sent, tokens_generated,
}
use psych.Provider.Streams.{msgs_sent}
use psych.Snmp.Objects.{
  SessionObject, ProviderObject, Plugin, Value, octets, counter, stream_value, data_value,
}

-- The cases of a switch on the column, in the order of the source.
abbrev pub Cases : Type 0 → Type 0
Cases A = List (ℕ × (A → Value))

-- `(t - kUnixEpoch).total_seconds()`, read as uint32_t
abbrev pub unix_seconds : ℤ → ℕ
unix_seconds t = to_u32 (div_trunc t 1000000)

-- `total_milliseconds()`
abbrev pub milliseconds : ℤ → ℤ
milliseconds t = div_trunc t 1000

-- a shortest or longest time; the infinite ones answer 0
unfoldable pub extreme : Option ℤ → Value
extreme none = counter 0
extreme (some t) = counter (to_u32 (milliseconds t))

-- a mean time; 0 where nothing has been counted
unfoldable pub mean : ℤ → ℕ → Value
mean total n = if ltb 0 n then counter (to_u32 (div_trunc (milliseconds total) n)) else counter 0

abbrev pub stat : ℕ → Plugin → Value
stat i p = counter (p.stats i)

abbrev pub session_stat : ℕ → SessionObject → Value
session_stat i s = counter (s.session.stats i)

unfoldable pub provider_sent : Option ProviderObject → Value
provider_sent none = counter 0
provider_sent (some q) = counter (q.stats msgs_sent)

unfoldable pub provider_activity : Option ProviderObject → Value
provider_activity none = counter 0
provider_activity (some q) = counter (unix_seconds q.last_activity)

-- `psychPluginTable_handler`
unfoldable pub plugin_cases : Cases Plugin
plugin_cases =
    (3, λ p. octets p.config.key)
    ∷ (4, λ p. octets p.config.service_name)
    ∷ (5, λ p. octets p.config.monitor_name)
    ∷ (6, λ p. octets p.config.event_queue_name)
    ∷ (7, λ p. octets p.config.vendor_name)
    ∷ []

-- `psychPluginPerformanceTable_handler`: the plug-in and its provider
abbrev pub activity_cases : Cases Plugin
activity_cases =
    (3, stat tcl_query_received)
    ∷ (4, stat timer_query_received)
    ∷ (5, λ p. counter (unix_seconds p.last_activity))
    ∷ (6, λ p. extreme p.tcl_time.shortest)
    ∷ (7, λ p. mean p.tcl_time.total (p.stats tcl_query_received))
    ∷ (8, λ p. extreme p.tcl_time.longest)
    ∷ (9, λ p. extreme p.refresh_time.shortest)
    ∷ (10, λ p. mean p.refresh_time.total (p.stats timer_query_received))
    ∷ (11, λ p. extreme p.refresh_time.longest)
    ∷ (12, λ p. provider_sent p.provider)
    ∷ (13, λ p. provider_activity p.provider)
    ∷ []

-- `psychPluginPerformanceTable_handler`: the HTTP requests
abbrev pub http_cases : Cases Plugin
http_cases =
    (14, stat http_request_sent)
    ∷ (15, stat http_1xx_received)
    ∷ (16, stat http_2xx_received)
    ∷ (17, stat http_3xx_received)
    ∷ (18, stat http_4xx_received)
    ∷ (19, stat http_5xx_received)
    ∷ (20, stat http_200_received)
    ∷ (21, stat http_304_received)
    ∷ (22, stat http_malformed)
    ∷ (23, stat http_retries_exceeded)
    ∷ (24, stat httpd_clock_drift)
    ∷ (25, stat http_clock_drift)
    ∷ (26, stat psych_clock_drift)
    ∷ []

unfoldable pub plugin_performance_cases : Cases Plugin
plugin_performance_cases = activity_cases ++ http_cases

-- `psychSessionTable_handler`
unfoldable pub session_cases : Cases SessionObject
session_cases =
    (4, λ s. octets (join_servers s.session.config.rssl_servers))
    ∷ (5, λ s. octets s.session.config.rssl_default_port)
    ∷ (6, λ s. octets s.session.config.application_id)
    ∷ (7, λ s. octets s.session.config.instance_id)
    ∷ (8, λ s. octets s.session.config.user_name)
    ∷ (9, λ s. octets s.session.config.position)
    ∷ (10, λ s. octets s.session.config.session_name)
    ∷ (11, λ s. octets s.session.config.connection_name)
    ∷ (12, λ s. octets s.session.config.publisher_name)
    ∷ []

-- `psychSessionPerformanceTable_handler`: the events
abbrev pub event_cases : Cases SessionObject
event_cases =
    (4, λ s. counter (unix_seconds s.last_activity))
    ∷ (5, session_stat rfa_msgs_sent)
    ∷ (6, session_stat rfa_events_received)
    ∷ (7, session_stat rfa_events_discarded)
    ∷ (8, session_stat omm_item_events_received)
    ∷ (9, session_stat omm_item_events_discarded)
    ∷ (10, session_stat response_msgs_received)
    ∷ (11, session_stat response_msgs_discarded)
    ∷ (12, session_stat login_response_received)
    ∷ (13, session_stat login_response_discarded)
    ∷ (14, session_stat login_success_received)
    ∷ (15, session_stat login_suspect_received)
    ∷ (16, session_stat login_closed_received)
    ∷ []

-- `psychSessionPerformanceTable_handler`: what the session has sent, and its state
abbrev pub request_cases : Cases SessionObject
request_cases =
    (17, session_stat omm_cmd_errors)
    ∷ (18, session_stat login_validated)
    ∷ (19, session_stat login_malformed)
    ∷ (20, session_stat login_sent)
    ∷ (21, session_stat directory_validated)
    ∷ (22, session_stat directory_malformed)
    ∷ (23, session_stat directory_sent)
    ∷ (24, session_stat tokens_generated)
    ∷ (25, λ s. stream_value s.session.stream_state)
    ∷ (26, λ s. data_value s.session.data_state)
    ∷ []

unfoldable pub session_performance_cases : Cases SessionObject
session_performance_cases = event_cases ++ request_cases
