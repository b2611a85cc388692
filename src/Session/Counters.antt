-- ===== src/Session/Counters.antt =====
-- The performance counters of `session_t`: the positions of the enum of src/session.hh.
use psych.Prelude.{ℕ}

abbrev pub rfa_msgs_sent : ℕ
rfa_msgs_sent = 0

abbrev pub rfa_events_received : ℕ
rfa_events_received = 1

abbrev pub rfa_events_discarded : ℕ
rfa_events_discarded = 2

abbrev pub omm_item_events_received : ℕ
omm_item_events_received = 3

abbrev pub omm_item_events_discarded : ℕ
omm_item_events_discarded = 4

abbrev pub response_msgs_received : ℕ
response_msgs_received = 5

abbrev pub response_msgs_discarded : ℕ
response_msgs_discarded = 6

abbrev pub login_response_received : ℕ
login_response_received = 7

abbrev pub login_response_discarded : ℕ
login_response_discarded = 8

abbrev pub login_success_received : ℕ
login_success_received = 9

abbrev pub login_suspect_received : ℕ
login_suspect_received = 10

abbrev pub login_closed_received : ℕ
login_closed_received = 11

abbrev pub omm_cmd_errors : ℕ
omm_cmd_errors = 12

abbrev pub login_validated : ℕ
login_validated = 13

abbrev pub login_malformed : ℕ
login_malformed = 14

abbrev pub login_sent : ℕ
login_sent = 15

abbrev pub directory_validated : ℕ
directory_validated = 16

abbrev pub directory_malformed : ℕ
directory_malformed = 17

abbrev pub directory_sent : ℕ
directory_sent = 18

abbrev pub tokens_generated : ℕ
tokens_generated = 19
