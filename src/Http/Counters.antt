-- ===== src/Http/Counters.antt =====
-- The performance counters of `psych_t`: the positions of the enum of src/psych.hh.
use psych.Prelude.{ℕ, ◌-◌, ◌%◌, suc, u32_mod}
use psych.Prelude.Int.{ℤ, pos, negsuc}

abbrev pub tcl_query_received : ℕ
tcl_query_received = 0

abbrev pub timer_query_received : ℕ
timer_query_received = 1

abbrev pub http_request_sent : ℕ
http_request_sent = 2

abbrev pub http_1xx_received : ℕ
http_1xx_received = 3

abbrev pub http_2xx_received : ℕ
http_2xx_received = 4

abbrev pub http_3xx_received : ℕ
http_3xx_received = 5

abbrev pub http_4xx_received : ℕ
http_4xx_received = 6

abbrev pub http_5xx_received : ℕ
http_5xx_received = 7

abbrev pub http_200_received : ℕ
http_200_received = 8

abbrev pub http_304_received : ℕ
http_304_received = 9

abbrev pub http_malformed : ℕ
http_malformed = 10

abbrev pub http_retries_exceeded : ℕ
http_retries_exceeded = 11

abbrev pub httpd_clock_drift : ℕ
httpd_clock_drift = 12

abbrev pub http_clock_drift : ℕ
http_clock_drift = 13

abbrev pub psych_clock_drift : ℕ
psych_clock_drift = 14

-- The conversion of a long to uint32_t.
abbrev pub to_u32 : ℤ → ℕ
to_u32 (pos n) = n % u32_mod
to_u32 (negsuc n) = (u32_mod - suc n % u32_mod) % u32_mod
