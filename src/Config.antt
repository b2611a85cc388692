-- ===== src/Config.antt =====
-- The configuration structures of src/config.hh. Every value is the text that was configured.
pub mod Print
use psych.Prelude.{ℕ, Bool, true, false, List, [], ◌∷◌, ◌++◌}
use psych.Prelude.Int.{ℤ}
use psych.Prelude.Bytes.{Bytes, codes}

-- `session_config_t`
pub record SessionConfig : Type 0 where
  pub session_name : Bytes
  pub connection_name : Bytes
  pub publisher_name : Bytes
  pub rssl_servers : List Bytes
  pub rssl_default_port : Bytes
  pub application_id : Bytes
  pub instance_id : Bytes
  pub user_name : Bytes
  pub position : Bytes

-- `resource_t`: `fields` maps a column name to a FID, `items` a sector to its RIC and topic.
pub record Resource : Type 0 where
  pub name : Bytes
  pub source : Bytes
  pub path : Bytes
  pub entitlement_code : ℕ
  pub fields : List (Bytes × ℤ)
  pub items : List (Bytes × (Bytes × Bytes))

-- `config_t`
pub record Config : Type 0 where
  pub is_snmp_enabled : Bool
  pub is_agentx_subagent : Bool
  pub snmp_filelog : Bytes
  pub agentx_socket : Bytes
  pub key : Bytes
  pub service_name : Bytes
  pub dacs_id : Bytes
  pub sessions : List SessionConfig
  pub monitor_name : Bytes
  pub event_queue_name : Bytes
  pub vendor_name : Bytes
  pub maximum_data_size : Bytes
  pub interval : Bytes
  pub tolerable_delay : Bytes
  pub retry_count : Bytes
  pub retry_delay_ms : Bytes
  pub retry_timeout_ms : Bytes
  pub timeout_ms : Bytes
  pub connect_timeout_ms : Bytes
  pub enable_http_pipelining : Bytes
  pub maximum_response_size : Bytes
  pub minimum_response_size : Bytes
  pub request_http_encoding : Bytes
  pub time_offset_constant : Bytes
  pub panic_threshold : Bytes
  pub http_proxy : Bytes
  pub dns_cache_timeout : Bytes
  pub base_url : Bytes
  pub resources : List Resource

abbrev pub empty_session : SessionConfig
empty_session = record {
  session_name = [];
  connection_name = [];
  publisher_name = [];
  rssl_servers = [];
  rssl_default_port = [];
  application_id = [];
  instance_id = [];
  user_name = [];
  position = [];
}

-- The constructor of `config_t`.
abbrev pub default_config : Config
default_config = record {
  is_snmp_enabled = false;
  is_agentx_subagent = true;
  snmp_filelog = [];
  agentx_socket = [];
  key = [];
  service_name = [];
  dacs_id = [];
  sessions = [];
  monitor_name = [];
  event_queue_name = [];
  vendor_name = [];
  maximum_data_size = [];
  interval = [];
  tolerable_delay = [];
  retry_count = [];
  retry_delay_ms = [];
  retry_timeout_ms = [];
  timeout_ms = [];
  connect_timeout_ms = [];
  enable_http_pipelining = [];
  maximum_response_size = [];
  minimum_response_size = [];
  request_http_encoding = [];
  time_offset_constant = [];
  panic_threshold = [];
  http_proxy = [];
  dns_cache_timeout = [];
  base_url = [];
  resources = [];
}

-- the servers of a session, with ", " between them, as src/rfa.cc and src/psychMIB.cc print them
later_servers : List Bytes → Bytes
later_servers [] = []
later_servers (s ∷ rest) = codes ", " ++ s ++ later_servers rest

unfoldable pub join_servers : List Bytes → Bytes
unfolding later_servers
join_servers [] = []
join_servers (s ∷ rest) = s ++ later_servers rest
