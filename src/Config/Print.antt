-- ===== src/Config/Print.antt =====
-- The text that Init logs of its configuration: the three `operator<<` of src/config.hh.
use psych.Prelude.{ℕ, zero, suc, ◌+◌, ◌/◌, ◌%◌, Bool, ltb, if◌then◌else◌, List, [], ◌∷◌, ◌++◌, map}
use psych.Prelude.Int.{ℤ, pos, negsuc}
use psych.Prelude.Bytes.{Bytes, codes}
use psych.Config.{SessionConfig, Resource, Config, join_servers}

-- `o << n` for an unsigned number: on fuel, of which one more than the number is enough
unfoldable pub digits_of : ℕ → ℕ → Bytes
digits_of zero n = []
digits_of (suc fuel) n =
    let rest = digits_of fuel (n / 10) in
    if ltb n 10 then (48 + n) ∷ [] else rest ++ ((48 + n % 10) ∷ [])

unfoldable pub decimal : ℕ → Bytes
unfolding digits_of
decimal n = digits_of (n + 1) n

-- `o << n` for an int
unfoldable pub print_int : ℤ → Bytes
print_int (pos n) = decimal n
print_int (negsuc n) = codes "-" ++ decimal (n + 1)

-- `"\"" << value << "\""`
unfoldable pub quoted : Bytes → Bytes
quoted value = codes "\"" ++ value ++ codes "\""

-- `", \"name\": " << value`
unfoldable pub member : Bytes → Bytes → Bytes
unfolding quoted
member name value = codes ", " ++ quoted name ++ codes ": " ++ value

unfoldable pub text_member : Bytes → Bytes → Bytes
unfolding quoted member
text_member name value = member name (quoted value)

members : List (Bytes × Bytes) → Bytes
unfolding text_member
members [] = []
members ((name, value) ∷ rest) = text_member name value ++ members rest

unfoldable pub print_session : SessionConfig → Bytes
unfolding quoted member text_member members join_servers
print_session session =
    codes "{ \"session_name\": "
    ++ quoted session.session_name
    ++ members (
        (codes "connection_name", session.connection_name)
        ∷ (codes "publisher_name", session.publisher_name)
        ∷ [])
    ++ codes ", \"rssl_servers\": [ "
    ++ join_servers (map quoted session.rssl_servers)
    ++ codes " ]"
    ++ members (
        (codes "rssl_default_port", session.rssl_default_port)
        ∷ (codes "application_id", session.application_id)
        ∷ (codes "instance_id", session.instance_id)
        ∷ (codes "user_name", session.user_name)
        ∷ (codes "position", session.position)
        ∷ [])
    ++ codes " }"

print_field : Bytes × ℤ → Bytes
unfolding quoted print_int
print_field (name, fid) = quoted name ++ codes ": " ++ print_int fid

print_item : Bytes × (Bytes × Bytes) → Bytes
unfolding quoted text_member
print_item (sector, (ric, topic)) =
    quoted sector
    ++ codes ": { \"RIC\": "
    ++ quoted ric
    ++ text_member (codes "topic") topic
    ++ codes " }"

unfoldable pub print_resource : Resource → Bytes
unfolding quoted member members join_servers print_field print_item decimal
print_resource resource =
    codes "{ \"name\": "
    ++ quoted resource.name
    ++ members ((codes "source", resource.source) ∷ (codes "path", resource.path) ∷ [])
    ++ member (codes "entitlement_code") (decimal resource.entitlement_code)
    ++ codes ", \"fields\": { "
    ++ join_servers (map print_field resource.fields)
    ++ codes " }, \"items\": { "
    ++ join_servers (map print_item resource.items)
    ++ codes " } }"

unfoldable pub print_bool : Bool → Bytes
print_bool b = if b then codes "true" else codes "false"

unfoldable pub print_config : Config → Bytes
unfolding quoted member members join_servers print_session print_resource print_bool
print_config config =
    codes "\"config_t\": { \"is_snmp_enabled\": "
    ++ print_bool config.is_snmp_enabled
    ++ member (codes "is_agentx_subagent") (print_bool config.is_agentx_subagent)
    ++ members (
        (codes "agentx_socket", config.agentx_socket)
        ∷ (codes "key", config.key)
        ∷ (codes "service_name", config.service_name)
        ∷ (codes "dacs_id", config.dacs_id)
        ∷ [])
    ++ codes ", \"sessions\": ["
    ++ join_servers (map print_session config.sessions)
    ++ codes " ]"
    ++ members (
        (codes "monitor_name", config.monitor_name)
        ∷ (codes "event_queue_name", config.event_queue_name)
        ∷ (codes "vendor_name", config.vendor_name)
        ∷ (codes "maximum_data_size", config.maximum_data_size)
        ∷ (codes "interval", config.interval)
        ∷ (codes "tolerable_delay", config.tolerable_delay)
        ∷ (codes "retry_count", config.retry_count)
        ∷ (codes "retry_delay_ms", config.retry_delay_ms)
        ∷ (codes "retry_timeout_ms", config.retry_timeout_ms)
        ∷ (codes "timeout_ms", config.timeout_ms)
        ∷ (codes "connect_timeout_ms", config.connect_timeout_ms)
        ∷ (codes "enable_http_pipelining", config.enable_http_pipelining)
        ∷ (codes "maximum_response_size", config.maximum_response_size)
        ∷ (codes "minimum_response_size", config.minimum_response_size)
        ∷ (codes "request_http_encoding", config.request_http_encoding)
        ∷ (codes "time_offset_constant", config.time_offset_constant)
        ∷ (codes "panic_threshold", config.panic_threshold)
        ∷ (codes "http_proxy", config.http_proxy)
        ∷ (codes "dns_cache_timeout", config.dns_cache_timeout)
        ∷ (codes "base_url", config.base_url)
        ∷ [])
    ++ codes ", \"resources\": ["
    ++ join_servers (map print_resource config.resources)
    ++ codes " ] }"
