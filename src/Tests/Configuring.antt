-- ===== src/Tests/Configuring.antt =====
-- Reading a configuration: src/config.cc at a small tree.
use psych.Prelude.{ℕ, ◌≡◌, Bool, true, false, ◌&&◌, List, [], ◌∷◌, ◌==◌, if◌then◌else◌, refl}
use psych.Prelude.Int.{pos}
use psych.Prelude.Bytes.{Bytes, codes, equal, less, atol, skip_space, digits_value}
use psych.Config.{SessionConfig, Resource, Config, default_config}
use psych.Setup.Validate.{validate, sessions_ok, session_ok, resources_ok, resource_ok, size_ok}
use psych.Setup.Numbers.{stoi, strtoul, signed_number, leading_number}
use psych.Setup.Dom.{Dom, read}
use psych.Setup.Rfa.{
  parse_agentx_node, parse_snmp_node, parse_service_node, parse_dacs_node, parse_publisher_node,
  parse_server_node, parse_connection_node, parse_login_node, parse_session_node,
  parse_monitor_node, parse_event_queue_node, parse_vendor_node, parse_rfa_node,
}
use psych.Setup.Feed.{
  emplace, clear_lists, parse_field_node, parse_item_node, parse_link_node, parse_resource_lists,
  parse_resource_node, psych_attributes, parse_psych_node,
}
use psych.Setup.Tree.{parse_config_node, validated, parse_dom_element}

-- the children of the nodes, by their tags
abbrev edges : List (ℕ × Bytes × ℕ)
edges =
    (0, codes "config", 1)
    ∷ (1, codes "Rfa", 2)
    ∷ (1, codes "psych", 3)
    ∷ (2, codes "session", 4)
    ∷ (2, codes "service", 5)
    ∷ (2, codes "monitor", 6)
    ∷ (2, codes "eventQueue", 6)
    ∷ (2, codes "vendor", 6)
    ∷ (4, codes "publisher", 6)
    ∷ (4, codes "connection", 7)
    ∷ (4, codes "login", 6)
    ∷ (7, codes "server", 6)
    ∷ (3, codes "resource", 8)
    ∷ (8, codes "field", 6)
    ∷ (8, codes "item", 6)
    ∷ (8, codes "link", 6)
    ∷ []

-- equality of tags
abbrev same : Bytes → Bytes → Bool
same [] [] = true
same (x ∷ xs) (y ∷ ys) = x == y && same xs ys
same [] (y ∷ ys) = false
same (x ∷ xs) [] = false

abbrev below : ℕ → Bytes → List (ℕ × Bytes × ℕ) → List ℕ
below n tag [] = []
below n tag ((m, t, child) ∷ rest) =
    if m == n && same t tag then child ∷ below n tag rest else below n tag rest

-- Every attribute and text of the tree reads 77.
abbrev tree : Dom
tree = record {
  Node = ℕ;
  attribute = λ n name. codes "77";
  elements = λ n tag. below n tag edges;
  text = λ n. codes "77";
  has_attributes = λ n. true;
}

abbrev pub t : Bytes
t = codes "77"

abbrev session : SessionConfig
session = record {
  session_name = t;
  connection_name = t;
  publisher_name = t;
  rssl_servers = t ∷ [];
  rssl_default_port = t;
  application_id = t;
  instance_id = t;
  user_name = t;
  position = t;
}

abbrev feed : Resource
feed = record {
  name = t;
  source = t;
  path = t;
  entitlement_code = 77;
  fields = (t, pos 77) ∷ [];
  items = (t, (t, t)) ∷ [];
}

abbrev rfa : Config
rfa = record default_config {
  key = t;
  service_name = t;
  sessions = session ∷ [];
  monitor_name = t;
  event_queue_name = t;
  vendor_name = t;
  maximum_data_size = t;
}

abbrev pub full : Config
full = record rfa {
  interval = t;
  tolerable_delay = t;
  retry_count = t;
  retry_delay_ms = t;
  retry_timeout_ms = t;
  timeout_ms = t;
  connect_timeout_ms = t;
  enable_http_pipelining = t;
  maximum_response_size = t;
  minimum_response_size = t;
  request_http_encoding = t;
  time_offset_constant = t;
  panic_threshold = t;
  http_proxy = t;
  dns_cache_timeout = t;
  base_url = t;
  resources = feed ∷ [];
}

reads : parse_dom_element tree 0 default_config ≡ read full
unfolding parse_dom_element validated validate sessions_ok session_ok resources_ok resource_ok
    size_ok atol skip_space digits_value parse_config_node parse_snmp_node parse_agentx_node
    parse_rfa_node parse_service_node parse_dacs_node parse_session_node parse_publisher_node
    parse_connection_node parse_server_node parse_login_node parse_monitor_node
    parse_event_queue_node parse_vendor_node parse_psych_node psych_attributes clear_lists
    parse_resource_node parse_resource_lists parse_field_node parse_item_node parse_link_node
    emplace stoi strtoul signed_number leading_number equal less
reads = refl

abbrev twice : Config
twice = record full { resources = record feed { fields = []; items = [] } ∷ feed ∷ [] }

reads_again : parse_psych_node tree 3 full ≡ read twice
unfolding parse_psych_node psych_attributes clear_lists parse_resource_node parse_resource_lists
    parse_field_node parse_item_node parse_link_node emplace stoi strtoul signed_number
    leading_number equal less skip_space digits_value
reads_again = refl
