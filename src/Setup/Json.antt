-- ===== src/Setup/Json.antt =====
-- `ParseConfig`, `ParseSession` and `ParseResource` of src/config.cc, over the values of the vendored
-- Chromium library as an interface.
use psych.Prelude.{
  ℕ, suc, ◌-◌, Bool, true, not, Option, none, some, List, [], ◌∷◌, ◌++◌, ◌≡◌, if◌then◌else◌,
  Bool-cases, inl, inr,
}
use psych.Prelude.Int.{ℤ, pos, negsuc}
use psych.Prelude.Bytes.{Bytes, codes}
use psych.Config.{Config}
use psych.Setup.Dom.{Read, read, failed, raised, ◌>>=◌, each, bind-read}
use psych.Setup.Feed.{emplace}
use psych.Setup.Tree.{validated, validated-validate}
use psych.Setup.Validate.{validate}

-- `DictionaryValue` and `Value`: the getters answer `none` where they return false, and `entries` is
-- what the iterator yields.
pub record Json : Type 1 where
  pub Dict : Type 0
  pub Value : Type 0
  pub has_key : Dict → Bytes → Bool
  pub get : Dict → Bytes → Option Value
  pub get_string : Dict → Bytes → Option Bytes
  pub get_boolean : Dict → Bytes → Option Bool
  pub get_integer : Dict → Bytes → Option ℤ
  pub get_list : Dict → Bytes → Option (List Value)
  pub as_dict : Value → Option Dict
  pub as_string : Value → Option Bytes
  pub as_integer : Value → Option ℤ
  pub entries : Dict → List (Bytes × Value)

-- `CHECK`, which ends the process as the log's documentation has it
abbrev pub check {ℓ} : {A : Type ℓ} → Option A → Read A
check none = raised
check (some a) = read a

-- a getter that leaves its argument alone where it finds nothing
abbrev pub or_old {ℓ} : {A : Type ℓ} → Option A → A → A
or_old none old = old
or_old (some a) old = a

-- an int converted to unsigned long
abbrev pub to_unsigned_long : ℤ → ℕ
to_unsigned_long (pos n) = n
to_unsigned_long (negsuc n) = 4294967296 - suc n

module _ (json : Json) where
  abbrev pub text_or : json.Dict → Bytes → Bytes → Bytes
  text_or dict name old = or_old (json.get_string dict name) old

  unfoldable pub add_server : json.Value → List Bytes → Read (List Bytes)
  add_server value servers = do server ← check (json.as_string value); read (servers ++ server ∷ [])

  -- `ParseSession`
  unfoldable pub parse_session : json.Dict → Config → Read Config
  unfolding add_server
  parse_session dict c = do
    list ← check (json.get_list dict (codes "rssl_servers"))
    servers ← each add_server list []
    read (record c {
      sessions =
          c.sessions
          ++ (record {
            session_name = text_or dict (codes "session_name") [];
            connection_name = text_or dict (codes "connection_name") [];
            publisher_name = text_or dict (codes "publisher_name") [];
            rssl_servers = servers;
            rssl_default_port = text_or dict (codes "rssl_default_port") [];
            application_id = text_or dict (codes "application_id") [];
            instance_id = text_or dict (codes "instance_id") [];
            user_name = text_or dict (codes "user_name") [];
            position = text_or dict (codes "position") [];
          })
            ∷ [];
    })

  unfoldable pub add_field : Bytes × json.Value → List (Bytes × ℤ) → Read (List (Bytes × ℤ))
  unfolding emplace
  add_field (name, value) fields = do
    id ← check (json.as_integer value)
    read (emplace name id fields)

  unfoldable pub add_item :
      Bytes × json.Value → List (Bytes × (Bytes × Bytes)) → Read (List (Bytes × (Bytes × Bytes)))
  unfolding emplace
  add_item (sector, value) items = do
    item ← check (json.as_dict value)
    read (emplace sector (text_or item (codes "RIC") [], text_or item (codes "topic") []) items)

  -- the entries of a dictionary that must be there
  unfoldable pub entries_of : json.Dict → Bytes → Read (List (Bytes × json.Value))
  entries_of dict name = do
    value ← check (json.get dict name)
    inner ← check (json.as_dict value)
    read (json.entries inner)

  -- `ParseResource`
  unfoldable pub parse_resource : json.Dict → Config → Read Config
  unfolding entries_of add_field add_item
  parse_resource dict c = do
    field_entries ← entries_of dict (codes "fields")
    fields ← each add_field field_entries []
    item_entries ← entries_of dict (codes "items")
    items ← each add_item item_entries []
    read (record c {
      resources =
          c.resources
          ++ (record {
            name = text_or dict (codes "name") [];
            source = text_or dict (codes "source") [];
            path = text_or dict (codes "path") [];
            entitlement_code =
                to_unsigned_long
                  (or_old (json.get_integer dict (codes "entitlement_code")) (pos 0));
            fields = fields;
            items = items;
          })
            ∷ [];
    })

  -- a list of dictionaries
  unfoldable pub each_dict :
      (json.Dict → Config → Read Config) → json.Dict → Bytes → Config → Read Config
  each_dict parse dict name c = do
    list ← check (json.get_list dict name)
    each (λ value c'. check (json.as_dict value) >>= λ d. parse d c') list c

  -- the members in front of the sessions
  unfoldable pub first_members : json.Dict → Config → Config
  first_members dict c = record c {
    is_snmp_enabled = or_old (json.get_boolean dict (codes "is_snmp_enabled")) c.is_snmp_enabled;
    is_agentx_subagent =
        or_old (json.get_boolean dict (codes "is_agentx_subagent")) c.is_agentx_subagent;
    agentx_socket = text_or dict (codes "agentx_socket") c.agentx_socket;
    key = text_or dict (codes "key") c.key;
    service_name = text_or dict (codes "service_name") c.service_name;
    dacs_id = text_or dict (codes "dacs_id") c.dacs_id;
  }

  -- the members between the sessions and the resources
  unfoldable pub later_members : json.Dict → Config → Config
  later_members dict c = record c {
    monitor_name = text_or dict (codes "monitor_name") c.monitor_name;
    event_queue_name = text_or dict (codes "event_queue_name") c.event_queue_name;
    vendor_name = text_or dict (codes "vendor_name") c.vendor_name;
    maximum_data_size = text_or dict (codes "maximum_data_size") c.maximum_data_size;
    interval = text_or dict (codes "interval") c.interval;
    tolerable_delay = text_or dict (codes "tolerable_delay") c.tolerable_delay;
    retry_count = text_or dict (codes "retry_count") c.retry_count;
    retry_delay_ms = text_or dict (codes "retry_delay_ms") c.retry_delay_ms;
    retry_timeout_ms = text_or dict (codes "retry_timeout_ms") c.retry_timeout_ms;
    timeout_ms = text_or dict (codes "timeout_ms") c.timeout_ms;
    connect_timeout_ms = text_or dict (codes "connect_timeout_ms") c.connect_timeout_ms;
    enable_http_pipelining = text_or dict (codes "enable_http_pipelining") c.enable_http_pipelining;
    maximum_response_size = text_or dict (codes "maximum_response_size") c.maximum_response_size;
    minimum_response_size = text_or dict (codes "minimum_response_size") c.minimum_response_size;
    request_http_encoding = text_or dict (codes "request_http_encoding") c.request_http_encoding;
    time_offset_constant = text_or dict (codes "time_offset_constant") c.time_offset_constant;
    panic_threshold = text_or dict (codes "panic_threshold") c.panic_threshold;
    http_proxy = text_or dict (codes "http_proxy") c.http_proxy;
    dns_cache_timeout = text_or dict (codes "dns_cache_timeout") c.dns_cache_timeout;
    base_url = text_or dict (codes "base_url") c.base_url;
  }

  -- the body of `ParseConfig`, once both arrays are known to be there
  unfoldable pub parse_members : json.Dict → Config → Read Config
  unfolding each_dict parse_session parse_resource first_members later_members
  parse_members dict c = do
    c1 ← each_dict parse_session dict (codes "sessions") (first_members dict c)
    c2 ← each_dict parse_resource dict (codes "resources") (later_members dict c1)
    validated c2

  -- `ParseConfig`
  unfoldable pub parse_config : json.Dict → Config → Read Config
  unfolding parse_members
  parse_config dict c =
      if not (json.has_key dict (codes "sessions"))
      then failed
      else if not (json.has_key dict (codes "resources"))
      then failed
      else parse_members dict c

  parse_members-validate :
      (dict : json.Dict) (c c' : Config) → parse_members dict c ≡ read c' → validate c' ≡ true
  unfolding parse_members
  parse_members-validate dict c c' h =
      let (c1, _, h1) =
        bind-read (each_dict parse_session dict (codes "sessions") (first_members dict c)) _ h in
      let (c2, _, h2) =
        bind-read (each_dict parse_resource dict (codes "resources") (later_members dict c1)) _
          h1 in
      (validated-validate c2 c' h2).1

  pub parse_config-members :
      (dict : json.Dict) (c c' : Config)
      → parse_config dict c ≡ read c'
      → parse_members dict c ≡ read c'
  unfolding parse_config
  parse_config-members dict c c' = elim (Bool-cases (json.has_key dict (codes "sessions"))) [
    | inr e ↦ rw e (λ h. absurd (cc h))
    | inl e ↦ elim (Bool-cases (json.has_key dict (codes "resources"))) [
      | inr f ↦ rw (e, f) (λ h. absurd (cc h))
      | inl f ↦ rw (e, f) (λ h. h)
    ]
  ]

  pub parse_config-validate :
      (dict : json.Dict) (c c' : Config) → parse_config dict c ≡ read c' → validate c' ≡ true
  parse_config-validate dict c c' h =
      parse_members-validate dict c c' (parse_config-members dict c c' h)
