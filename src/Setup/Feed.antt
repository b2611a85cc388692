-- ===== src/Setup/Feed.antt =====
-- The <psych> node: `ParsePsychNode` to `ParseItemNode` of src/config.cc.
use psych.Prelude.{not, Option, none, some, List, [], ◌∷◌, ◌++◌, if◌then◌else◌, is_empty}
use psych.Prelude.Int.{ℤ}
use psych.Prelude.Bytes.{Bytes, codes, equal, less}
use psych.Config.{Resource, Config}
use psych.Setup.Dom.{Dom, Read, read, failed, raised, ◌>>=◌, each, override}
use psych.Setup.Numbers.{stoi, strtoul}

-- `std::map::emplace`: the keys in order, a key that is there already keeps its value
unfoldable pub emplace {ℓ} : {V : Type ℓ} → Bytes → V → List (Bytes × V) → List (Bytes × V)
unfolding equal less
emplace k v [] = (k, v) ∷ []
emplace k v ((j, w) ∷ rest) =
    let later = emplace k v rest in
    if equal k j then (j, w) ∷ rest else if less k j then (k, v) ∷ (j, w) ∷ rest else (j, w) ∷ later

-- what `stoi` yields, which may throw
abbrev pub with_id : Bytes → Option ℤ → List (Bytes × ℤ) → Read (List (Bytes × ℤ))
with_id name none fields = raised
with_id name (some id) fields = read (emplace name id fields)

unfoldable pub clear_lists : List Resource → List Resource
clear_lists [] = []
clear_lists (r ∷ rest) = record r { fields = []; items = [] } ∷ clear_lists rest

module _ (dom : Dom) where
  -- `ParseFieldNode`, and the field in the map
  unfoldable pub parse_field_node : dom.Node → List (Bytes × ℤ) → Read (List (Bytes × ℤ))
  unfolding emplace stoi
  parse_field_node node fields =
      let name = dom.attribute node (codes "name") in
      let id_text = dom.attribute node (codes "id") in
      if not (dom.has_attributes node)
      then failed
      else if is_empty name
      then failed
      else if is_empty id_text
      then failed
      else with_id name (stoi id_text) fields

  -- `ParseItemNode`, and the item in the map
  unfoldable pub parse_item_node :
      dom.Node → List (Bytes × (Bytes × Bytes)) → Read (List (Bytes × (Bytes × Bytes)))
  unfolding emplace
  parse_item_node node items =
      let name = dom.attribute node (codes "name") in
      let topic = dom.attribute node (codes "topic") in
      let src = dom.attribute node (codes "src") in
      if not (dom.has_attributes node)
      then failed
      else if is_empty name
      then failed
      else if is_empty topic
      then failed
      else if is_empty src
      then failed
      else read (emplace src (name, topic) items)

  -- `ParseLinkNode`, and the resource of the link
  unfoldable pub parse_link_node :
      Bytes → List (Bytes × ℤ) → List (Bytes × (Bytes × Bytes)) → dom.Node → Config → Read Config
  unfolding strtoul
  parse_link_node name fields items node c =
      let rel = dom.attribute node (codes "rel") in
      let source = dom.attribute node (codes "name") in
      let href = dom.attribute node (codes "href") in
      let id_text = dom.attribute node (codes "id") in
      let resource : Resource = record {
        name = name;
        source = source;
        path = href;
        entitlement_code = if is_empty id_text then 0 else strtoul id_text;
        fields = fields;
        items = items;
      } in
      if not (dom.has_attributes node)
      then failed
      else if is_empty rel
      then failed
      else if is_empty source
      then failed
      else if is_empty href
      then failed
      else read (record c { resources = c.resources ++ resource ∷ [] })

  -- the three loops of `ParseResourceNode`
  unfoldable pub parse_resource_lists : dom.Node → Bytes → Config → Read Config
  unfolding parse_field_node parse_item_node parse_link_node
  parse_resource_lists node name c = do
    fields ← each parse_field_node (dom.elements node (codes "field")) []
    items ← each parse_item_node (dom.elements node (codes "item")) []
    each (parse_link_node name fields items) (dom.elements node (codes "link")) c

  -- `ParseResourceNode`
  unfoldable pub parse_resource_node : dom.Node → Config → Read Config
  unfolding parse_resource_lists
  parse_resource_node node c =
      let name = dom.attribute node (codes "name") in
      if not (dom.has_attributes node)
      then failed
      else if is_empty name
      then failed
      else parse_resource_lists node name c

  -- the attributes of <psych>
  unfoldable pub psych_attributes : dom.Node → Config → Config
  psych_attributes node c = record c {
    interval = override (dom.attribute node (codes "interval")) c.interval;
    tolerable_delay = override (dom.attribute node (codes "tolerableDelay")) c.tolerable_delay;
    retry_count = override (dom.attribute node (codes "retryCount")) c.retry_count;
    retry_delay_ms = override (dom.attribute node (codes "retryDelayMs")) c.retry_delay_ms;
    retry_timeout_ms = override (dom.attribute node (codes "retryTimeoutMs")) c.retry_timeout_ms;
    timeout_ms = override (dom.attribute node (codes "timeoutMs")) c.timeout_ms;
    connect_timeout_ms =
        override (dom.attribute node (codes "connectTimeoutMs")) c.connect_timeout_ms;
    enable_http_pipelining =
        override (dom.attribute node (codes "enableHttpPipelining")) c.enable_http_pipelining;
    maximum_response_size =
        override (dom.attribute node (codes "maximumResponseSize")) c.maximum_response_size;
    minimum_response_size =
        override (dom.attribute node (codes "minimumResponseSize")) c.minimum_response_size;
    request_http_encoding =
        override (dom.attribute node (codes "requestHttpEncoding")) c.request_http_encoding;
    time_offset_constant =
        override (dom.attribute node (codes "timeOffsetConstant")) c.time_offset_constant;
    panic_threshold = override (dom.attribute node (codes "panicThreshold")) c.panic_threshold;
    http_proxy = override (dom.attribute node (codes "httpProxy")) c.http_proxy;
    dns_cache_timeout = override (dom.attribute node (codes "dnsCacheTimeout")) c.dns_cache_timeout;
    base_url = override (dom.attribute node (codes "href")) c.base_url;
    resources = clear_lists c.resources;
  }

  -- `ParsePsychNode`
  unfoldable pub parse_psych_node : dom.Node → Config → Read Config
  unfolding psych_attributes parse_resource_node
  parse_psych_node node c =
      each parse_resource_node (dom.elements node (codes "resource")) (psych_attributes node c)
