-- ===== src/Setup/Loaded.antt =====
-- What a configuration that `ParseConfig` of src/config.cc returns has to do with the JSON that it was
-- read from: a description of its sessions and resources, value by value, without the loops.
use psych.Prelude.{some, List, [], ◌∷◌, ◌++◌, ◌≡◌, refl, sym, ap, ◌∙◌, true}
use mathlib.Core.Path.{subst}
use psych.Prelude.Int.{ℤ, pos}
use psych.Prelude.Bytes.{Bytes, codes}
use psych.Config.{SessionConfig, Resource, Config}
use psych.Refresh.Fields.{find_field}
use psych.Setup.Dom.{read, ◌>>=◌, each, bind-read, read_inj, each-keeps}
use psych.Setup.Feed.{emplace}
use psych.Setup.Validate.{validate}
use psych.Setup.Tree.{validated-validate}
use psych.Setup.Matched.{
  Matched, check-some, each-appended, emplace_all, each-emplaced, first_entry, find_none,
}
use psych.Setup.Json.{
  Json, check, or_old, to_unsigned_long, text_or, add_server, parse_session, add_field, add_item,
  entries_of, parse_resource, each_dict, first_members, later_members, parse_members, parse_config,
  parse_config-members,
}

module _ (json : Json) where
  -- A value of the array of sessions, and the session that it describes: its texts, and its servers
  -- in order.
  pub record SessionOf (v : json.Value) (s : SessionConfig) : Type 0 where
    pub dict : json.Dict
    pub is_dict : json.as_dict v ≡ some dict
    pub servers : List json.Value
    pub listed : json.get_list dict (codes "rssl_servers") ≡ some servers
    pub texts : Matched (λ w text. json.as_string w ≡ some text) servers s.rssl_servers
    pub session_name : s.session_name ≡ text_or json dict (codes "session_name") []
    pub connection_name : s.connection_name ≡ text_or json dict (codes "connection_name") []
    pub publisher_name : s.publisher_name ≡ text_or json dict (codes "publisher_name") []
    pub default_port : s.rssl_default_port ≡ text_or json dict (codes "rssl_default_port") []
    pub application_id : s.application_id ≡ text_or json dict (codes "application_id") []
    pub instance_id : s.instance_id ≡ text_or json dict (codes "instance_id") []
    pub user_name : s.user_name ≡ text_or json dict (codes "user_name") []
    pub position : s.position ≡ text_or json dict (codes "position") []

  -- an entry of the dictionary of fields, and one of that of items
  abbrev pub FieldOf : Bytes × json.Value → Bytes × ℤ → Type 0
  FieldOf (name, v) (k, id) = (k ≡ name) × (json.as_integer v ≡ some id)

  abbrev pub ItemOf : Bytes × json.Value → Bytes × (Bytes × Bytes) → Type 0
  ItemOf (sector, v) (k, (ric, topic)) =
      (k ≡ sector)
      × ((dict : json.Dict) × (json.as_dict v ≡ some dict)
          × (ric ≡ text_or json dict (codes "RIC") [])
          × (topic ≡ text_or json dict (codes "topic") []))

  -- The entries of a dictionary that is a member.
  pub record EntriesOf (dict : json.Dict) (name : Bytes) (entries : List (Bytes × json.Value))
      : Type 0 where
    pub value : json.Value
    pub found : json.get dict name ≡ some value
    pub inner : json.Dict
    pub is_dict : json.as_dict value ≡ some inner
    pub are_entries : json.entries inner ≡ entries

  -- A value of the array of resources, and the resource that it describes: a column has the FID of the
  -- first entry with its name, and the items are the entries, of which the first with a key stays.
  pub record ResourceOf (v : json.Value) (r : Resource) : Type 0 where
    pub dict : json.Dict
    pub is_dict : json.as_dict v ≡ some dict
    pub name : r.name ≡ text_or json dict (codes "name") []
    pub source : r.source ≡ text_or json dict (codes "source") []
    pub path : r.path ≡ text_or json dict (codes "path") []
    pub entitlement_code :
        r.entitlement_code
        ≡ to_unsigned_long (or_old (json.get_integer dict (codes "entitlement_code")) (pos 0))
    pub field_entries : List (Bytes × json.Value)
    pub fields_found : EntriesOf dict (codes "fields") field_entries
    pub fields : List (Bytes × ℤ)
    pub fields_matched : Matched FieldOf field_entries fields
    pub lookup : (column : Bytes) → find_field column r.fields ≡ first_entry fields column
    pub item_entries : List (Bytes × json.Value)
    pub items_found : EntriesOf dict (codes "items") item_entries
    pub items : List (Bytes × (Bytes × Bytes))
    pub items_matched : Matched ItemOf item_entries items
    pub emplaced : r.items ≡ emplace_all items []

  add_server-read :
      (w : json.Value) (a b : List Bytes)
      → add_server json w a ≡ read b
      → (x : Bytes) × (b ≡ a ++ x ∷ []) × (json.as_string w ≡ some x)
  unfolding add_server
  add_server-read w a b h =
      let (x, first, rest) = bind-read (check (json.as_string w)) _ h in
      (x, sym (read_inj (a ++ x ∷ []) b rest), check-some (json.as_string w) x first)

  parse_session-read :
      (v : json.Value) (a b : Config)
      → (check (json.as_dict v) >>= λ d. parse_session json d a) ≡ read b
      → (s : SessionConfig) × (b.sessions ≡ a.sessions ++ s ∷ []) × SessionOf v s
  unfolding parse_session
  parse_session-read v a b h =
      let (d, is_dict, h1) = bind-read (check (json.as_dict v)) _ h in
      let (list, listed, h2) = bind-read (check (json.get_list d (codes "rssl_servers"))) _ h1 in
      let (servers, looped, h3) = bind-read (each (add_server json) list []) _ h2 in
      let (xs, same, texts) =
        each-appended (λ (l : List Bytes). l) (λ w text. json.as_string w ≡ some text)
          (add_server json) add_server-read list [] servers looped in
      let same_config = read_inj _ b h3 in
      (
        _,
        ap (λ (c : Config). c.sessions) (sym same_config),
        record {
          dict = d;
          is_dict = check-some (json.as_dict v) d is_dict;
          servers = list;
          listed = check-some (json.get_list d (codes "rssl_servers")) list listed;
          texts =
              subst (λ l. Matched (λ w text. json.as_string w ≡ some text) list l) (sym same) texts;
          session_name = refl;
          connection_name = refl;
          publisher_name = refl;
          default_port = refl;
          application_id = refl;
          instance_id = refl;
          user_name = refl;
          position = refl;
        },
      )

  entries_of-read :
      (dict : json.Dict) (name : Bytes) (l : List (Bytes × json.Value))
      → entries_of json dict name ≡ read l
      → EntriesOf dict name l
  unfolding entries_of
  entries_of-read dict name l h =
      let (v, found, h1) = bind-read (check (json.get dict name)) _ h in
      let (d, is_dict, h2) = bind-read (check (json.as_dict v)) _ h1 in
      record {
        value = v;
        found = check-some (json.get dict name) v found;
        inner = d;
        is_dict = check-some (json.as_dict v) d is_dict;
        are_entries = read_inj (json.entries d) l h2;
      }

  add_field-read :
      (n : Bytes × json.Value) (a b : List (Bytes × ℤ))
      → add_field json n a ≡ read b
      → (e : Bytes × ℤ) × (emplace e.0 e.1 a ≡ b) × FieldOf n e
  unfolding add_field
  add_field-read (name, v) a b h =
      let (id, got, rest) = bind-read (check (json.as_integer v)) _ h in
      ((name, id), read_inj _ b rest, (refl, check-some (json.as_integer v) id got))

  add_item-read :
      (n : Bytes × json.Value) (a b : List (Bytes × (Bytes × Bytes)))
      → add_item json n a ≡ read b
      → (e : Bytes × (Bytes × Bytes)) × (emplace e.0 e.1 a ≡ b) × ItemOf n e
  unfolding add_item
  add_item-read (sector, v) a b h =
      let (d, got, rest) = bind-read (check (json.as_dict v)) _ h in
      (
        (sector, (text_or json d (codes "RIC") [], text_or json d (codes "topic") [])),
        read_inj _ b rest,
        (refl, (d, check-some (json.as_dict v) d got, refl, refl)),
      )

  parse_resource-read :
      (v : json.Value) (a b : Config)
      → (check (json.as_dict v) >>= λ d. parse_resource json d a) ≡ read b
      → (r : Resource) × (b.resources ≡ a.resources ++ r ∷ []) × ResourceOf v r
  unfolding parse_resource
  parse_resource-read v a b h =
      let (d, is_dict, h1) = bind-read (check (json.as_dict v)) _ h in
      let (fs, found_fields, h2) = bind-read (entries_of json d (codes "fields")) _ h1 in
      let (fields, looped_fields, h3) = bind-read (each (add_field json) fs []) _ h2 in
      let (is, found_items, h4) = bind-read (entries_of json d (codes "items")) _ h3 in
      let (items, looped_items, h5) = bind-read (each (add_item json) is []) _ h4 in
      let (pairs, same_fields, matched_fields) =
        each-emplaced FieldOf (add_field json) add_field-read fs [] fields looped_fields in
      let (triples, same_items, matched_items) =
        each-emplaced ItemOf (add_item json) add_item-read is [] items looped_items in
      let same_config = read_inj _ b h5 in
      (
        _,
        ap (λ (c : Config). c.resources) (sym same_config),
        record {
          dict = d;
          is_dict = check-some (json.as_dict v) d is_dict;
          name = refl;
          source = refl;
          path = refl;
          entitlement_code = refl;
          field_entries = fs;
          fields_found = entries_of-read d (codes "fields") fs found_fields;
          fields = pairs;
          fields_matched = matched_fields;
          lookup = λ column. ap (find_field column) (sym same_fields) ∙ find_none column pairs;
          item_entries = is;
          items_found = entries_of-read d (codes "items") is found_items;
          items = triples;
          items_matched = matched_items;
          emplaced = sym same_items;
        },
      )

  -- What the other loop leaves alone.
  session_keeps :
      (v : json.Value) (a b : Config)
      → (check (json.as_dict v) >>= λ d. parse_session json d a) ≡ read b
      → b.resources ≡ a.resources
  unfolding parse_session
  session_keeps v a b h =
      let (d, _, h1) = bind-read (check (json.as_dict v)) _ h in
      let (list, _, h2) = bind-read (check (json.get_list d (codes "rssl_servers"))) _ h1 in
      let (servers, _, h3) = bind-read (each (add_server json) list []) _ h2 in
      ap (λ (c : Config). c.resources) (sym (read_inj _ b h3))

  resource_keeps :
      (v : json.Value) (a b : Config)
      → (check (json.as_dict v) >>= λ d. parse_resource json d a) ≡ read b
      → b.sessions ≡ a.sessions
  unfolding parse_resource
  resource_keeps v a b h =
      let (d, _, h1) = bind-read (check (json.as_dict v)) _ h in
      let (fs, _, h2) = bind-read (entries_of json d (codes "fields")) _ h1 in
      let (fields, _, h3) = bind-read (each (add_field json) fs []) _ h2 in
      let (is, _, h4) = bind-read (entries_of json d (codes "items")) _ h3 in
      let (items, _, h5) = bind-read (each (add_item json) is []) _ h4 in
      ap (λ (c : Config). c.sessions) (sym (read_inj _ b h5))

  -- If `ParseConfig` succeeds, then the configuration passes the validation; behind the sessions that it
  -- had it has one for each value of the array of sessions, in order, with the texts and all the servers
  -- of the value, and behind its resources one for each value of the array of resources, in order, in
  -- which a column is looked up as the FID of the first entry of its name, and the items are all entries.
  pub parse_config-loaded :
      (dict : json.Dict) (c c' : Config)
      → parse_config json dict c ≡ read c'
      → (validate c' ≡ true)
        × ((vs : List json.Value) × (json.get_list dict (codes "sessions") ≡ some vs)
            × ((ss : List SessionConfig) × (c'.sessions ≡ c.sessions ++ ss)
                × Matched SessionOf vs ss))
        × ((vs : List json.Value) × (json.get_list dict (codes "resources") ≡ some vs)
            × ((rs : List Resource) × (c'.resources ≡ c.resources ++ rs)
                × Matched ResourceOf vs rs))
  unfolding parse_members each_dict first_members later_members
  parse_config-loaded dict c c' h =
      let whole = parse_config-members json dict c c' h in
      let (c1, first, h1) =
        bind-read
          (each_dict json (parse_session json) dict (codes "sessions") (first_members json dict c))
          _ whole in
      let (c2, second, h2) =
        bind-read
          (each_dict json (parse_resource json) dict (codes "resources")
            (later_members json dict c1))
          _ h1 in
      let (same, valid) = validated-validate c2 c' h2 in
      let (vs, listed, looped) =
        bind-read (check (json.get_list dict (codes "sessions"))) _ first in
      let (ws, listed', looped') =
        bind-read (check (json.get_list dict (codes "resources"))) _ second in
      let (ss, appended, matched) =
        each-appended (λ (x : Config). x.sessions) SessionOf _ parse_session-read vs
          (first_members json dict c) c1 looped in
      let (rs, appended', matched') =
        each-appended (λ (x : Config). x.resources) ResourceOf _ parse_resource-read ws
          (later_members json dict c1) c2 looped' in
      let kept =
        each-keeps (λ (a b : Config). b.resources ≡ a.resources) _ (λ a. refl) (λ x y z p q. q ∙ p)
          session_keeps vs (first_members json dict c) c1 looped in
      let kept' =
        each-keeps (λ (a b : Config). b.sessions ≡ a.sessions) _ (λ a. refl) (λ x y z p q. q ∙ p)
          resource_keeps ws (later_members json dict c1) c2 looped' in
      (
        valid,
        (
          vs,
          check-some (json.get_list dict (codes "sessions")) vs listed,
          (ss, ap (λ (x : Config). x.sessions) (sym same) ∙ kept' ∙ appended, matched),
        ),
        (
          ws,
          check-some (json.get_list dict (codes "resources")) ws listed',
          (
            rs,
            ap (λ (x : Config). x.resources) (sym same) ∙ appended' ∙ ap (λ l. l ++ rs) kept,
            matched',
          ),
        ),
      )
