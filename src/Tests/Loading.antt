-- ===== src/Tests/Loading.antt =====
-- Reading a configuration from JSON: src/config.cc, ParseConfig, at a small dictionary.
use psych.Prelude.{ℕ, ◌≡◌, true, none, some, List, [], ◌∷◌, refl}
use psych.Prelude.Int.{pos}
use psych.Prelude.Bytes.{equal, less, atol, skip_space, digits_value}
use psych.Config.{SessionConfig, Resource, Config, default_config}
use psych.Setup.Validate.{validate, sessions_ok, session_ok, resources_ok, resource_ok, size_ok}
use psych.Setup.Dom.{read}
use psych.Setup.Feed.{emplace}
use psych.Setup.Tree.{validated}
use psych.Setup.Json.{
  Json, parse_config, parse_members, each_dict, parse_session, parse_resource, add_server,
  add_field, add_item, entries_of, first_members, later_members,
}
use psych.Setup.Matched.{Matched}
use psych.Setup.Loaded.{SessionOf, ResourceOf, parse_config-loaded}
use psych.Tests.Configuring.{full, t}

-- Every text of the dictionaries reads 77, and every list has one element.
abbrev pub values : Json
values = record {
  Dict = ℕ;
  Value = ℕ;
  has_key = λ d name. true;
  get = λ d name. some d;
  get_string = λ d name. some t;
  get_boolean = λ d name. none;
  get_integer = λ d name. some (pos 77);
  get_list = λ d name. some (d ∷ []);
  as_dict = λ v. some v;
  as_string = λ v. some t;
  as_integer = λ v. some (pos 77);
  entries = λ d. (t, d) ∷ [];
}

abbrev loaded : Config
loaded = record full { agentx_socket = t; dacs_id = t }

loads : parse_config values 0 default_config ≡ read loaded
unfolding parse_config parse_members each_dict parse_session parse_resource add_server add_field
    add_item entries_of first_members later_members validated validate sessions_ok session_ok
    resources_ok resource_ok size_ok atol skip_space digits_value emplace equal less
loads = refl

parse_config-loaded_example :
    (validate loaded ≡ true)
    × ((vs : List ℕ) × (some (0 ∷ []) ≡ some vs)
        × ((ss : List SessionConfig) × (loaded.sessions ≡ ss) × Matched (SessionOf values) vs ss))
    × ((vs : List ℕ) × (some (0 ∷ []) ≡ some vs)
        × ((rs : List Resource) × (loaded.resources ≡ rs) × Matched (ResourceOf values) vs rs))
parse_config-loaded_example = parse_config-loaded values 0 default_config loaded loads
