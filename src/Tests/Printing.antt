-- ===== src/Tests/Printing.antt =====
-- What Init logs of its configuration: the texts of src/config.hh.
use psych.Prelude.{◌≡◌, refl, [], ◌∷◌, ◌++◌}
use psych.Prelude.Int.{pos, negsuc}
use psych.Prelude.Bytes.{Bytes, codes}
use psych.Config.{empty_session, Resource, Config, join_servers}
use psych.Config.Print.{decimal, print_int, print_session, print_resource, print_config}

numbers : decimal 2013 ++ print_int (negsuc 41) ++ decimal 0 ≡ codes "2013-420"
unfolding decimal print_int
numbers = refl

session_printed :
    print_session (record empty_session { rssl_servers = codes "a" ∷ codes "b" ∷ [] })
    ≡ codes
        "{ \"session_name\": \"\", \"connection_name\": \"\", \"publisher_name\": \"\", \"rssl_servers\": [ \"a\", \"b\" ], \"rssl_default_port\": \"\", \"application_id\": \"\", \"instance_id\": \"\", \"user_name\": \"\", \"position\": \"\" }"
unfolding print_session join_servers
session_printed = refl

abbrev resource : Resource
resource = record {
  name = codes "n";
  source = codes "s";
  path = codes "p";
  entitlement_code = 2318;
  fields = (codes "Buzz", pos 4001) ∷ (codes "Fear", negsuc 0) ∷ [];
  items = (codes "1", (codes "RIC", codes "t")) ∷ [];
}

resource_printed :
    print_resource resource
    ≡ codes
        "{ \"name\": \"n\", \"source\": \"s\", \"path\": \"p\", \"entitlement_code\": 2318, \"fields\": { \"Buzz\": 4001, \"Fear\": -1 }, \"items\": { \"1\": { \"RIC\": \"RIC\", \"topic\": \"t\" } } }"
unfolding print_resource join_servers decimal print_int
resource_printed = refl

-- The path of the agent's log is the member that the text leaves out.
print_config-filelog :
    (c : Config) → (path : Bytes) → print_config (record c { snmp_filelog = path }) ≡ print_config c
unfolding print_config
print_config-filelog c path = refl
