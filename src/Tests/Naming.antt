-- ===== src/Tests/Naming.antt =====
-- The map of field names: src/config.cc at three field nodes, of which two have the same name.
use psych.Prelude.{◌≡◌, ◌==◌, if◌then◌else◌, true, List, [], ◌∷◌, refl}
use psych.Prelude.Int.{ℤ, pos}
use psych.Prelude.Bytes.{Bytes, codes, equal, less, skip_space, digits_value}
use psych.Setup.Dom.{Dom, read, each}
use psych.Setup.Numbers.{stoi, signed_number}
use psych.Setup.Feed.{emplace, parse_field_node}
use psych.Setup.Names.{first_named, find_field-parsed}
use psych.Refresh.Fields.{find_field}

-- A node is its name and its id.
abbrev attribute : Bytes × Bytes → Bytes → Bytes
attribute (name, id) [] = []
attribute (name, id) (c ∷ rest) = if c == b'i' then id else name

abbrev dom : Dom
dom = record {
  Node = Bytes × Bytes;
  attribute = attribute;
  elements = λ n tag. [];
  text = λ n. [];
  has_attributes = λ n. true;
}

abbrev nodes : List (Bytes × Bytes)
nodes = (codes "Fear", codes "13") ∷ (codes "Buzz", codes "12") ∷ (codes "Fear", codes "14") ∷ []

abbrev fields : List (Bytes × ℤ)
fields = (codes "Buzz", pos 12) ∷ (codes "Fear", pos 13) ∷ []

parsed : each (parse_field_node dom) nodes [] ≡ read fields
unfolding parse_field_node emplace equal less stoi signed_number skip_space digits_value
parsed = refl

find_field-parsed_example : find_field (codes "Fear") fields ≡ first_named dom nodes (codes "Fear")
find_field-parsed_example = find_field-parsed dom nodes fields (codes "Fear") parsed
