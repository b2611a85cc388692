-- ===== src/Setup/Tree.antt =====
-- The <config> node and the whole tree: `ParseConfigNode` and `ParseDomElement` of src/config.cc.
use psych.Prelude.{◌≡◌, true, if◌then◌else◌, Bool-cases, inl, inr}
use mathlib.Core.Path.{subst}
use psych.Prelude.Bytes.{codes}
use psych.Config.{Config}
use psych.Setup.Dom.{Dom, Read, read, failed, ◌>>=◌, each, read_inj}
use psych.Setup.Rfa.{parse_snmp_node, parse_rfa_node}
use psych.Setup.Feed.{parse_psych_node}
use psych.Setup.Validate.{validate}

-- the end of both ways of reading
unfoldable pub validated : Config → Read Config
validated c = if validate c then read c else failed

pub validated-validate : (c c' : Config) → validated c ≡ read c' → (c ≡ c') × (validate c' ≡ true)
unfolding validated
validated-validate c c' = elim (Bool-cases (validate c)) [
  | inl e ↦
      rw e
        λ h. let same = read_inj c c' h in (same, subst (λ (x : Config). validate x ≡ true) same e)
  | inr e ↦ rw e (λ h. absurd (cc h))
]

module _ (dom : Dom) where
  -- `ParseConfigNode`
  unfoldable pub parse_config_node : dom.Node → Config → Read Config
  unfolding parse_snmp_node parse_rfa_node parse_psych_node
  parse_config_node node c = do
    c1 ← each (parse_snmp_node dom) (dom.elements node (codes "Snmp")) c
    c2 ← each (parse_rfa_node dom) (dom.elements node (codes "Rfa")) c1
    each (parse_psych_node dom) (dom.elements node (codes "psych")) c2

  -- `ParseDomElement`
  unfoldable pub parse_dom_element : dom.Node → Config → Read Config
  unfolding parse_config_node validated
  parse_dom_element root c =
      each parse_config_node (dom.elements root (codes "config")) c >>= validated
