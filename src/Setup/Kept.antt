-- ===== src/Setup/Kept.antt =====
-- What a second <psych> node does to the resources of the first (src/config.cc, ParsePsychNode).
use psych.Prelude.{
  ◌<◌, Bool, true, false, not, List, [], ◌∷◌, ◌++◌, ◌≡◌, sym, ◌∙◌, ap, arith, is_empty, length,
  Bool-cases, inl, inr, if◌then◌else◌, All,
}
use mathlib.Core.Path.{subst}
use mathlib.Core.List.{append-nil, append_assoc}
use psych.Prelude.Int.{ℤ}
use psych.Prelude.Bytes.{Bytes, codes}
use psych.Config.{Resource, Config}
use psych.Setup.Dom.{Dom, Read, read, failed, each, bind-read, read_inj, each-keeps}
use psych.Setup.Feed.{
  clear_lists, psych_attributes, parse_link_node, parse_resource_lists, parse_resource_node,
  parse_psych_node, parse_field_node, parse_item_node,
}
use psych.Setup.Validate.{validate, IsResource, validate_iff}

-- The resources of the one configuration, and more behind them, are those of the other.
abbrev pub Extends : Config → Config → Type 0
Extends a b = (l : List Resource) × (b.resources ≡ a.resources ++ l)

Extends-refl : (a : Config) → Extends a a
Extends-refl a = ([], sym (append-nil a.resources))

Extends-trans : (a b c : Config) → Extends a b → Extends b c → Extends a c
Extends-trans a b c (l, e) (m, f) = (l ++ m, f ∙ ap (λ r. r ++ m) e ∙ append_assoc a.resources l m)

-- A read that four tests have let pass.
guarded :
    (w x y z : Bool) (m : Read Config) (b : Config)
    → (if not w
        then failed
        else if x
        then failed
        else if y
        then failed
        else if z
        then failed
        else m)
      ≡ read b
    → m ≡ read b
guarded false x y z m b h = cc
guarded true true y z m b h = cc
guarded true false true z m b h = cc
guarded true false false true m b h = cc
guarded true false false false m b h = h

module _ (dom : Dom) where
  parse_link_node-Extends :
      (name : Bytes) (fields : List (Bytes × ℤ)) (items : List (Bytes × (Bytes × Bytes)))
      (node : dom.Node) (a b : Config)
      → parse_link_node dom name fields items node a ≡ read b
      → Extends a b
  unfolding parse_link_node
  parse_link_node-Extends name fields items node a b h =
      let e =
        guarded (dom.has_attributes node) (is_empty (dom.attribute node (codes "rel")))
          (is_empty (dom.attribute node (codes "name")))
          (is_empty (dom.attribute node (codes "href"))) _ b h in
      (_, ap (λ (x : Config). x.resources) (sym (read_inj _ b e)))

  parse_resource_lists-Extends :
      (node : dom.Node) (name : Bytes) (a b : Config)
      → parse_resource_lists dom node name a ≡ read b
      → Extends a b
  unfolding parse_resource_lists
  parse_resource_lists-Extends node name a b h =
      let (fields, _, h1) =
        bind-read (each (parse_field_node dom) (dom.elements node (codes "field")) []) _ h in
      let (items, _, h2) =
        bind-read (each (parse_item_node dom) (dom.elements node (codes "item")) []) _ h1 in
      each-keeps Extends (parse_link_node dom name fields items) Extends-refl Extends-trans
        (parse_link_node-Extends name fields items) (dom.elements node (codes "link")) a b h2

  parse_resource_node-Extends :
      (node : dom.Node) (a b : Config) → parse_resource_node dom node a ≡ read b → Extends a b
  unfolding parse_resource_node
  parse_resource_node-Extends node a b = elim (Bool-cases (dom.has_attributes node)) [
    | inr e ↦ rw e (λ h. absurd (cc h))
    | inl e ↦ elim (Bool-cases (is_empty (dom.attribute node (codes "name")))) [
      | inl missing ↦ rw (e, missing) (λ h. absurd (cc h))
      | inr given ↦
          rw (e, given) (parse_resource_lists-Extends node (dom.attribute node (codes "name")) a b)
    ]
  ]

  cleared-ne-resource :
      (rs : List Resource) (l : List Resource)
      → 0 < length rs
      → All IsResource (clear_lists rs ++ l)
      → ⊥
  unfolding clear_lists
  cleared-ne-resource [] l h all = absurd (omega arith)
  cleared-ne-resource (r ∷ rs) l h (first, rest) = cc (first.fields)

  -- If a <psych> node is read when the configuration has resources already, as it has when it is not
  -- the first with resources, then the result does not pass the validation: the fields and items of
  -- the earlier resources are gone.
  pub parse_psych_node_again :
      (node : dom.Node) (c c' : Config)
      → 0 < length c.resources
      → parse_psych_node dom node c ≡ read c'
      → validate c' ≡ false
  unfolding parse_psych_node psych_attributes
  parse_psych_node_again node c c' more h =
      let (l, e) =
        each-keeps Extends (parse_resource_node dom) Extends-refl Extends-trans
          parse_resource_node-Extends (dom.elements node (codes "resource"))
          (psych_attributes dom node c) c' h in
      elim (Bool-cases (validate c')) [
        | inl valid ↦ absurd (
            cleared-ne-resource c.resources l more
              (subst (λ rs. All IsResource rs) e ((validate_iff c').0 valid).resources))
        | inr bad ↦ bad
      ]
