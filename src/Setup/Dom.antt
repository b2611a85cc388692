-- ===== src/Setup/Dom.antt =====
-- The DOM that src/config.cc reads, as an interface, and the shape of its parsers.
use mathlib.Core.Path.{subst}
use psych.Prelude.{Bool, List, [], ◌∷◌, ◌≡◌, refl, if◌then◌else◌, is_empty}
use psych.Prelude.Bytes.{Bytes}

-- Nodes, with `getAttribute` (empty where there is none), `getElementsByTagName`, `getTextContent` and
-- `hasAttributes`, and their texts transcoded.
pub record Dom : Type 1 where
  pub Node : Type 0
  pub attribute : Node → Bytes → Bytes
  pub elements : Node → Bytes → List Node
  pub text : Node → Bytes
  pub has_attributes : Node → Bool

-- How a parser ends: true with what it has read, false, or an exception or a failed CHECK. What was read before a
-- failure is dropped: the caller gives up.
pub data Read {ℓ} (A : Type ℓ) : Type ℓ where
  read : A → Read A
  failed raised : Read A

infixl 5 ◌>>=◌
abbrev pub ◌>>=◌ {ℓ κ} : {A : Type ℓ} {B : Type κ} → Read A → (A → Read B) → Read B
read a >>= f = f a
failed >>= f = failed
raised >>= f = raised

-- The loop over a node list.
abbrev pub each {ℓ κ} : {N : Type ℓ} {A : Type κ} → (N → A → Read A) → List N → A → Read A
each f [] a = read a
each f (n ∷ rest) a = f n a >>= λ a'. each f rest a'

-- `if (!attr.empty()) member = attr`
abbrev pub override : Bytes → Bytes → Bytes
override attr old = if is_empty attr then old else attr

pub bind-read {ℓ κ} :
    {A : Type ℓ} {B : Type κ} (m : Read A) (f : A → Read B) {b : B}
    → (m >>= f) ≡ read b
    → (a : A) × (m ≡ read a) × (f a ≡ read b)
bind-read (read a) f h = (a, refl, h)
bind-read failed f h = cc
bind-read raised f h = cc

pub read_inj {ℓ} : {A : Type ℓ} (a b : A) → read a ≡ read b → a ≡ b
read_inj a b h = cc h

-- What every step of a loop keeps, the loop keeps.
pub each-keeps {ℓ κ μ} :
    {N : Type ℓ} {A : Type κ} (K : A → A → Type μ) (f : N → A → Read A)
    → ((a : A) → K a a)
    → ((a b c : A) → K a b → K b c → K a c)
    → ((n : N) (a b : A) → f n a ≡ read b → K a b)
    → (l : List N) (a b : A) → each f l a ≡ read b
    → K a b
each-keeps K f stays joins step [] a b h = subst (λ x. K a x) (read_inj a b h) (stays a)
each-keeps K f stays joins step (n ∷ l) a b h =
    let (x, first, later) = bind-read (f n a) (each f l) h in
    joins a x b (step n a x first) (each-keeps K f stays joins step l x b later)
