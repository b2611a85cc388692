-- ===== src/Prelude/Split.antt =====
-- Texts with a separator between them, and a text split at a separator.
use Prim.Native.Nat.{ℕ}
use mathlib.Core.Path.{◌≡◌, refl}
use mathlib.Core.Bool.{Bool, true, false, ◌&&◌}
use mathlib.Core.List.{List, [], ◌∷◌, ◌++◌}
use mathlib.Core.List.{append-nil}
use mathlib.Core.Logic.{inl, inr}
use psych.Prelude.Tests.{◌==◌, if◌then◌else◌, ==_iff, Bool-cases}
use psych.Prelude.Lists.{All}
use psych.Prelude.Bytes.{Bytes}

-- behind the first text
unfoldable pub later_texts : Bytes → List Bytes → Bytes
later_texts mark [] = []
later_texts mark (s ∷ rest) = mark ++ (s ++ later_texts mark rest)

unfoldable pub join_with : Bytes → List Bytes → Bytes
unfolding later_texts
join_with mark [] = []
join_with mark (s ∷ rest) = s ++ later_texts mark rest

-- the pieces between the separators: the first, and the others
abbrev pub cut : Bool → ℕ → Bytes × List Bytes → Bytes × List Bytes
cut true c (first, rest) = ([], first ∷ rest)
cut false c (first, rest) = (c ∷ first, rest)

unfoldable pub pieces : ℕ → Bytes → Bytes × List Bytes
pieces mark [] = ([], [])
pieces mark (c ∷ s) = cut (c == mark) c (pieces mark s)

unfoldable pub split : ℕ → Bytes → List Bytes
unfolding pieces
split mark s = (pieces mark s).0 ∷ (pieces mark s).1

-- A text in which a byte does not stand.
abbrev pub lacks : ℕ → Bytes → Bool
lacks mark [] = true
lacks mark (c ∷ s) = (if c == mark then false else true) && lacks mark s

pieces-lacks :
    (mark : ℕ) (s t : Bytes)
    → lacks mark s ≡ true
    → pieces mark (s ++ t) ≡ (s ++ (pieces mark t).0, (pieces mark t).1)
unfolding pieces
pieces-lacks mark [] t h = refl
pieces-lacks mark (c ∷ s) t h = elim (Bool-cases (c == mark)) [
  | inl e ↦ absurd (cc (rw e at h))
  | inr e ↦ rw (e, pieces-lacks mark s t (rw e at h)) refl
]

pieces-later_texts :
    (mark : ℕ) (rest : List Bytes)
    → All (λ x. lacks mark x ≡ true) rest
    → pieces mark (later_texts (mark ∷ []) rest) ≡ ([], rest)
unfolding pieces later_texts
pieces-later_texts mark [] hs = refl
pieces-later_texts mark (s ∷ rest) (h, hs) =
    let same : (mark == mark) ≡ true = (==_iff mark mark).1 refl in
    rw (same, pieces-lacks mark s (later_texts (mark ∷ []) rest) h, pieces-later_texts mark rest hs)
      (rw append-nil refl)

-- Texts that lack the separator are the pieces of what they are joined to.
pub split-join_with :
    (mark : ℕ) (s : Bytes) (rest : List Bytes)
    → All (λ x. lacks mark x ≡ true) (s ∷ rest)
    → split mark (join_with (mark ∷ []) (s ∷ rest)) ≡ s ∷ rest
unfolding join_with split
split-join_with mark s rest (h, hs) =
    rw (pieces-lacks mark s (later_texts (mark ∷ []) rest) h, pieces-later_texts mark rest hs)
      (rw append-nil refl)
