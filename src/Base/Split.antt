-- ===== src/Base/Split.antt =====
-- `strings.Join`, and `strings.Split` at a one-character separator.
use holos_substrate.Base.Logic.{num_eq, if◌then◌else◌}
use holos_substrate.Base.Sequence.{All}
use holos_substrate.Base.Text.{Text}
use Prim.Native.Nat.{ℕ}
use mathlib.Core.Path.{◌≡◌, refl, ap, ◌∙◌}
use mathlib.Core.Bool.{false}
use mathlib.Core.List.{List, [], ◌∷◌, ◌++◌}
use native.Mathlib.Omega.{arith}

-- `strings.Join(parts, sep)`.
unfoldable pub join : List Text → Text → Text
join [] sep = []
join (p ∷ []) sep = p
join (p ∷ q ∷ ps) sep = p ++ (sep ++ join (q ∷ ps) sep)

abbrev extend : ℕ → List Text → List Text
extend c [] = (c ∷ []) ∷ []
extend c (p ∷ ps) = (c ∷ p) ∷ ps

-- `strings.Split(s, sep)`.
unfoldable pub split : Text → ℕ → List Text
split [] sep = [] ∷ []
split (c ∷ s) sep = let rest = split s sep in if num_eq c sep then [] ∷ rest else extend c rest

-- The character does not occur.
abbrev pub Lacks : ℕ → Text → Type 0
Lacks sep = All (λ c. num_eq c sep ≡ false)

split-of-Lacks : (p : Text) (sep : ℕ) → Lacks sep p → split p sep ≡ p ∷ []
unfolding split
split-of-Lacks [] sep h = refl
split-of-Lacks (c ∷ p) sep h = ground (arith, split-of-Lacks p sep h.1)

split-append :
    (p rest : Text) (sep : ℕ) → Lacks sep p → split (p ++ (sep ∷ rest)) sep ≡ p ∷ split rest sep
unfolding split
split-append [] rest sep h = ground arith
split-append (c ∷ p) rest sep h = ground (arith, split-append p rest sep h.1)

-- The parts come back from the joined text if there is one and none holds the separator.
pub split-join :
    (p : Text) (ps : List Text) (sep : ℕ)
    → All (Lacks sep) (p ∷ ps)
    → split (join (p ∷ ps) (sep ∷ [])) sep ≡ p ∷ ps
unfolding join
split-join p [] sep h = split-of-Lacks p sep h.0
split-join p (q ∷ ps) sep h =
    split-append p (join (q ∷ ps) (sep ∷ [])) sep h.0 ∙ ap (λ r. p ∷ r) (split-join q ps sep h.1)
