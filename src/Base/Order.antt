-- ===== src/Base/Order.antt =====
-- Go's `<` on strings, which is lexicographic, and `sort.Strings`.
use Prim.Native.Nat.{compare, Ordering}
use mathlib.Core.Path.{◌≡◌, refl}
use mathlib.Core.Bool.{Bool, true, false}
use mathlib.Core.List.{List, [], ◌∷◌}
use native.Mathlib.Omega.{arith}
use holos_substrate.Base.Logic.{if◌then◌else◌}
use holos_substrate.Base.Text.{Text}

unfoldable pub precedes : Text → Text → Bool
precedes [] [] = false
precedes [] (y ∷ ys) = true
precedes (x ∷ xs) [] = false
precedes (x ∷ xs) (y ∷ ys) = elim (compare x y) [
  | Ordering.lt ↦ true
  | Ordering.gt ↦ false
  | Ordering.eq ↦ precedes xs ys
]

-- `sort.Strings`, by insertion.
unfoldable pub insert_string : Text → List Text → List Text
unfolding precedes
insert_string k [] = k ∷ []
insert_string k (j ∷ ks) =
    let rest = insert_string k ks in if precedes j k then j ∷ rest else k ∷ j ∷ ks

unfoldable pub sort_strings : List Text → List Text
unfolding insert_string
sort_strings [] = []
sort_strings (k ∷ ks) = insert_string k (sort_strings ks)

pub precedes_irrefl : (a : Text) → precedes a a ≡ false
unfolding precedes
precedes_irrefl [] = refl
precedes_irrefl (x ∷ xs) = ground (arith, precedes_irrefl xs)

pub precedes_trans :
    (a b c : Text) → precedes a b ≡ true → precedes b c ≡ true → precedes a c ≡ true
unfolding precedes
precedes_trans [] [] [] h k = cc
precedes_trans [] (y ∷ ys) [] h k = cc
precedes_trans [] b (z ∷ zs) h k = refl
precedes_trans (x ∷ xs) [] c h k = cc
precedes_trans (x ∷ xs) (y ∷ ys) [] h k = cc
precedes_trans (x ∷ xs) (y ∷ ys) (z ∷ zs) h k = ground (arith, precedes_trans xs ys zs)

pub precedes_total : (a b : Text) → precedes a b ≡ false → precedes b a ≡ false → a ≡ b
unfolding precedes
precedes_total [] [] h k = refl
precedes_total [] (y ∷ ys) h k = cc
precedes_total (x ∷ xs) [] h k = cc
precedes_total (x ∷ xs) (y ∷ ys) h k = ground (arith, precedes_total xs ys)
