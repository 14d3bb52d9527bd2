-- ===== src/Base/Strip.antt =====
-- A text that stripping leaves alone is left alone by stripping fewer characters.
use Prim.Native.Nat.{ℕ, suc, ◌≤◌}
use mathlib.Core.Path.{◌≡◌, refl, sym, ap, ◌∙◌}
use mathlib.Core.Logic.{inl, inr}
use mathlib.Core.Bool.{Bool, true}
use mathlib.Core.List.{[], ◌∷◌, ◌++◌, reverse, reverse-cons, reverse-reverse}
use native.Mathlib.Omega.{arith}
use holos_substrate.Base.Logic.{Bool-cases}
use holos_substrate.Base.Sequence.{length}
use holos_substrate.Base.Text.{Text, drop_while, strip}

length-concat : (xs : Text) (c : ℕ) → length (xs ++ (c ∷ [])) ≡ suc (length xs)
length-concat [] c = refl
length-concat (x ∷ xs) c = ap suc (length-concat xs c)

length-reverse : (xs : Text) → length (reverse xs) ≡ length xs
length-reverse [] = refl
length-reverse (x ∷ xs) =
    rw reverse-cons (length-concat (reverse xs) x ∙ ap suc (length-reverse xs))

module _ (p : ℕ → Bool) where
  length-drop_while : (s : Text) → length (drop_while p s) ≤ length s
  unfolding drop_while
  length-drop_while [] = omega arith
  length-drop_while (c ∷ s) = ground (arith, length-drop_while s)

  drop_while-shorter : (c : ℕ) (s : Text) → p c ≡ true → length (drop_while p (c ∷ s)) ≤ length s
  unfolding drop_while
  drop_while-shorter c s h = ground (arith, length-drop_while s)

  drop_while-fixed : (s : Text) → length s ≤ length (drop_while p s) → drop_while p s ≡ s
  unfolding drop_while
  drop_while-fixed [] h = refl
  drop_while-fixed (c ∷ s) h = ground (arith, length-drop_while s)

  strip-parts :
      (s : Text) → strip p s ≡ s → (drop_while p s ≡ s) × (drop_while p (reverse s) ≡ reverse s)
  unfolding strip
  strip-parts s h = (front, drop_while-fixed (reverse s) back)
    where
      lengths : length s ≡ length (drop_while p (reverse (drop_while p s)))
      lengths = ap length (sym h) ∙ length-reverse _

      front : drop_while p s ≡ s
      front = drop_while-fixed s (
          omega (
            arith,
            lengths,
            length-drop_while (reverse (drop_while p s)),
            length-reverse (drop_while p s),
          ))

      back : length (reverse s) ≤ length (drop_while p (reverse s))
      back = omega (arith, length-reverse s, rw front at lengths)

module _ (p q : ℕ → Bool) (weaker : (c : ℕ) → q c ≡ true → p c ≡ true) where
  drop_while-fixed_of_weaker : (s : Text) → drop_while p s ≡ s → drop_while q s ≡ s
  drop_while-fixed_of_weaker [] h = unfold drop_while in refl
  drop_while-fixed_of_weaker (c ∷ s) h = elim (Bool-cases (q c)) [
    | inl e ↦ absurd (omega (arith, drop_while-shorter p c s (weaker c e), ap length h))
    | inr e ↦ unfold drop_while in rw e refl
  ]

  pub strip-fixed_of_weaker : (s : Text) → strip p s ≡ s → strip q s ≡ s
  strip-fixed_of_weaker s h =
      let (front, back) = strip-parts p s h in
      unfold strip in
      rw (drop_while-fixed_of_weaker s front, drop_while-fixed_of_weaker (reverse s) back)
        (reverse-reverse s)
