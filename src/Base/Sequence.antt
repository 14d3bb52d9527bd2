-- ===== src/Base/Sequence.antt =====
-- Lists measured by native numbers, and the tests and predicates on their elements.
use Prim.Native.Nat.{ℕ, suc}
use mathlib.Core.Path.{◌≡◌, refl, sym, subst}
use mathlib.Core.Bool.{Bool, true, false, ◌||◌}
use mathlib.Core.Logic.{inl, inr}
use mathlib.Core.List.{List, [], ◌∷◌}
use native.Mathlib.Omega.{arith}
use holos_substrate.Base.Logic.{Bool-cases}

module _ {ℓ} {A : Type ℓ} where
  abbrev pub length : List A → ℕ
  length [] = 0
  length (x ∷ xs) = suc (length xs)

  -- A Go loop that returns true at the first element that passes.
  unfoldable pub some_of : (A → Bool) → List A → Bool
  some_of p [] = false
  some_of p (x ∷ xs) = p x || some_of p xs

  abbrev pub All {κ} : (A → Type κ) → List A → Type κ
  All P [] = Unit
  All P (x ∷ xs) = P x × All P xs

-- Membership with its position.
pub data Has {ℓ} {A : Type ℓ} (a : A) : List A → Type ℓ where
  here : {x : A} {xs : List A} → a ≡ x → Has a (x ∷ xs)
  there : {x : A} {xs : List A} → Has a xs → Has a (x ∷ xs)

module _ {ℓ} {A : Type ℓ} where
  pub some_of-of-Has :
      (p : A → Bool) (xs : List A) {x : A} → Has x xs → p x ≡ true → some_of p xs ≡ true
  unfolding some_of
  some_of-of-Has p [] m h = elim m [ ]
  some_of-of-Has p (y ∷ ys) (here e) h = rw (← e) (rw h)
  some_of-of-Has p (y ∷ ys) (there m) h = ground (arith, some_of-of-Has p ys m h)

  pub Has-of-some_of :
      (p : A → Bool) (xs : List A) → some_of p xs ≡ true → (x : A) × Has x xs × (p x ≡ true)
  unfolding some_of
  Has-of-some_of p [] h = cc
  Has-of-some_of p (y ∷ ys) h = elim (Bool-cases (p y)) [
    | inl e ↦ (y, here refl, e)
    | inr e ↦ let (x, m, hx) = Has-of-some_of p ys (ground arith) in (x, there m, hx)
  ]

  pub All-of-Has {κ} : (P : A → Type κ) (xs : List A) {x : A} → All P xs → Has x xs → P x
  All-of-Has P [] h m = elim m [ ]
  All-of-Has P (y ∷ ys) h (here e) = subst P (sym e) h.0
  All-of-Has P (y ∷ ys) h (there m) = All-of-Has P ys h.1 m

  pub All-intro {κ} : (P : A → Type κ) (xs : List A) → ((x : A) → Has x xs → P x) → All P xs
  All-intro P [] h = tt
  All-intro P (x ∷ xs) h = (h x (here refl), All-intro P xs (λ y m. h y (there m)))
