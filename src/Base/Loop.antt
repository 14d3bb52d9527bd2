-- ===== src/Base/Loop.antt =====
-- A Go loop over a slice whose body changes the state and may end the function with an error.
use mathlib.Core.Path.{refl, subst}
use mathlib.Core.Option.{Option, none, some}
use mathlib.Core.List.{List, [], ◌∷◌}
use mathlib.Core.Logic.{inl, inr}
use native.Mathlib.Omega.{arith}
use holos_substrate.Base.Logic.{Option-cases}
use holos_substrate.Base.Sequence.{Has, here, there}

module _ {S : Type 0} {E : Type 0} {A : Type 0} where
  unfoldable pub each : (A → S → Option E × S) → List A → S → Option E × S
  each step [] s = (none, s)
  each step (a ∷ rest) s =
      let (e, next) = step a s in elim e [ some x ↦ (some x, next) | none ↦ each step rest next ]

  -- A property that every step keeps holds after the loop, also after one that an error ends.
  pub each-keeps :
      (P : S → Type 0) (step : A → S → Option E × S) (xs : List A) (s : S)
      → ((a : A) → Has a xs → (at : S) → P at → P (step a at).1)
      → P s
      → P (each step xs s).1
  unfolding each
  each-keeps P step [] s h p = p
  each-keeps P step (a ∷ xs) s h p =
      let next = (step a s).1 in
      let q = h a (here refl) s p in
      elim (Option-cases (step a s).0) [
        | inr (x, e) ↦ subst P {x = next} (ground arith) q
        | inl e ↦
            subst P {x = (each step xs next).1} (ground arith)
              (each-keeps P step xs next (λ b m. h b (there m)) q)
      ]

-- One step and then the other, unless the first ends with an error.
unfoldable pub then_step :
    {S : Type 0} {E : Type 0} → (S → Option E × S) → (S → Option E × S) → S → Option E × S
then_step f g s = let (e, next) = f s in elim e [ some x ↦ (some x, next) | none ↦ g next ]

pub then_step-keeps :
    {S : Type 0} {E : Type 0} (P : S → Type 0) (f g : S → Option E × S) (s : S)
    → ((at : S) → P at → P (f at).1)
    → ((at : S) → P at → P (g at).1)
    → P s
    → P (then_step f g s).1
unfolding then_step
then_step-keeps P f g s hf hg p = elim (Option-cases (f s).0) [
  | inr (x, e) ↦ subst P {x = (f s).1} (ground arith) (hf s p)
  | inl e ↦ subst P {x = (g (f s).1).1} (ground arith) (hg (f s).1 (hf s p))
]
