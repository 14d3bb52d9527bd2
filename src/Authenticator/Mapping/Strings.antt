-- ===== src/Authenticator/Mapping/Strings.antt =====
-- What a mapping returns: strings of the expression's own result, never coerced values.
use holos_substrate.Base.{
  ℕ, zero, suc, ◌≡◌, ◌≢◌, ◌↔◌, refl, none, some, List, [], ◌∷◌, Result, ok, err, ◌>>=◌,
}
use holos_substrate.Base.Text.{Text}
use holos_substrate.Authenticator.Mapping.{
  RefVal, nil_val, string_val, slice, lister, other_val, RefVals, end, elem, GroupsError,
  element_to_string, slice_strings, lister_strings, ref_val_to_string_slice,
}

-- The slice holds exactly these strings in this order.
abbrev SliceOf : RefVals → List Text → Type 0
SliceOf end [] = Unit
SliceOf end (g ∷ gs) = ⊥
SliceOf (elem v vs) [] = ⊥
SliceOf (elem v vs) (g ∷ gs) = (v ≡ string_val g) × SliceOf vs gs

-- So do the `n` elements from index `i` on.
abbrev ElementsOf : ℕ → ℕ → (ℕ → RefVal) → List Text → Type 0
ElementsOf zero i get [] = Unit
ElementsOf zero i get (g ∷ gs) = ⊥
ElementsOf (suc n) i get [] = ⊥
ElementsOf (suc n) i get (g ∷ gs) = (get i ≡ string_val g) × ElementsOf n (suc i) get gs

-- The value is a list, in either representation, of exactly these strings in this order.
abbrev pub IsStringList : RefVal → List Text → Type 0
IsStringList (slice vs) gs = SliceOf vs gs
IsStringList (lister (some size) get) gs = ElementsOf size 0 get gs
IsStringList _ gs = ⊥

element_to_string_iff : (v : RefVal) (s : Text) → (element_to_string v ≡ ok s) ↔ (v ≡ string_val s)
unfolding element_to_string
element_to_string_iff (string_val t) s = (λ h. cc, λ h. cc)
element_to_string_iff nil_val s = (λ h. cc, λ h. cc)
element_to_string_iff (slice vs) s = (λ h. cc, λ h. cc)
element_to_string_iff (lister n get) s = (λ h. cc, λ h. cc)
element_to_string_iff other_val s = (λ h. cc, λ h. cc)

-- The `do` block of one element: it succeeds with the head and the rest, and with nothing else.
module _ (x : Result GroupsError Text) (y : Result GroupsError (List Text)) where
  abbrev both : Result GroupsError (List Text)
  both = x >>= λ s. y >>= λ r. ok (s ∷ r)

both-ne-nil : (x : Result GroupsError Text) (y : Result GroupsError (List Text)) → both x y ≢ ok []
both-ne-nil (ok s) (ok r) h = cc
both-ne-nil (ok s) (err e) h = cc
both-ne-nil (err e) y h = cc

both_iff :
    (x : Result GroupsError Text) (y : Result GroupsError (List Text)) (g : Text) (gs : List Text)
    → (both x y ≡ ok (g ∷ gs)) ↔ ((x ≡ ok g) × (y ≡ ok gs))
both_iff (ok s) (ok r) g gs = (λ h. (cc, cc), λ (a, b). cc)
both_iff (ok s) (err e) g gs = (λ h. cc, λ (a, b). cc)
both_iff (err e) y g gs = (λ h. cc, λ (a, b). cc)

slice_strings_iff : (vs : RefVals) (gs : List Text) → (slice_strings vs ≡ ok gs) ↔ SliceOf vs gs
unfolding slice_strings
slice_strings_iff end [] = (λ h. tt, λ h. refl)
slice_strings_iff end (g ∷ gs) = (λ h. cc, λ h. absurd h)
slice_strings_iff (elem v vs) [] =
    (both-ne-nil (element_to_string v) (slice_strings vs), λ h. absurd h)
slice_strings_iff (elem v vs) (g ∷ gs) =
    let parts = both_iff (element_to_string v) (slice_strings vs) g gs in
    let head = element_to_string_iff v g in
    let rest = slice_strings_iff vs gs in
    (λ h. let (a, b) = parts.0 h in (head.0 a, rest.0 b), λ (a, b). parts.1 (head.1 a, rest.1 b))

lister_strings_iff :
    (n i : ℕ) (get : ℕ → RefVal) (gs : List Text)
    → (lister_strings n i get ≡ ok gs) ↔ ElementsOf n i get gs
unfolding lister_strings
lister_strings_iff zero i get [] = (λ h. tt, λ h. refl)
lister_strings_iff zero i get (g ∷ gs) = (λ h. cc, λ h. absurd h)
lister_strings_iff (suc n) i get [] =
    (both-ne-nil (element_to_string (get i)) (lister_strings n (suc i) get), λ h. absurd h)
lister_strings_iff (suc n) i get (g ∷ gs) =
    let parts = both_iff (element_to_string (get i)) (lister_strings n (suc i) get) g gs in
    let head = element_to_string_iff (get i) g in
    let rest = lister_strings_iff n (suc i) get gs in
    (λ h. let (a, b) = parts.0 h in (head.0 a, rest.0 b), λ (a, b). parts.1 (head.1 a, rest.1 b))

-- A CEL result becomes groups exactly if it is a list, in either of its two representations, whose
-- elements are all strings, and then the groups are those strings in order: a number, a boolean, a
-- nested list or a nil element is never coerced into a group name, nor skipped.
pub ref_val_to_string_slice_iff :
    (v : RefVal) (gs : List Text) → (ref_val_to_string_slice v ≡ ok gs) ↔ IsStringList v gs
unfolding ref_val_to_string_slice
ref_val_to_string_slice_iff (slice vs) gs = slice_strings_iff vs gs
ref_val_to_string_slice_iff (lister (some n) get) gs = lister_strings_iff n 0 get gs
ref_val_to_string_slice_iff (lister none get) gs = (λ h. cc, λ h. absurd h)
ref_val_to_string_slice_iff nil_val gs = (λ h. cc, λ h. absurd h)
ref_val_to_string_slice_iff (string_val s) gs = (λ h. cc, λ h. absurd h)
ref_val_to_string_slice_iff other_val gs = (λ h. cc, λ h. absurd h)
