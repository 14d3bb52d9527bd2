-- ===== src/Base/Text.antt =====
-- Go strings as lists of code points, and what the program uses of the package `strings`.
-- Case folding is that of ASCII, and white space is that of Unicode (`unicode.IsSpace`).
use Prim.Native.Nat.{ℕ, ◌+◌}
use Prim.Native.Char.{code}
use Prim.Native.String.{String}
use mathlib.Core.Path.{◌≡◌, refl}
use mathlib.Core.Logic.{◌↔◌}
use mathlib.Core.Bool.{Bool, true, false, ◌&&◌, ◌||◌}
use mathlib.Core.List.{List, [], ◌∷◌, ◌++◌, map, reverse}
use native.Mathlib.Omega.{arith}
use holos_substrate.Base.Logic.{leb, num_eq, if◌then◌else◌}

abbrev pub Text : Type 0
Text = List ℕ

abbrev pub text : String → Text
text String.[] = []
text (String.◌∷◌ c s) = code c ∷ text s

infix 50 ◌==◌
unfoldable pub ◌==◌ : Text → Text → Bool
[] == [] = true
[] == (y ∷ ys) = false
(x ∷ xs) == [] = false
(x ∷ xs) == (y ∷ ys) = num_eq x y && xs == ys

eq-of-== : (a b : Text) → (a == b) ≡ true → a ≡ b
unfolding ◌==◌
eq-of-== [] [] h = refl
eq-of-== [] (y ∷ ys) h = cc
eq-of-== (x ∷ xs) [] h = cc
eq-of-== (x ∷ xs) (y ∷ ys) h = ground (arith, eq-of-== xs ys)

pub ==-self : (a : Text) → (a == a) ≡ true
unfolding ◌==◌
==-self [] = refl
==-self (x ∷ xs) = ground (arith, ==-self xs)

pub ==_iff : (a b : Text) → ((a == b) ≡ true) ↔ (a ≡ b)
==_iff a b = (eq-of-== a b, λ e. rw e (==-self b))

abbrev pub is_empty : Text → Bool
is_empty [] = true
is_empty (x ∷ xs) = false

-- `strings.HasPrefix(s, prefix)`.
unfoldable pub has_prefix : Text → Text → Bool
has_prefix s [] = true
has_prefix [] (p ∷ ps) = false
has_prefix (c ∷ s) (p ∷ ps) = num_eq c p && has_prefix s ps

pub has_prefix-append : (p s : Text) → has_prefix (p ++ s) p ≡ true
unfolding has_prefix
has_prefix-append [] s = refl
has_prefix-append (c ∷ p) s = ground (arith, has_prefix-append p s)

pub append-of-has_prefix : (s p : Text) → has_prefix s p ≡ true → (t : Text) × (s ≡ p ++ t)
unfolding has_prefix
append-of-has_prefix s [] h = (s, refl)
append-of-has_prefix [] (c ∷ p) h = ground arith
append-of-has_prefix (d ∷ s) (c ∷ p) h =
    let (t, e) = append-of-has_prefix s p (ground arith) in (t, ground (arith, e))

-- `strings.Contains(s, part)`.
unfoldable pub contains : Text → Text → Bool
unfolding has_prefix
contains [] part = has_prefix [] part
contains (c ∷ s) part = has_prefix (c ∷ s) part || contains s part

unfoldable pub lower_char : ℕ → ℕ
lower_char c = if leb b'A' c && leb c b'Z' then c + 32 else c

-- `strings.ToLower(s)`.
unfoldable pub to_lower : Text → Text
unfolding lower_char
to_lower = map lower_char

-- `strings.EqualFold(s, t)`.
unfoldable pub equal_fold : Text → Text → Bool
unfolding to_lower ◌==◌
equal_fold s t = to_lower s == to_lower t

-- `unicode.IsSpace(c)`.
unfoldable pub is_space : ℕ → Bool
is_space c =
    (leb 9 c && leb c 13)
    || num_eq c 32
    || num_eq c 0x85
    || num_eq c 0xA0
    || num_eq c 0x1680
    || (leb 0x2000 c && leb c 0x200A)
    || num_eq c 0x2028
    || num_eq c 0x2029
    || num_eq c 0x202F
    || num_eq c 0x205F
    || num_eq c 0x3000

-- The text from its first character that fails the test.
unfoldable pub drop_while : (ℕ → Bool) → Text → Text
drop_while p [] = []
drop_while p (c ∷ s) = let rest = drop_while p s in if p c then rest else c ∷ s

-- The text without the characters at either end that pass the test.
unfoldable pub strip : (ℕ → Bool) → Text → Text
unfolding drop_while
strip p s = reverse (drop_while p (reverse (drop_while p s)))

-- `strings.TrimSpace(s)`.
unfoldable pub trim_space : Text → Text
unfolding strip is_space
trim_space = strip is_space

pub to_lower_idem : (s : Text) → to_lower (to_lower s) ≡ to_lower s
unfolding to_lower
to_lower_idem [] = refl
to_lower_idem (c ∷ s) = ground (arith, to_lower_idem s)
