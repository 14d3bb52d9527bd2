-- ===== src/Authenticator/Headers/Groups.antt =====
-- The groups header across the two programs that share it: `firstUnsafeGroup` and the join of the
-- authorizer, and the Lua filter of docs/runbooks/holos-authenticator.md that splits the header.
use holos_substrate.Base.{
  ◌≡◌, refl, ap, ◌∙◌, ℕ, Bool, true, false, ◌&&◌, ◌||◌, none, List, [], ◌∷◌, arith, leb, num_eq,
  All, map,
}
use holos_substrate.Base.Text.{Text, ==_iff, has_prefix, contains, is_space, strip, trim_space}
use holos_substrate.Base.Split.{join, split, Lacks, split-join}
use holos_substrate.Base.Strip.{strip-fixed_of_weaker}
use holos_substrate.Authenticator.Headers.{nonempty_parts, is_unsafe, first_unsafe_group}

-- The class `%s` of Lua.
unfoldable pub is_lua_space : ℕ → Bool
is_lua_space c = (leb 9 c && leb c 13) || num_eq c 32

-- The values of the headers that the split filter adds for this value of the groups header.
unfoldable pub split_filter : ℕ → Text → List Text
unfolding split nonempty_parts strip is_lua_space
split_filter sep joined =
    nonempty_parts (map (strip is_lua_space) (nonempty_parts (split joined sep)))

lua_space-is_space : (c : ℕ) → is_lua_space c ≡ true → is_space c ≡ true
unfolding is_lua_space is_space
lua_space-is_space c h = ground arith

has_prefix-single : (c : ℕ) (g : Text) → contains g (c ∷ []) ≡ false → Lacks c g
unfolding contains has_prefix
has_prefix-single c [] h = tt
has_prefix-single c (d ∷ g) h = (ground arith, has_prefix-single c g (ground arith))

Lacks-of_safe : (c : ℕ) (g : Text) → is_unsafe (c ∷ []) g ≡ false → Lacks c g
unfolding is_unsafe
Lacks-of_safe c g h = has_prefix-single c g (ground arith)

fixed_of_safe : (c : ℕ) (g : Text) → is_unsafe (c ∷ []) g ≡ false → strip is_lua_space g ≡ g
unfolding is_unsafe trim_space
fixed_of_safe c g h =
    strip-fixed_of_weaker is_space is_lua_space lua_space-is_space g
      ((==_iff (trim_space g) g).0 (ground arith))

All-safe :
    (sep : Text) (groups : List Text)
    → first_unsafe_group groups sep ≡ none
    → All (λ g. is_unsafe sep g ≡ false) groups
unfolding first_unsafe_group
All-safe sep [] h = tt
All-safe sep (g ∷ groups) h = (ground arith, All-safe sep groups (ground arith))

All-lack :
    (c : ℕ) (groups : List Text)
    → All (λ g. is_unsafe (c ∷ []) g ≡ false) groups
    → All (Lacks c) groups
All-lack c [] h = tt
All-lack c (g ∷ groups) (h, hs) = (Lacks-of_safe c g h, All-lack c groups hs)

trimmed_parts :
    (c : ℕ) (groups : List Text)
    → All (λ g. is_unsafe (c ∷ []) g ≡ false) groups
    → nonempty_parts (map (strip is_lua_space) (nonempty_parts groups)) ≡ nonempty_parts groups
unfolding nonempty_parts
trimmed_parts c [] h = refl
trimmed_parts c (g ∷ groups) (h, hs) =
    ground (arith, fixed_of_safe c g h, trimmed_parts c groups hs)

-- Groups that the guard lets pass reach the API server as they are: joined by the separator and
-- split again by the filter, they are the non-empty groups, in their order, none added, merged,
-- cut or trimmed.
pub split_filter-join :
    (c : ℕ) (groups : List Text)
    → first_unsafe_group groups (c ∷ []) ≡ none
    → split_filter c (join groups (c ∷ [])) ≡ nonempty_parts groups
unfolding split_filter join
split_filter-join c [] h = unfold split in unfold nonempty_parts in refl
split_filter-join c (g ∷ groups) h =
    let safe = All-safe (c ∷ []) (g ∷ groups) h in
    ap (λ parts. nonempty_parts (map (strip is_lua_space) (nonempty_parts parts)))
      (split-join g groups c (All-lack c (g ∷ groups) safe))
    ∙ trimmed_parts c (g ∷ groups) safe
