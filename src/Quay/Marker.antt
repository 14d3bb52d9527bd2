-- ===== src/Quay/Marker.antt =====
-- internal/controller/quay/repository_controller.go: the line that a Repository adds to the
-- description of its Quay repository, which says whose it is. A description of Quay may be any text.
pub mod Described
use holos_substrate.Base.{
  Bool, true, false, not, ◌&&◌, ◌||◌, Option, none, some, List, [], ◌∷◌, ◌++◌, num_eq,
  if◌then◌else◌, ℕ,
}
use holos_substrate.Base.Text.{Text, text, ◌==◌, has_prefix, contains, is_empty}

abbrev pub newline : Text
newline = 10 ∷ []

-- `strings.CutPrefix(s, prefix)`, which is `HasPrefix` with `TrimPrefix`.
unfoldable pub cut_prefix : Text → Text → Option Text
cut_prefix s [] = some s
cut_prefix [] (p ∷ ps) = none
cut_prefix (c ∷ s) (p ∷ ps) = let rest = cut_prefix s ps in if num_eq c p then rest else none

-- `strings.Cut(s, sep)` for a separator of one character.
unfoldable pub cut : ℕ → Text → Option (Text × Text)
cut sep [] = none
cut sep (c ∷ s) =
    let rest = cut sep s in
    if num_eq c sep then some ([], s) else elim rest [ none ↦ none | some (a, b) ↦ some (c ∷ a, b) ]

-- `s[:i]` and `s[i:]` for `i` of `strings.LastIndex(s, part)`, if that is not negative.
unfoldable pub last_cut : Text → Text → Option (Text × Text)
unfolding has_prefix
last_cut part [] = if has_prefix [] part then some ([], []) else none
last_cut part (c ∷ s) = elim (last_cut part s) [
  | some (a, b) ↦ some (c ∷ a, b)
  | none ↦ if has_prefix (c ∷ s) part then some ([], c ∷ s) else none
]

-- `s[2:]`.
unfoldable pub drop_two : Text → Text
drop_two [] = []
drop_two (a ∷ []) = []
drop_two (a ∷ b ∷ s) = s

-- What the code reads of a Repository.
pub record Repository : Type 0 where
  pub uid : Text
  pub description : Text

pub record RepositoryOwnership : Type 0 where
  pub token : Text
  pub created : Bool

abbrev pub owner_marker_prefix : Text
owner_marker_prefix = text "holos-owner: "

abbrev pub marker_created : Text
marker_created = text "created"

abbrev pub marker_adopted : Text
marker_adopted = text "adopted"

abbrev pub marker_separator : Text
marker_separator = 10 ∷ 10 ∷ owner_marker_prefix

unfoldable pub owner_marker : Repository → Bool → Text
owner_marker repo created =
    let kind = if created then marker_created else marker_adopted in
    owner_marker_prefix ++ (kind ++ (text ":" ++ repo.uid))

unfoldable pub marked_description : Repository → Bool → Text
unfolding owner_marker
marked_description repo created =
    let marker = owner_marker repo created in
    if is_empty repo.description then marker else repo.description ++ (10 ∷ 10 ∷ marker)

unfoldable pub ownership_of : Text → Text → Option RepositoryOwnership
unfolding ◌==◌ contains
ownership_of kind token =
    if is_empty token || contains token newline
    then none
    else if kind == marker_created
    then some (record { token = token; created = true })
    else if kind == marker_adopted
    then some (record { token = token; created = false })
    else none

unfoldable pub parse_owner_marker : Text → Option RepositoryOwnership
unfolding cut_prefix cut ownership_of
parse_owner_marker marker = elim (cut_prefix marker owner_marker_prefix) [
  | none ↦ none
  | some payload ↦ elim (cut b':' payload) [
    | none ↦ none
    | some (kind, token) ↦ ownership_of kind token
  ]
]

-- The description is a marker and nothing else.
unfoldable pub is_marker_only : Text → Bool
unfolding has_prefix contains
is_marker_only description =
    has_prefix description owner_marker_prefix && not (contains description newline)

unfoldable pub description_marker : Text → Option Text
unfolding is_marker_only last_cut drop_two contains
description_marker description =
    if is_marker_only description
    then some description
    else elim (last_cut marker_separator description) [
      | none ↦ none
      | some (before, rest) ↦
          if contains (drop_two rest) newline then none else some (drop_two rest)
    ]

unfoldable pub description_ownership : Text → Option RepositoryOwnership
unfolding description_marker parse_owner_marker
description_ownership description = elim (description_marker description) [
  | none ↦ none
  | some marker ↦ parse_owner_marker marker
]

unfoldable pub description_owner : Text → Text
unfolding description_ownership
description_owner description = elim (description_ownership description) [
  | none ↦ []
  | some ownership ↦ ownership.token
]

unfoldable pub is_owned : Text → Bool
unfolding description_ownership
is_owned description = elim (description_ownership description) [ none ↦ false | some o ↦ true ]

unfoldable pub description_without_owner : Text → Text
unfolding is_owned is_marker_only last_cut parse_owner_marker drop_two
description_without_owner description =
    if is_owned description && is_marker_only description
    then []
    else elim (last_cut marker_separator description) [
      | none ↦ description
      | some (before, rest) ↦ elim (parse_owner_marker (drop_two rest)) [
        | none ↦ description
        | some ownership ↦ before
      ]
    ]
