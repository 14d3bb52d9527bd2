-- ===== src/Quay/Marker/Described.antt =====
-- What the marker of a description says, and that it can be taken off again.
use holos_substrate.Base.{
  ◌≡◌, inl, inr, refl, Bool, true, false, ◌||◌, none, some, [], ◌∷◌, ◌++◌, arith, Bool-cases,
  num_eq,
}
use holos_substrate.Base.Text.{Text, ◌==◌, has_prefix, has_prefix-append, contains, is_empty}
use holos_substrate.Quay.Marker.{
  newline, cut_prefix, cut, last_cut, drop_two, Repository, RepositoryOwnership,
  owner_marker_prefix, marker_separator, owner_marker, marked_description, ownership_of,
  parse_owner_marker, is_marker_only, description_marker, description_ownership, description_owner,
  is_owned, description_without_owner,
}

cut_prefix-append : (p s : Text) → cut_prefix (p ++ s) p ≡ some s
unfolding cut_prefix
cut_prefix-append [] s = refl
cut_prefix-append (c ∷ p) s = ground (arith, cut_prefix-append p s)

contains-append :
    (a b : Text) → contains (a ++ b) newline ≡ (contains a newline || contains b newline)
unfolding contains has_prefix
contains-append [] b = refl
contains-append (c ∷ a) b = ground (arith, contains-append a b)

newline-first : (m : Text) → contains (10 ∷ m) newline ≡ true
unfolding contains has_prefix
newline-first m = refl

-- The separator has a newline, so it is not in a line.
last_cut-line : (p m : Text) → contains m newline ≡ false → last_cut (10 ∷ p) m ≡ none
unfolding last_cut contains has_prefix
last_cut-line p [] h = refl
last_cut-line p (c ∷ m) h =
    let rest : last_cut (10 ∷ p) m ≡ none = last_cut-line p m (ground arith) in
    let line : num_eq c 10 ≡ false = ground arith in rw rest (rw line refl)

has_prefix-line : (p m : Text) → contains m newline ≡ false → has_prefix m (10 ∷ p) ≡ false
unfolding contains has_prefix
has_prefix-line p [] h = refl
has_prefix-line p (c ∷ m) h = ground arith

-- The last separator is the one before the last line.
last_cut-marked :
    (p d m : Text)
    → contains m newline ≡ false
    → has_prefix m p ≡ true
    → last_cut (10 ∷ 10 ∷ p) (d ++ (10 ∷ 10 ∷ m)) ≡ some (d, 10 ∷ 10 ∷ m)
unfolding last_cut has_prefix
last_cut-marked p [] m h q =
    rw (last_cut-line (10 ∷ p) m h) (rw (has_prefix-line p m h) (rw q refl))
last_cut-marked p (c ∷ d) m h q = rw (last_cut-marked p d m h q) refl

owner-ownership :
    (t : Text) (o : RepositoryOwnership)
    → description_ownership t ≡ some o
    → description_owner t ≡ o.token
unfolding description_owner
owner-ownership t o e = rw e refl

-- A line that parses as a marker, alone and below a description.
module _ (m : Text) (o : RepositoryOwnership) (line : contains m newline ≡ false)
    (starts : has_prefix m owner_marker_prefix ≡ true)
    (parsed : parse_owner_marker m ≡ some o) where
  alone : is_marker_only m ≡ true
  unfolding is_marker_only
  alone = rw starts (rw line refl)

  below : (d : Text) → is_marker_only (d ++ (10 ∷ 10 ∷ m)) ≡ false
  unfolding is_marker_only
  below d =
      let broken = newline-first (10 ∷ m) in
      let more = contains-append d (10 ∷ 10 ∷ m) in ground arith

  found : (d : Text) → last_cut marker_separator (d ++ (10 ∷ 10 ∷ m)) ≡ some (d, 10 ∷ 10 ∷ m)
  found d = last_cut-marked owner_marker_prefix d m line starts

  ownership-alone : description_ownership m ≡ some o
  unfolding description_ownership
  ownership-alone = rw (alone, description_ownership, description_marker) parsed

  ownership-below : (d : Text) → description_ownership (d ++ (10 ∷ 10 ∷ m)) ≡ some o
  unfolding description_ownership
  ownership-below d =
      rw (below d, description_ownership, description_marker)
        (rw (found d) (rw (line, drop_two) parsed))

  without-alone : description_without_owner m ≡ []
  unfolding description_without_owner
  without-alone = rw (ownership-alone, description_without_owner, is_owned) (rw alone refl)

  without-below : (d : Text) → description_without_owner (d ++ (10 ∷ 10 ∷ m)) ≡ d
  unfolding description_without_owner
  without-below d =
      rw (below d, description_without_owner)
        (rw (ownership-below d, is_owned) (rw (found d) (rw (parsed, drop_two) refl)))

module _ (repo : Repository) (created : Bool) (named : is_empty repo.uid ≡ false)
    (line : contains repo.uid newline ≡ false) where
  abbrev recorded : RepositoryOwnership
  recorded = record { token = repo.uid; created = created }

  owner_marker-line : contains (owner_marker repo created) newline ≡ false
  unfolding owner_marker contains has_prefix
  owner_marker-line = elim (Bool-cases created) [ inl e ↦ rw e line | inr e ↦ rw e line ]

  owner_marker-prefix : has_prefix (owner_marker repo created) owner_marker_prefix ≡ true
  unfolding owner_marker
  owner_marker-prefix = has_prefix-append owner_marker_prefix _

  parse-owner_marker : parse_owner_marker (owner_marker repo created) ≡ some recorded
  unfolding parse_owner_marker owner_marker cut_prefix cut ownership_of ◌==◌
  parse-owner_marker = elim (Bool-cases created) [
    | inl e ↦ rw e (rw named (rw line refl))
    | inr e ↦ rw e (rw named (rw line refl))
  ]

  ownership-marked :
      (d : Text)
      → repo.description ≡ d
      → description_ownership (marked_description repo created) ≡ some recorded
  unfolding marked_description
  ownership-marked [] e = rw e (
      ownership-alone (owner_marker repo created) recorded owner_marker-line owner_marker-prefix
        parse-owner_marker)
  ownership-marked (c ∷ d) e = rw e (
      ownership-below (owner_marker repo created) recorded owner_marker-line owner_marker-prefix
        parse-owner_marker (c ∷ d))

  without-marked :
      (d : Text)
      → repo.description ≡ d
      → description_without_owner (marked_description repo created) ≡ d
  unfolding marked_description
  without-marked [] e = rw e (
      without-alone (owner_marker repo created) recorded owner_marker-line owner_marker-prefix
        parse-owner_marker)
  without-marked (c ∷ d) e = rw e (
      without-below (owner_marker repo created) recorded owner_marker-line owner_marker-prefix
        parse-owner_marker (c ∷ d))

-- For a Repository whose UID is not empty and has no newline, with any description, its marked
-- description is read as owned by that UID and as created or adopted as it was written, and without
-- the owner it is the description of the spec.
pub marked_description-recovered :
    (repo : Repository) (created : Bool)
    → is_empty repo.uid ≡ false
    → contains repo.uid newline ≡ false
    → (description_ownership (marked_description repo created)
        ≡ some (record { token = repo.uid; created = created }))
      × (description_owner (marked_description repo created) ≡ repo.uid)
      × (description_without_owner (marked_description repo created) ≡ repo.description)
marked_description-recovered repo created named line = (
  ownership-marked repo created named line repo.description refl,
  owner-ownership (marked_description repo created) _
      (ownership-marked repo created named line repo.description refl),
  without-marked repo created named line repo.description refl,
)
