-- ===== src/Grant.antt =====
-- api/security/v1alpha1/referencegrant_types.go and internal/referencegrant/authorize.go: the
-- decision whether a reference that crosses a namespace is authorised by a ReferenceGrant.
pub mod Authorize
use holos_substrate.Base.{Bool, true, false, not, ◌&&◌, ◌||◌, Option, none, some, List, [], ◌∷◌}
use holos_substrate.Base.{Result, ok, err, if◌then◌else◌, some_of}
use holos_substrate.Base.Text.{Text, ◌==◌}

pub record ReferenceGrantFrom : Type 0 where
  pub group : Text
  pub kind : Text
  pub namespace : Text

pub record ReferenceGrantTo : Type 0 where
  pub group : Text
  pub kind : Text
  pub name : Option Text

-- The spec of a grant: its metadata play no part in the decision.
pub record ReferenceGrant : Type 0 where
  pub from : List ReferenceGrantFrom
  pub to : List ReferenceGrantTo

pub record FromRef : Type 0 where
  pub group : Text
  pub kind : Text
  pub namespace : Text

pub record ToRef : Type 0 where
  pub group : Text
  pub kind : Text
  pub namespace : Text
  pub name : Text

trusts : FromRef → ReferenceGrantFrom → Bool
trusts from e = e.group == from.group && (e.kind == from.kind && e.namespace == from.namespace)

unfoldable pub from_matches : List ReferenceGrantFrom → FromRef → Bool
unfolding trusts some_of
from_matches entries from = some_of (trusts from) entries

-- `e.Name != nil && *e.Name != to.Name`
other_name : Option Text → Text → Bool
other_name none name = false
other_name (some n) name = not (n == name)

unfoldable pub to_matches : List ReferenceGrantTo → ToRef → Bool
unfolding other_name
to_matches [] to = false
to_matches (e ∷ es) to =
    let rest = to_matches es to in
    if not (e.group == to.group) || not (e.kind == to.kind)
    then rest
    else if other_name e.name to.name
    then rest
    else true

unfoldable pub grant_matches : FromRef → ToRef → ReferenceGrant → Bool
unfolding from_matches to_matches
grant_matches from to grant = from_matches grant.from from && to_matches grant.to to

-- `list` is the API read of the grants of one namespace, and `E` its errors.
module _ {E : Type 0} (list : Text → Result E (List ReferenceGrant)) where
  unfoldable pub allowed : FromRef → ToRef → Result E Bool
  unfolding grant_matches some_of ◌==◌
  allowed from to =
      if from.namespace == [] || to.namespace == [] then ok false else elim (list to.namespace) [
        | err e ↦ err e
        | ok items ↦ ok (some_of (grant_matches from to) items)
      ]
