-- ===== src/Keycloak/Peers.antt =====
-- internal/controller/keycloak/membership_controller.go: the references of a GroupMembership, and
-- whether another GroupMembership still wants a user in the group.
use holos_substrate.Base.{
  Bool, true, false, not, ◌&&◌, [], ◌++◌, Result, ok, err, if◌then◌else◌, some_of,
}
use holos_substrate.Base.Text.{Text, text, ◌==◌}
use holos_substrate.Grant.{allowed}
use holos_substrate.Keycloak.Membership.{is_desired}
use holos_substrate.Keycloak.Resource.{Reference, GroupMembership, World}

abbrev pub keycloak_group : Text
keycloak_group = text "keycloak.holos.run"

-- `defaultedInstanceNamespace` and `defaultedGroupNamespace`.
unfoldable pub defaulted_namespace : Text → Reference → Text
unfolding ◌==◌
defaulted_namespace namespace ref = if not (ref.namespace == []) then ref.namespace else namespace

unfoldable pub same_instance_ref : Text → Reference → Text → Reference → Bool
unfolding defaulted_namespace ◌==◌
same_instance_ref left_ns left right_ns right =
    left.name == right.name
    && defaulted_namespace left_ns left == defaulted_namespace right_ns right

unfoldable pub defaulted_group_ref : Text → Reference → Text
unfolding defaulted_namespace
defaulted_group_ref namespace ref = defaulted_namespace namespace ref ++ text "/" ++ ref.name

unfoldable pub same_membership_target : GroupMembership → GroupMembership → Bool
unfolding same_instance_ref defaulted_group_ref ◌==◌
same_membership_target a b =
    same_instance_ref a.namespace a.spec.instance_ref b.namespace b.spec.instance_ref
    && defaulted_group_ref a.namespace a.spec.group_ref
      == defaulted_group_ref b.namespace b.spec.group_ref

module _ {S : Type 0} (world : World S) where
  -- The call of `referencegrant.Allowed` for a reference of a GroupMembership.
  unfoldable pub granted : Text → Text → Text → Text → Result Text Bool
  unfolding allowed
  granted from_namespace to_kind to_namespace to_name =
      allowed world.list_grants
        (record {
          group = keycloak_group;
          kind = text "GroupMembership";
          namespace = from_namespace;
        })
        (record {
          group = keycloak_group;
          kind = to_kind;
          namespace = to_namespace;
          name = to_name;
        })

  -- An error of the check is only logged.
  unfoldable pub reference_authorized : Text → Text → Text → Text → Bool
  unfolding granted ◌==◌
  reference_authorized from_namespace to_kind to_namespace to_name =
      if to_namespace == from_namespace
      then true
      else elim (granted from_namespace to_kind to_namespace to_name) [ err e ↦ false | ok b ↦ b ]

  unfoldable pub membership_references_authorized : GroupMembership → Bool
  unfolding reference_authorized defaulted_namespace
  membership_references_authorized m =
      if not (
        reference_authorized m.namespace (text "Instance")
          (defaulted_namespace m.namespace m.spec.instance_ref) m.spec.instance_ref.name)
      then false
      else reference_authorized m.namespace (text "Group")
          (defaulted_namespace m.namespace m.spec.group_ref) m.spec.group_ref.name

  -- The guards of the loop over the peers, and its inner loop.
  unfoldable pub peer_desires : GroupMembership → Text → GroupMembership → Bool
  unfolding same_membership_target membership_references_authorized is_desired ◌==◌
  peer_desires m email peer =
      if peer.namespace == m.namespace && peer.name == m.name
      then false
      else if peer.deleting
      then false
      else if not (same_membership_target m peer)
      then false
      else if not (membership_references_authorized peer)
      then false
      else is_desired peer.spec.members email

  -- The memberships are listed again for each email. A list that cannot be read counts as a peer
  -- that does.
  unfoldable pub peer_still_desires : GroupMembership → Text → Bool
  unfolding peer_desires some_of
  peer_still_desires m email = elim (world.list_memberships email) [
    | err e ↦ true
    | ok items ↦ some_of (peer_desires m email) items
  ]
