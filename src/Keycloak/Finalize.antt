-- ===== src/Keycloak/Finalize.antt =====
-- internal/controller/keycloak/membership_controller.go: `reconcileDelete`.
pub mod Released
use holos_substrate.Base.{
  Bool, true, false, not, ◌||◌, Option, none, some, List, [], ◌∷◌, ok, err, if◌then◌else◌, some_of,
}
use holos_substrate.Base.Text.{Text, text, ◌==◌}
use holos_substrate.Keycloak.Membership.{
  ManagedGroupMember, MembershipClient, contains_group_id, is_not_found,
}
use holos_substrate.Keycloak.Resource.{
  GroupMembership, Instance, ReconcileError, finalizing, finalizing_list, removing_finalizer,
  bad_ca_bundle, World, Run, Outcome,
}
use holos_substrate.Keycloak.Peers.{peer_still_desires}
use holos_substrate.Keycloak.Status.{with_membership, emit, handle_credential_error}
use holos_substrate.Keycloak.Resolve.{resolve_instance}

abbrev pub membership_finalizer : Text
membership_finalizer = text "membership.keycloak.holos.run/finalizer"

unfoldable pub has_finalizer : GroupMembership → Bool
unfolding some_of ◌==◌
has_finalizer m = some_of (λ (f : Text). f == membership_finalizer) m.finalizers

unfoldable pub without_finalizer : List Text → List Text
unfolding ◌==◌
without_finalizer [] = []
without_finalizer (f ∷ fs) =
    let rest = without_finalizer fs in if f == membership_finalizer then rest else f ∷ rest

unfoldable pub no_members : List ManagedGroupMember → Bool
no_members [] = true
no_members (m ∷ ms) = false

module _ {S : Type 0} (kc : MembershipClient S) (desires : Text → Bool) (group_id : Text) where
  finalize_user : ManagedGroupMember → S → Option ReconcileError × S
  finalize_user m s =
      let (e, next) = kc.remove_user_from_group_if_member m.user_id group_id s in
      elim e [ some x ↦ (some (finalizing m.email x), next) | none ↦ (none, next) ]

  finalize_listed : ManagedGroupMember → S → Option ReconcileError × S
  unfolding finalize_user contains_group_id is_not_found
  finalize_listed m s =
      let (r, next) = kc.list_user_groups m.user_id s in
      elim r [
        | err x ↦ if is_not_found x then (none, next) else (some (finalizing_list m.email x), next)
        | ok groups ↦
            if not (contains_group_id groups group_id) then (none, next) else finalize_user m next
      ]

  -- One round of the loop. `desires` is `peerStillDesires`.
  unfoldable pub finalize_member : ManagedGroupMember → S → Option ReconcileError × S
  unfolding finalize_listed
  finalize_member m s = if desires m.email then (none, s) else finalize_listed m s

  unfoldable pub finalize_members : List ManagedGroupMember → S → Option ReconcileError × S
  unfolding finalize_member
  finalize_members [] s = (none, s)
  finalize_members (m ∷ ms) s =
      let (e, next) = finalize_member m s in
      elim e [ some x ↦ (some x, next) | none ↦ finalize_members ms next ]

module _ {S : Type 0} (world : World S) where
  unfoldable pub remove_finalizer : Run S → Outcome S
  unfolding with_membership without_finalizer
  remove_finalizer r =
      let next =
        with_membership (λ m. record m { finalizers = without_finalizer m.finalizers }) r in
      elim (world.update next.membership) [
        | some e ↦ (err (removing_finalizer e), next)
        | none ↦ (ok none, next)
      ]

  -- What follows once the Instance and its credential are there.
  finalize_with : MembershipClient S → Run S → Outcome S
  unfolding finalize_members peer_still_desires remove_finalizer emit
  finalize_with kc r =
      let status = r.membership.status in
      let (e, realm) =
        finalize_members kc (peer_still_desires world r.membership) status.group_id
          status.managed_members r.realm in
      let after = record r { realm = realm } in
      elim e [ some x ↦ (err x, after) | none ↦ remove_finalizer (emit (text "Released") after) ]

  finalize_in : Instance → Run S → Outcome S
  unfolding finalize_with handle_credential_error emit
  finalize_in i r = elim (world.resolve_credential i.credentials_secret_ref) [
    | err e ↦ handle_credential_error world e r
    | ok cred ↦ elim (world.validate_ca_bundle i.ca_bundle) [
      | some e ↦ (err (bad_ca_bundle e), emit (text "KeycloakError") r)
      | none ↦ finalize_with (world.new_client cred i.url i.realm i.ca_bundle) r
    ]
  ]

  unfoldable pub reconcile_delete : Run S → Outcome S
  unfolding no_members has_finalizer remove_finalizer resolve_instance finalize_in emit ◌==◌
  reconcile_delete r =
      let m = r.membership in
      if not (has_finalizer m)
      then (ok none, r)
      else if m.spec.deletion_policy == text "Orphan"
      then remove_finalizer (emit (text "Released") r)
      else if no_members m.status.managed_members || m.status.group_id == []
      then remove_finalizer r
      else elim (resolve_instance world r) [ err o ↦ o | ok i ↦ finalize_in i r ]
