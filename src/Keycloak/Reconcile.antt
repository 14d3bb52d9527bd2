-- ===== src/Keycloak/Reconcile.antt =====
-- internal/controller/keycloak/membership_controller.go: `Reconcile` of a GroupMembership.
pub mod Granted
pub mod Safe
use holos_substrate.Base.{
  Bool, true, false, not, ◌||◌, Option, none, some, List, [], ◌∷◌, ◌++◌, Result, ok, err,
  if◌then◌else◌,
}
use holos_substrate.Base.Text.{Text, text, ◌==◌}
use holos_substrate.Base.Order.{sort_strings}
use holos_substrate.Keycloak.Membership.{
  ApiError, Group, Sync, SyncError, MembershipClient, managed_members_by_email, sync_members,
}
use holos_substrate.Keycloak.Resource.{
  GroupMembership, Instance, GroupResource, GetError, not_found, failed, CredentialError,
  ReconcileError, reading, adding_finalizer, no_credential, bad_ca_bundle, resolving_path, syncing,
  World, Run, Outcome,
}
use holos_substrate.Keycloak.Peers.{same_instance_ref, peer_still_desires}
use holos_substrate.Keycloak.Status.{
  with_membership, reject, fail, succeed, member_not_found, handle_credential_error, stamp_mutation,
  requeue_immediately, serialize_managed_members,
}
use holos_substrate.Keycloak.Resolve.{resolve_instance, resolve_group}
use holos_substrate.Keycloak.Finalize.{membership_finalizer, has_finalizer, reconcile_delete}

-- `strings.Join(missing, ", ")`.
join_comma : List Text → Text
join_comma [] = []
join_comma (e ∷ []) = e
join_comma (e ∷ f ∷ es) = e ++ text ", " ++ join_comma (f ∷ es)

module _ {S : Type 0} (world : World S) where
  start_sync : Run S → Sync S
  unfolding managed_members_by_email
  start_sync r = record {
    realm = r.realm;
    managed = managed_members_by_email r.membership.status.managed_members [];
    changed = false;
    mutation = record { mutated = false; healed_drift = false };
    missing = [];
  }

  -- `reconcileMembers`: the managed members go into the status, whether it fails or not.
  unfoldable pub reconcile_members :
      MembershipClient S → Text → Text → Run S → Option SyncError × Sync S
  unfolding start_sync sync_members peer_still_desires
  reconcile_members kc previous_group_id group_id r =
      sync_members kc group_id (peer_still_desires world r.membership) r.membership.spec.members
        previous_group_id (start_sync r)

  with_managed : Sync S → Run S → Run S
  unfolding with_membership serialize_managed_members
  with_managed sync r =
      with_membership
        (λ m. record m {
          status = record m.status { managed_members = serialize_managed_members sync.managed };
        })
        (record r { realm = sync.realm })

  with_group_id : Text → Run S → Run S
  unfolding with_membership
  with_group_id group_id =
      with_membership (λ m. record m { status = record m.status { group_id = group_id } })

  stamp_if_mutated : Sync S → Run S → Run S
  unfolding stamp_mutation
  stamp_if_mutated sync r =
      if sync.mutation.mutated then stamp_mutation world sync.mutation.healed_drift r else r

  with_validated_time : Run S → Run S
  unfolding with_membership
  with_validated_time =
      with_membership
        (λ m. record m { status = record m.status { last_validated_time = some world.now } })

  after_error : Text → SyncError → Sync S → Run S → Outcome S
  unfolding with_group_id stamp_if_mutated fail
  after_error group_id e sync r =
      let progress = sync.changed || sync.mutation.mutated in
      let named = if progress then with_group_id group_id r else r in
      fail world (syncing e) progress (stamp_if_mutated sync named)

  after_success : Text → Text → Sync S → Run S → Outcome S
  unfolding with_group_id stamp_if_mutated member_not_found succeed with_validated_time join_comma
      sort_strings
  after_success before_group_id group_id sync r =
      let done = stamp_if_mutated sync (with_group_id group_id r) in
      elim (sort_strings sync.missing) [
        | [] ↦
            succeed world (text "Reconciled")
              (text "reconciled Keycloak group membership for "
                ++ r.membership.namespace
                ++ text "/"
                ++ r.membership.name)
              true (with_validated_time done)
        | email ∷ emails ↦
            member_not_found world
              (text "Keycloak users not found for member email(s): " ++ join_comma (email ∷ emails))
              (sync.changed || sync.mutation.mutated || not (before_group_id == group_id)) done
      ]

  -- What follows once the group of the realm is there.
  sync_group : MembershipClient S → Group → Run S → Outcome S
  unfolding reconcile_members with_managed after_error after_success
  sync_group kc group r =
      let before_group_id = r.membership.status.group_id in
      let (e, sync) = reconcile_members kc before_group_id group.id r in
      let next = with_managed sync r in
      elim e [
        | some x ↦ after_error group.id x sync next
        | none ↦ after_success before_group_id group.id sync next
      ]

  sync_path : MembershipClient S → Text → Run S → Outcome S
  unfolding sync_group fail
  sync_path kc path r =
      let (g, realm) = kc.get_group_by_path path r.realm in
      let next = record r { realm = realm } in
      elim g [
        | err e ↦ fail world (resolving_path e) false next
        | ok group ↦ sync_group kc group next
      ]

  mismatched : GroupResource → Run S → Outcome S
  unfolding reject
  mismatched g = reject world (text "InstanceMismatch") (
      text "membership instanceRef does not match referenced Group "
      ++ g.namespace
      ++ text "/"
      ++ g.name
      ++ text " instanceRef")

  -- What follows once both references are resolved.
  sync_instance : Instance → GroupResource → Run S → Outcome S
  unfolding sync_path mismatched fail handle_credential_error same_instance_ref
  sync_instance i g r =
      if not (
        same_instance_ref r.membership.namespace r.membership.spec.instance_ref g.namespace
          g.instance_ref)
      then mismatched g r
      else elim (world.resolve_credential i.credentials_secret_ref) [
        | err e ↦ handle_credential_error world e r
        | ok cred ↦ elim (world.validate_ca_bundle i.ca_bundle) [
          | some e ↦ fail world (bad_ca_bundle e) false r
          | none ↦ sync_path (world.new_client cred i.url i.realm i.ca_bundle) g.path r
        ]
      ]

  unfoldable pub reconcile_normal : Run S → Outcome S
  unfolding resolve_instance resolve_group sync_instance
  reconcile_normal r = elim (resolve_instance world r) [
    | err o ↦ o
    | ok i ↦ elim (resolve_group world r) [ err o ↦ o | ok g ↦ sync_instance i g r ]
  ]

  add_finalizer : Run S → Outcome S
  unfolding with_membership
  add_finalizer r =
      let next =
        with_membership (λ m. record m { finalizers = m.finalizers ++ (membership_finalizer ∷ []) })
          r in
      elim (world.update next.membership) [
        | some e ↦ (err (adding_finalizer e), next)
        | none ↦ (ok (some requeue_immediately), next)
      ]

  -- `Reconcile` of an object that is there.
  unfoldable pub reconcile_found : Run S → Outcome S
  unfolding reconcile_delete reconcile_normal add_finalizer has_finalizer
  reconcile_found r =
      if r.membership.deleting
      then reconcile_delete world r
      else if not (has_finalizer r.membership)
      then add_finalizer r
      else reconcile_normal r

  -- `Reconcile`, from the realm before it to the outcome and the realm after it.
  unfoldable pub reconcile : S → Result ReconcileError (Option (Outcome S))
  unfolding reconcile_found
  reconcile realm = elim world.get [
    | err not_found ↦ ok none
    | err (failed e) ↦ err (reading e)
    | ok m ↦ ok (some (reconcile_found (record { realm = realm; membership = m; events = [] })))
  ]
