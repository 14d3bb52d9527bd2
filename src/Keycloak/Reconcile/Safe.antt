-- ===== src/Keycloak/Reconcile/Safe.antt =====
-- The whole of `Reconcile` of a GroupMembership: when it may touch the realm.
use holos_substrate.Base.{
  ◌≡◌, ◌≢◌, ◌⊎◌, inl, inr, true, false, ◌||◌, Option, some, [], arith, Result, ok, Bool-cases,
  clash,
}
use holos_substrate.Base.Text.{text, ◌==◌, ==_iff}
use holos_substrate.Base.Int.{ℤ}
use holos_substrate.Keycloak.Resource.{
  GroupMembership, Instance, GroupResource, ReconcileError, World, Run, Outcome,
}
use holos_substrate.Keycloak.Peers.{same_instance_ref}
use holos_substrate.Keycloak.Status.{emit, with_membership}
use holos_substrate.Keycloak.Finalize.{no_members, has_finalizer, reconcile_delete}
use holos_substrate.Keycloak.Reconcile.{
  mismatched, sync_instance, reconcile_normal, add_finalizer, reconcile_found, reconcile,
}
use holos_substrate.Keycloak.Reconcile.Granted.{
  HasInstance, HasGroup, reject-realm, remove_finalizer-realm, resolve_instance-cases,
  resolve_group-cases,
}

-- What must hold of a GroupMembership before its reconciliation calls Keycloak.
pub record MayEdit {S : Type 0} (world : World S) (m : GroupMembership) : Type 0 where
  pub has_instance : HasInstance world m
  pub finalized : has_finalizer m ≡ true
  pub purpose :
      ((m.deleting ≡ true) × (m.spec.deletion_policy ≢ text "Orphan"))
      ⊎ ((m.deleting ≡ false) × HasGroup world m)

module _ {S : Type 0} (world : World S) where
  Untouched : Run S → Outcome S → Type 0
  Untouched r o = o.1.realm ≡ r.realm

  add_finalizer-realm : (r : Run S) → (add_finalizer world r).1.realm ≡ r.realm
  unfolding add_finalizer with_membership
  add_finalizer-realm r = ground arith

  mismatched-realm : (g : GroupResource) (r : Run S) → (mismatched world g r).1.realm ≡ r.realm
  unfolding mismatched
  mismatched-realm g r = reject-realm world _ _ r

  delete-cases :
      (r : Run S)
      → r.membership.deleting ≡ true
      → Untouched r (reconcile_delete world r) ⊎ MayEdit world r.membership
  unfolding reconcile_delete Untouched emit
  delete-cases r del =
      let m = r.membership in
      elim (Bool-cases (has_finalizer m)) [
        | inr f ↦ inl (ground arith)
        | inl f ↦ elim (Bool-cases (m.spec.deletion_policy == text "Orphan")) [
          | inl p ↦ inl (ground (arith, remove_finalizer-realm world (emit (text "Released") r)))
          | inr p ↦
              elim (Bool-cases (no_members m.status.managed_members || m.status.group_id == [])) [
                | inl k ↦ inl (ground (arith, remove_finalizer-realm world r))
                | inr k ↦ elim (resolve_instance-cases world r) [
                  | inl (o, e, q) ↦ inl (ground arith)
                  | inr (i, e, has) ↦ inr (record {
                    has_instance = has;
                    finalized = f;
                    purpose =
                        inl (
                          del,
                          λ q. clash _ ((==_iff m.spec.deletion_policy (text "Orphan")).1 q) p,
                        );
                  })
                ]
              ]
        ]
      ]

  sync_instance-cases :
      (i : Instance) (g : GroupResource) (r : Run S)
      → Untouched r (sync_instance world i g r)
        ⊎ (same_instance_ref r.membership.namespace r.membership.spec.instance_ref g.namespace
              g.instance_ref
            ≡ true)
  unfolding sync_instance Untouched
  sync_instance-cases i g r =
      elim (Bool-cases (
        same_instance_ref r.membership.namespace r.membership.spec.instance_ref g.namespace
          g.instance_ref)) [ inl e ↦ inr e | inr e ↦ inl (ground (arith, mismatched-realm g r)) ]

  normal-cases :
      (r : Run S)
      → r.membership.deleting ≡ false
      → has_finalizer r.membership ≡ true
      → Untouched r (reconcile_normal world r) ⊎ MayEdit world r.membership
  unfolding reconcile_normal Untouched
  normal-cases r del f = elim (resolve_instance-cases world r) [
    | inl (o, e, q) ↦ inl (ground arith)
    | inr (i, e, has) ↦ elim (resolve_group-cases world r) [
      | inl (o, d, q) ↦ inl (ground arith)
      | inr (g, d, to_group) ↦ elim (sync_instance-cases i g r) [
        | inl q ↦ inl (ground arith)
        | inr q ↦
            inr (record { has_instance = has; finalized = f; purpose = inr (del, to_group q) })
      ]
    ]
  ]

  -- A reconciliation hands back the realm as it found it, without a call of Keycloak, unless the
  -- object has the finalizer, its reference to the Instance is to its own namespace or allowed by a
  -- ReferenceGrant, the Instance is there and ready, and either the object is being deleted under
  -- another policy than Orphan, or it is not and the same holds of its Group, which is of that
  -- Instance.
  pub reconcile-MayEdit :
      (realm : S) (m : GroupMembership) (result : Result ReconcileError (Option ℤ)) (after : Run S)
      → world.get ≡ ok m
      → reconcile world realm ≡ ok (some (result, after))
      → (after.realm ≡ realm) ⊎ MayEdit world m
  unfolding reconcile reconcile_found Untouched
  reconcile-MayEdit realm m result after e h =
      let r : Run S = record { realm = realm; membership = m; events = [] } in
      let same : reconcile_found world r ≡ (result, after) = ground arith in
      elim (Bool-cases m.deleting) [
        | inl d ↦ elim (delete-cases r d) [ inl q ↦ inl (ground arith) | inr q ↦ inr q ]
        | inr d ↦ elim (Bool-cases (has_finalizer m)) [
          | inr f ↦ inl (ground (arith, add_finalizer-realm r))
          | inl f ↦ elim (normal-cases r d f) [ inl q ↦ inl (ground arith) | inr q ↦ inr q ]
        ]
      ]
