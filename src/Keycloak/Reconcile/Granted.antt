-- ===== src/Keycloak/Reconcile/Granted.antt =====
-- What a reconciliation of a GroupMembership needs before it touches the realm.
use holos_substrate.Base.{
  ◌≡◌, ◌⊎◌, inl, inr, refl, sym, ap, ◌∙◌, Bool, true, false, Option, none, some, arith, ok, err,
  Bool-cases, Option-cases, Result-cases,
}
use holos_substrate.Base.Text.{Text, text, ◌==◌}
use holos_substrate.Base.Int.{ℤ}
use holos_substrate.Keycloak.Resource.{
  Reference, GroupMembership, Instance, GroupResource, not_found, failed, resolving_instance,
  resolving_group, World, Run, Outcome,
}
use holos_substrate.Keycloak.Peers.{
  defaulted_namespace, same_instance_ref, granted, reference_authorized,
}
use holos_substrate.Keycloak.Status.{
  with_membership, emit, set_condition, mark_not_ready, update_status, published, not_ready, reject,
}
use holos_substrate.Keycloak.Resolve.{
  instance_ready, group_ready, not_granted, unready, refused, ready_instance, ready_group,
  resolve_instance, resolve_group,
}
use holos_substrate.Keycloak.Finalize.{remove_finalizer}

module _ {S : Type 0} (world : World S) where
  mark_not_ready-realm :
      (reason message : Text) (r : Run S)
      → (mark_not_ready world reason message r).1.realm ≡ r.realm
  unfolding mark_not_ready set_condition with_membership
  mark_not_ready-realm reason message r = refl

  published-realm :
      (changed : Bool) (reason : Text) (requeue : Option ℤ) (r : Run S)
      → (published world changed reason requeue r).1.realm ≡ r.realm
  unfolding published update_status emit with_membership
  published-realm false reason requeue r = refl
  published-realm true reason requeue r =
      elim (Option-cases (update_status world (emit reason r)).0) [
        | inl e ↦ ground arith
        | inr (x, e) ↦ ground arith
      ]

  not_ready-realm :
      (reason message : Text) (r : Run S) → (not_ready world reason message r).1.realm ≡ r.realm
  unfolding not_ready
  not_ready-realm reason message r =
      let (changed, next) = mark_not_ready world reason message r in
      published-realm changed reason _ next ∙ mark_not_ready-realm reason message r

  pub reject-realm :
      (reason message : Text) (r : Run S) → (reject world reason message r).1.realm ≡ r.realm
  unfolding reject
  reject-realm reason message r =
      let (changed, next) = mark_not_ready world reason message r in
      published-realm _ reason none next ∙ mark_not_ready-realm reason message r

  pub remove_finalizer-realm : (r : Run S) → (remove_finalizer world r).1.realm ≡ r.realm
  unfolding remove_finalizer with_membership
  remove_finalizer-realm r = ground arith

  -- The reference is to the object's own namespace, or a ReferenceGrant there allows it.
  abbrev pub IsGranted : GroupMembership → Text → Reference → Type 0
  IsGranted m kind ref =
      reference_authorized world m.namespace kind (defaulted_namespace m.namespace ref) ref.name
      ≡ true

  refused-realm :
      (kind : Text) (ref : Reference) (r : Run S) {o : Outcome S}
      → refused world kind ref r ≡ some o
      → o.1.realm ≡ r.realm
  unfolding refused not_granted
  refused-realm kind ref r {o} h =
      let namespace = defaulted_namespace r.membership.namespace ref in
      elim (Bool-cases (namespace == r.membership.namespace)) [
        | inl e ↦ ground arith
        | inr e ↦
            elim (Result-cases (granted world r.membership.namespace kind namespace ref.name)) [
              | inr (x, q) ↦ ground arith
              | inl (true, q) ↦ ground arith
              | inl (false, q) ↦
                  let same : not_granted world kind namespace ref.name r ≡ o = ground arith in
                  ap (λ (p : Outcome S). p.1.realm) (sym same) ∙ not_ready-realm _ _ r
            ]
      ]

  refused-IsGranted :
      (kind : Text) (ref : Reference) (r : Run S)
      → refused world kind ref r ≡ none
      → IsGranted r.membership kind ref
  unfolding refused reference_authorized
  refused-IsGranted kind ref r h =
      let namespace = defaulted_namespace r.membership.namespace ref in
      elim (Bool-cases (namespace == r.membership.namespace)) [
        | inl e ↦ ground arith
        | inr e ↦
            elim (Result-cases (granted world r.membership.namespace kind namespace ref.name)) [
              | inr (x, q) ↦ ground arith
              | inl (true, q) ↦ ground arith
              | inl (false, q) ↦ ground arith
            ]
      ]

  -- The Instance that the reference names is ready.
  pub record HasInstance (m : GroupMembership) : Type 0 where
    pub granted_instance : IsGranted m (text "Instance") m.spec.instance_ref
    pub instance : Instance
    pub found_instance :
        world.get_instance
          (defaulted_namespace m.namespace m.spec.instance_ref)
          m.spec.instance_ref.name
        ≡ ok instance
    pub ready_instance : instance_ready instance ≡ true

  -- The Group that the reference names is ready, and of the same Instance.
  pub record HasGroup (m : GroupMembership) : Type 0 where
    pub granted_group : IsGranted m (text "Group") m.spec.group_ref
    pub group : GroupResource
    pub found_group :
        world.get_group (defaulted_namespace m.namespace m.spec.group_ref) m.spec.group_ref.name
        ≡ ok group
    pub ready_group : group_ready group ≡ true
    pub same_instance :
        same_instance_ref m.namespace m.spec.instance_ref group.namespace group.instance_ref ≡ true

  -- The guards end the reconciliation without touching the realm, or the Instance is there.
  pub resolve_instance-cases :
      (r : Run S)
      → ((o : Outcome S) × (resolve_instance world r ≡ err o) × (o.1.realm ≡ r.realm))
        ⊎ ((i : Instance) × (resolve_instance world r ≡ ok i) × HasInstance r.membership)
  unfolding resolve_instance ready_instance unready
  resolve_instance-cases r =
      let ref = r.membership.spec.instance_ref in
      let namespace = defaulted_namespace r.membership.namespace ref in
      elim (Option-cases (refused world (text "Instance") ref r)) [
        | inr (o, q) ↦ inl (o, ground arith, refused-realm (text "Instance") ref r q)
        | inl q ↦ elim (Result-cases (world.get_instance namespace ref.name)) [
          | inr (not_found, e) ↦ inl (
            unready world (text "InstanceNotReady") (text "referenced Instance") namespace ref.name
                (text " does not exist") r,
            ground arith,
            not_ready-realm _ _ r,
          )
          | inr (failed x, e) ↦ inl ((err (resolving_instance x), r), ground arith, refl)
          | inl (i, e) ↦ elim (Bool-cases (instance_ready i)) [
            | inr d ↦ inl (
              unready world (text "InstanceNotReady") (text "referenced Instance") namespace
                  ref.name (text " is not Ready") r,
              ground arith,
              not_ready-realm _ _ r,
            )
            | inl d ↦ inr (
              i,
              ground arith,
              record {
                granted_instance = refused-IsGranted (text "Instance") ref r q;
                instance = i;
                found_instance = e;
                ready_instance = d;
              },
            )
          ]
        ]
      ]

  -- The same for the Group, whose Instance is compared later.
  pub resolve_group-cases :
      (r : Run S)
      → ((o : Outcome S) × (resolve_group world r ≡ err o) × (o.1.realm ≡ r.realm))
        ⊎ ((g : GroupResource) × (resolve_group world r ≡ ok g)
            × (same_instance_ref r.membership.namespace r.membership.spec.instance_ref g.namespace
                    g.instance_ref
                  ≡ true
                → HasGroup r.membership))
  unfolding resolve_group ready_group unready
  resolve_group-cases r =
      let ref = r.membership.spec.group_ref in
      let namespace = defaulted_namespace r.membership.namespace ref in
      elim (Option-cases (refused world (text "Group") ref r)) [
        | inr (o, q) ↦ inl (o, ground arith, refused-realm (text "Group") ref r q)
        | inl q ↦ elim (Result-cases (world.get_group namespace ref.name)) [
          | inr (not_found, e) ↦ inl (
            unready world (text "GroupNotReady") (text "referenced Group") namespace ref.name
                (text " does not exist") r,
            ground arith,
            not_ready-realm _ _ r,
          )
          | inr (failed x, e) ↦ inl ((err (resolving_group x), r), ground arith, refl)
          | inl (g, e) ↦ elim (Bool-cases (group_ready g)) [
            | inr d ↦ inl (
              unready world (text "GroupNotReady") (text "referenced Group") namespace ref.name
                  (text " is not Ready") r,
              ground arith,
              not_ready-realm _ _ r,
            )
            | inl d ↦ inr (
              g,
              ground arith,
              λ same. record {
                granted_group = refused-IsGranted (text "Group") ref r q;
                group = g;
                found_group = e;
                ready_group = d;
                same_instance = same;
              },
            )
          ]
        ]
      ]
