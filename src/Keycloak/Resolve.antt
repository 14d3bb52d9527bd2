-- ===== src/Keycloak/Resolve.antt =====
-- internal/controller/keycloak/membership_controller.go: the Instance and the Group that a
-- GroupMembership refers to. The `err` of a step is what the reconciliation then returns.
use holos_substrate.Base.{
  Bool, true, false, not, Option, none, some, ◌++◌, Result, ok, err, if◌then◌else◌,
}
use holos_substrate.Base.Text.{Text, text, ◌==◌}
use holos_substrate.Shared.{generation_ready}
use holos_substrate.Keycloak.Resource.{
  Reference, Instance, GroupResource, not_found, failed, checking_grant, resolving_instance,
  resolving_group, World, Run, Outcome,
}
use holos_substrate.Keycloak.Peers.{defaulted_namespace, granted}
use holos_substrate.Keycloak.Status.{condition_ready, not_ready}

-- What a message says of an object.
described : Text → Text → Text → Text → Text
described kind namespace name what = kind ++ text " " ++ namespace ++ text "/" ++ name ++ what

unfoldable pub instance_ready : Instance → Bool
unfolding generation_ready
instance_ready i = generation_ready i.conditions condition_ready i.generation

unfoldable pub group_ready : GroupResource → Bool
unfolding generation_ready
group_ready g = generation_ready g.conditions condition_ready g.generation

module _ {S : Type 0} (world : World S) where
  unfoldable pub not_granted : Text → Text → Text → Run S → Outcome S
  unfolding not_ready described
  not_granted kind namespace name = not_ready world (text "ReferenceNotGranted") (
      described (text "cross-namespace reference to " ++ kind) namespace name
        (text " is not authorized by a security.holos.run ReferenceGrant"))

  -- `what` says what the object lacks.
  unfoldable pub unready : Text → Text → Text → Text → Text → Run S → Outcome S
  unfolding not_ready described
  unready reason kind namespace name what =
      not_ready world reason (described kind namespace name what)

  -- The guard on a reference of the given kind. `none` lets it pass.
  unfoldable pub refused : Text → Reference → Run S → Option (Outcome S)
  unfolding granted defaulted_namespace not_granted ◌==◌
  refused kind ref r =
      let namespace = defaulted_namespace r.membership.namespace ref in
      if namespace == r.membership.namespace
      then none
      else elim (granted world r.membership.namespace kind namespace ref.name) [
        | err e ↦ some (err (checking_grant e), r)
        | ok true ↦ none
        | ok false ↦ some (not_granted kind namespace ref.name r)
      ]

  unfoldable pub ready_instance : Text → Text → Run S → Result (Outcome S) Instance
  unfolding instance_ready unready
  ready_instance namespace name r = elim (world.get_instance namespace name) [
    | err not_found ↦ err (
        unready (text "InstanceNotReady") (text "referenced Instance") namespace name
          (text " does not exist") r)
    | err (failed e) ↦ err (err (resolving_instance e), r)
    | ok i ↦
        if not (instance_ready i)
        then err (
            unready (text "InstanceNotReady") (text "referenced Instance") namespace name
              (text " is not Ready") r)
        else ok i
  ]

  unfoldable pub ready_group : Text → Text → Run S → Result (Outcome S) GroupResource
  unfolding group_ready unready
  ready_group namespace name r = elim (world.get_group namespace name) [
    | err not_found ↦ err (
        unready (text "GroupNotReady") (text "referenced Group") namespace name
          (text " does not exist") r)
    | err (failed e) ↦ err (err (resolving_group e), r)
    | ok g ↦
        if not (group_ready g)
        then err (
            unready (text "GroupNotReady") (text "referenced Group") namespace name
              (text " is not Ready") r)
        else ok g
  ]

  unfoldable pub resolve_instance : Run S → Result (Outcome S) Instance
  unfolding refused ready_instance defaulted_namespace
  resolve_instance r =
      let ref = r.membership.spec.instance_ref in
      elim (refused (text "Instance") ref r) [
        | some o ↦ err o
        | none ↦ ready_instance (defaulted_namespace r.membership.namespace ref) ref.name r
      ]

  unfoldable pub resolve_group : Run S → Result (Outcome S) GroupResource
  unfolding refused ready_group defaulted_namespace
  resolve_group r =
      let ref = r.membership.spec.group_ref in
      elim (refused (text "Group") ref r) [
        | some o ↦ err o
        | none ↦ ready_group (defaulted_namespace r.membership.namespace ref) ref.name r
      ]
