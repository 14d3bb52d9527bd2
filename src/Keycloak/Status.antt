-- ===== src/Keycloak/Status.antt =====
-- internal/controller/keycloak/membership_controller.go and conditions.go: the endings of a
-- reconciliation, which set the conditions, record an event and write the status.
use holos_substrate.Base.{
  Bool, true, false, not, ◌||◌, Option, none, some, List, [], ◌∷◌, ◌++◌, ok, err, if◌then◌else◌,
}
use holos_substrate.Base.Text.{Text, text}
use holos_substrate.Base.Int.{ℤ, pos, int_eq}
use holos_substrate.Base.Dict.{Dict, keys, lookup}
use holos_substrate.Base.Order.{sort_strings}
use holos_substrate.Shared.{generation_ready, mutation_stamp}
use holos_substrate.Keycloak.Membership.{ManagedGroupMember}
use holos_substrate.Keycloak.Resource.{
  GroupMembership, CredentialError, missing_credential, unread_credential, ReconcileError,
  no_credential, writing_status, World, Run, Outcome,
}

-- A millisecond.
abbrev pub requeue_immediately : ℤ
requeue_immediately = pos 1000000

-- Half a minute.
abbrev pub requeue_dependency : ℤ
requeue_dependency = pos 30000000000

-- An hour.
abbrev membership_resync : ℤ
membership_resync = pos 3600000000000

abbrev pub condition_ready : Text
condition_ready = text "Ready"

unfoldable pub serialized : Dict Text → List Text → List ManagedGroupMember
unfolding lookup
serialized managed [] = []
serialized managed (email ∷ emails) =
    record { email = email; user_id = elim (lookup email managed) [ none ↦ [] | some id ↦ id ] }
    ∷ serialized managed emails

unfoldable pub serialize_managed_members : Dict Text → List ManagedGroupMember
unfolding serialized sort_strings keys
serialize_managed_members managed = serialized managed (sort_strings (keys managed))

module _ {S : Type 0} where
  unfoldable pub with_membership : (GroupMembership → GroupMembership) → Run S → Run S
  with_membership f r = record r { membership = f r.membership }

  unfoldable pub emit : Text → Run S → Run S
  emit reason r = record r { events = r.events ++ (reason ∷ []) }

module _ {S : Type 0} (world : World S) where
  unfoldable pub set_condition : Text → Bool → Text → Text → Run S → Bool × Run S
  unfolding with_membership
  set_condition condition_type status reason message r =
      let (conditions, changed) =
        world.set_status_condition r.membership.status.conditions (record {
          condition_type = condition_type;
          status = if status then text "True" else text "False";
          reason = reason;
          message = message;
          observed_generation = r.membership.generation;
        }) in
      (
        changed,
        with_membership (λ m. record m { status = record m.status { conditions = conditions } }) r,
      )

  unfoldable pub mark_ready : Text → Text → Run S → Bool × Run S
  unfolding set_condition
  mark_ready reason message r =
      let (a, r1) = set_condition (text "Accepted") true reason message r in
      let (p, r2) = set_condition (text "Programmed") true reason message r1 in
      let (d, r3) = set_condition condition_ready true reason message r2 in (a || p || d, r3)

  unfoldable pub mark_not_ready : Text → Text → Run S → Bool × Run S
  unfolding set_condition
  mark_not_ready reason message r =
      let (p, r1) = set_condition (text "Programmed") false reason message r in
      let (d, r2) = set_condition condition_ready false reason message r1 in (p || d, r2)

  -- The object has the observed generation whether the write succeeds or not.
  unfoldable pub update_status : Run S → Option Text × Run S
  unfolding with_membership
  update_status r =
      let next =
        with_membership
          (λ m. record m { status = record m.status { observed_generation = m.generation } }) r in
      (world.patch_status next.membership, next)

  -- The event and the write, where there is something to write.
  unfoldable pub published : Bool → Text → Option ℤ → Run S → Outcome S
  unfolding update_status emit
  published changed reason requeue r =
      if not changed
      then (ok requeue, r)
      else let (e, next) = update_status (emit reason r) in
        elim e [ some x ↦ (err (writing_status x), next) | none ↦ (ok requeue, next) ]

  is_behind : Run S → Bool
  is_behind r = not (int_eq r.membership.status.observed_generation r.membership.generation)

  unfoldable pub succeed : Text → Text → Bool → Run S → Outcome S
  unfolding mark_ready published is_behind
  succeed reason message extra_changed r =
      let (changed, next) = mark_ready reason message r in
      published (changed || extra_changed || is_behind next) reason (some membership_resync) next

  unfoldable pub not_ready : Text → Text → Run S → Outcome S
  unfolding mark_not_ready published
  not_ready reason message r =
      let (changed, next) = mark_not_ready reason message r in
      published changed reason (some requeue_dependency) next

  unfoldable pub reject : Text → Text → Run S → Outcome S
  unfolding mark_not_ready published is_behind
  reject reason message r =
      let (changed, next) = mark_not_ready reason message r in
      published (changed || is_behind next) reason none next

  unfoldable pub member_not_found : Text → Bool → Run S → Outcome S
  unfolding mark_not_ready published is_behind
  member_not_found message extra_changed r =
      let reason = text "MemberNotFound" in
      let (changed, next) = mark_not_ready reason message r in
      published (changed || extra_changed || is_behind next) reason (some requeue_dependency) next

  -- The error is returned also when the write fails.
  unfoldable pub fail : ReconcileError → Bool → Run S → Outcome S
  unfolding mark_not_ready update_status emit
  fail e extra_changed r =
      let reason = text "KeycloakError" in
      let (changed, next) = mark_not_ready reason (world.print e) r in
      if changed || extra_changed
      then (err e, (update_status (emit reason next)).1)
      else (err e, next)

  unfoldable pub handle_credential_error : CredentialError → Run S → Outcome S
  unfolding mark_not_ready published
  handle_credential_error (unread_credential x) r = (err (no_credential (unread_credential x)), r)
  handle_credential_error (missing_credential x) r =
      let reason = text "CredentialsNotFound" in
      let e = no_credential (missing_credential x) in
      let (changed, next) = mark_not_ready reason (world.print e) r in
      let (o, last) = published changed reason none next in
      elim o [ err f ↦ (err f, last) | ok requeue ↦ (err e, last) ]

  unfoldable pub membership_ready : GroupMembership → Bool
  unfolding generation_ready
  membership_ready m = generation_ready m.status.conditions condition_ready m.generation

  unfoldable pub stamp_mutation : Bool → Run S → Run S
  unfolding mutation_stamp membership_ready with_membership
  stamp_mutation healed_drift r =
      let (reason, drift) =
        mutation_stamp r.membership.status.observed_generation r.membership.generation
          (membership_ready r.membership) healed_drift in
      with_membership
        (λ m. record m {
          status = record m.status {
            last_mutated_time = some world.now;
            last_mutation_reason = reason;
            last_drift_time = if drift then some world.now else m.status.last_drift_time;
          };
        })
        r
