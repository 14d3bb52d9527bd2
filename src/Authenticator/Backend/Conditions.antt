-- ===== src/Authenticator/Backend/Conditions.antt =====
-- internal/controller/authenticator/conditions.go, and the calls of the reconciler that set the
-- conditions, record the event and write the status.
use holos_substrate.Base.{Bool, true, false, not, ◌||◌, Option, none, some, ◌++◌, if◌then◌else◌}
use holos_substrate.Base.Text.{Text, text}
use holos_substrate.Base.Int.{int_eq}
use holos_substrate.Authenticator.Backend.Resource.{
  Reason, reconciled, ConditionType, accepted, programmed, ready, WriteError, not_found, failed,
  EventType, normal, warning, World, Run, Outcome, with_conditions, stamped, on_backend, emit,
  written,
}

module _ (world : World) where
  -- `setCondition` on the object.
  unfoldable pub set_condition : ConditionType → Bool → Reason → Text → Run → Bool × Run
  unfolding on_backend with_conditions
  set_condition t status reason message r =
      let (conditions, changed) = world.set_status_condition r.backend.conditions (record {
        condition_type = t;
        status = status;
        reason = reason;
        message = message;
        observed_generation = r.backend.generation;
      }) in
      (changed, on_backend (with_conditions conditions) r)

  unfoldable pub mark_ready : Reason → Text → Run → Bool × Run
  unfolding set_condition
  mark_ready reason message r =
      let (a, r1) = set_condition accepted true reason message r in
      let (p, r2) = set_condition programmed true reason message r1 in
      let (d, r3) = set_condition ready true reason message r2 in (a || (p || d), r3)

  unfoldable pub mark_accepted : Reason → Text → Run → Bool × Run
  unfolding set_condition
  mark_accepted = set_condition accepted true

  unfoldable pub mark_not_ready : Reason → Text → Run → Bool × Run
  unfolding set_condition
  mark_not_ready reason message r =
      let (p, r1) = set_condition programmed false reason message r in
      let (d, r2) = set_condition ready false reason message r1 in (p || d, r2)

  unfoldable pub mark_rejected : Reason → Text → Run → Bool × Run
  unfolding set_condition
  mark_rejected reason message r =
      let (a, r1) = set_condition accepted false reason message r in
      let (p, r2) = set_condition programmed false reason message r1 in
      let (d, r3) = set_condition ready false reason message r2 in (a || (p || d), r3)

  -- A concurrent delete is no error.
  unfoldable pub write_error : Option WriteError → Option Text
  write_error none = none
  write_error (some not_found) = none
  write_error (some (failed e)) = some (text "updating Backend status: " ++ e)

  unfoldable pub update_status : Run → Outcome
  unfolding write_error on_backend stamped written
  update_status r =
      let stamped_run = on_backend stamped r in
      (write_error (world.write stamped_run.backend), written stamped_run)

  -- What `succeed` and `reject` do once the conditions are set.
  unfoldable pub settle : EventType → Reason → Text → Bool × Run → Outcome
  unfolding emit update_status
  settle t reason message (changed, r) =
      if changed || not (int_eq r.backend.observed_generation r.backend.generation)
      then update_status (emit (record { event_type = t; reason = reason; message = message }) r)
      else (none, r)

  unfoldable pub succeed : Run → Outcome
  unfolding settle mark_ready
  succeed r =
      let message =
        text "backend "
        ++ world.quote r.backend.spec.host
        ++ text " is ready (issuer "
        ++ world.quote r.backend.spec.oidc.issuer_url
        ++ text ")" in
      settle normal reconciled message (mark_ready reconciled message r)

  unfoldable pub reject : Reason → Text → Run → Outcome
  unfolding settle mark_rejected
  reject reason message r = settle warning reason message (mark_rejected reason message r)

  -- An error of the status write is only logged.
  unfoldable pub after_not_ready : Reason → Text → Bool × Run → Run
  unfolding emit update_status
  after_not_ready reason message (changed, r) =
      if changed
      then (update_status
          (emit (record { event_type = warning; reason = reason; message = message }) r)).1
      else r

  unfoldable pub fail : Reason → Text → Run → Outcome
  unfolding after_not_ready mark_not_ready
  fail reason message r =
      (some message, after_not_ready reason message (mark_not_ready reason message r))
