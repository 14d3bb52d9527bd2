-- ===== src/Shared.antt =====
-- internal/controller/shared/status.go: what the reconcilers of several API groups read of status
-- conditions. `Condition` is `metav1.Condition` without its time.
use holos_substrate.Base.{Bool, false, not, ◌&&◌, ◌||◌, List, [], ◌∷◌, if◌then◌else◌}
use holos_substrate.Base.Text.{Text, text, ◌==◌}
use holos_substrate.Base.Int.{ℤ, int_eq}

pub record Condition : Type 0 where
  pub condition_type : Text
  pub status : Text
  pub reason : Text
  pub message : Text
  pub observed_generation : ℤ

unfoldable pub generation_ready : List Condition → Text → ℤ → Bool
unfolding ◌==◌
generation_ready [] condition_type generation = false
generation_ready (c ∷ conditions) condition_type generation =
    let rest = generation_ready conditions condition_type generation in
    if c.condition_type == condition_type
    then c.status == text "True" && int_eq c.observed_generation generation
    else rest

abbrev pub drift_remediation : Text
drift_remediation = text "DriftRemediation"

-- `MutationStamp` without the time: the reason, and whether drift was healed.
unfoldable pub mutation_stamp : ℤ → ℤ → Bool → Bool → Text × Bool
unfolding ◌==◌
mutation_stamp observed_generation generation ready healed_drift =
    let reason =
      if not (int_eq observed_generation generation) || not ready
      then text "SpecChange"
      else drift_remediation in
    (reason, reason == drift_remediation || healed_drift)
