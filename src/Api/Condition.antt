-- ===== src/Api/Condition.antt =====
-- Status conditions (pkg/apis/authzed/v1alpha1/conditions.go, status.go). The functions of
-- k8s.io/apimachinery/pkg/api/meta that edit a list of conditions are a parameter, with what they
-- document. A message is kept as its format and the arguments of the format. The transition time is
-- left out. `slices.Equal` in `Equals` compares it: two lists that are equal here may differ there
-- in their times only.
use spicedb_operator.Base.{
  Bool, List, Option, String, [], eqb, false, none, some, true, ℕ, ◌&&◌, ◌==◌, ◌∷◌, ◌≡◌, ◌≢◌,
}
use spicedb_operator.Api.Version.{equal_texts}

pub record Message : Type 0 where
  pub format : String
  pub args : List String

-- `metav1.Condition`, without `LastTransitionTime`. The code never sets the observed generation.
pub record Condition : Type 0 where
  pub type_name : String
  pub status : String
  pub observed_generation : ℕ
  pub reason : String
  pub message : Message

unfoldable pub equal_messages : Message → Message → Bool
unfolding equal_texts
equal_messages m n = m.format == n.format && equal_texts m.args n.args

-- `slices.Equal` of two lists of conditions, but for their transition times.
unfoldable pub equal_conditions : List Condition → List Condition → Bool
unfolding equal_messages
equal_conditions [] [] = true
equal_conditions [] (d ∷ ds) = false
equal_conditions (c ∷ cs) [] = false
equal_conditions (c ∷ cs) (d ∷ ds) =
    c.type_name == d.type_name
    && c.status == d.status
    && eqb c.observed_generation d.observed_generation
    && c.reason == d.reason
    && equal_messages c.message d.message
    && equal_conditions cs ds

-- `metav1.ConditionTrue`, `metav1.ConditionFalse`
abbrev pub condition_true : String
condition_true = "True"

abbrev pub condition_false : String
condition_false = "False"

abbrev pub type_validating : String
type_validating = "Validating"

abbrev pub validating_failed : String
validating_failed = "ValidatingFailed"

abbrev pub type_migrating : String
type_migrating = "Migrating"

abbrev pub type_config_warnings : String
type_config_warnings = "ConfigurationWarning"

abbrev pub type_preconditions_failed : String
type_preconditions_failed = "PreconditionsFailed"

abbrev pub type_rolling : String
type_rolling = "RollingDeployment"

abbrev pub type_rollout_error : String
type_rollout_error = "RolloutError"

abbrev pub reason_missing_secret : String
reason_missing_secret = "MissingSecret"

abbrev pub reason_apply_failed : String
reason_apply_failed = "ApplyFailed"

abbrev pub condition : String → String → String → String → List String → Condition
condition type_name status reason format args = record {
  type_name = type_name;
  status = status;
  observed_generation = 0;
  reason = reason;
  message = record { format = format; args = args };
}

abbrev pub new_validating_config_condition : String → Condition
new_validating_config_condition secret_hash =
    condition type_validating condition_true "ConfigChanged" "Validating config with secret hash %q"
      (secret_hash ∷ [])

abbrev pub new_invalid_config_condition : String → String → Condition
new_invalid_config_condition secret_hash e =
    condition validating_failed condition_true "InvalidConfig"
      "Error validating config with secret hash %q: %s" (secret_hash ∷ e ∷ [])

abbrev pub new_config_warning_condition : String → Condition
new_config_warning_condition warning =
    condition type_config_warnings condition_true "WarningsPresent" "%s" (warning ∷ [])

abbrev pub new_migrating_condition : String → String → Condition
new_migrating_condition engine head_revision =
    condition type_migrating condition_true "MigrationJobRunning" "Migrating %s datastore to %s"
      (engine ∷ head_revision ∷ [])

abbrev pub new_migration_failed_condition : String → String → String → Condition
new_migration_failed_condition engine head_revision e =
    condition type_migrating condition_false "MigrationFailed"
      "Migrating %s datastore to %s failed with error: %s" (engine ∷ head_revision ∷ e ∷ [])

abbrev pub new_missing_secret_condition : String → String → Condition
new_missing_secret_condition namespace name =
    condition type_preconditions_failed condition_true reason_missing_secret
      "Secret %s/%s not found" (namespace ∷ name ∷ [])

abbrev pub new_rolling_condition : Message → Condition
new_rolling_condition message = record {
  type_name = type_rolling;
  status = condition_true;
  observed_generation = 0;
  reason = "WaitingForDeploymentAvailability";
  message = message;
}

abbrev pub new_pod_error_condition : String → Condition
new_pod_error_condition message =
    condition type_rollout_error condition_true "PodError" "%s" (message ∷ [])

abbrev pub new_apply_failed_condition : String → Condition
new_apply_failed_condition e =
    condition type_rollout_error condition_true reason_apply_failed "Error applying deployment: %s"
      (e ∷ [])

-- The package meta of apimachinery: finding, setting and removing a condition by its type.
pub record ConditionOps : Type 0 where
  pub find : List Condition → String → Option Condition
  pub set : List Condition → Condition → List Condition
  pub remove : List Condition → String → List Condition
  pub find-set_self : (cs : List Condition) (c : Condition) → find (set cs c) c.type_name ≡ some c
  pub find-set_other :
      (cs : List Condition) (c : Condition) (t : String)
      → c.type_name ≢ t
      → find (set cs c) t ≡ find cs t
  pub find-remove_self : (cs : List Condition) (t : String) → find (remove cs t) t ≡ none
  pub find-remove_other :
      (cs : List Condition) (t u : String) → t ≢ u → find (remove cs t) u ≡ find cs u

-- `meta.IsStatusConditionTrue`: the condition is present and has the status True.
abbrev pub is_true_condition : Option Condition → Bool
is_true_condition none = false
is_true_condition (some c) = c.status == condition_true
