-- ===== src/Api/Cluster.antt =====
-- `SpiceDBCluster` (pkg/apis/authzed/v1alpha1/types.go, status.go).
use spicedb_operator.Base.{
  Bool, List, Option, String, [], eqb, false, none, not, some, true, ℕ, ◌&&◌, ◌==◌, ◌||◌, ◌∷◌,
}
use spicedb_operator.Api.Version.{Version, version_equals}
use spicedb_operator.Api.Condition.{
  Condition, ConditionOps, equal_messages, equal_conditions, is_true_condition, type_migrating,
  type_rolling,
}

-- `CredentialRef`
pub record CredentialRef : Type 0 where
  pub secret_name : String
  pub key : String
  pub skip : Bool

-- `ClusterCredentials`
pub record ClusterCredentials : Type 0 where
  pub datastore_uri : Option CredentialRef
  pub preshared_key : Option CredentialRef
  pub migration_secrets : Option CredentialRef

-- `Patch`, with the bytes of its document as a text
pub record Patch : Type 0 where
  pub kind : String
  pub patch : String

-- `ClusterSpec`, with the bytes of `config` as a text, none where it is absent
pub record ClusterSpec : Type 0 where
  pub version : String
  pub channel : String
  pub config : Option String
  pub secret_ref : String
  pub credentials : Option ClusterCredentials
  pub patches : List Patch
  pub base_image : String

-- `ClusterStatus`
pub record ClusterStatus : Type 0 where
  pub observed_generation : ℕ
  pub target_migration_hash : String
  pub current_migration_hash : String
  pub secret_hash : String
  pub image : String
  pub migration : String
  pub phase : String
  pub current_version : Option Version
  pub available_versions : List Version
  pub conditions : List Condition

-- `SpiceDBCluster`, with the fields of its metadata that the controller reads
pub record Cluster : Type 0 where
  pub name : String
  pub namespace : String
  pub uid : String
  pub generation : ℕ
  pub spec : ClusterSpec
  pub status : ClusterStatus

-- `slices.EqualFunc(s.AvailableVersions, other.AvailableVersions, …)`
unfoldable pub equal_versions : List Version → List Version → Bool
unfolding version_equals
equal_versions [] [] = true
equal_versions [] (w ∷ ws) = false
equal_versions (v ∷ vs) [] = false
equal_versions (v ∷ vs) (w ∷ ws) = version_equals (some v) (some w) && equal_versions vs ws

-- `ClusterStatus.Equals`
unfoldable pub status_equals : ClusterStatus → ClusterStatus → Bool
status_equals s other =
    eqb s.observed_generation other.observed_generation
    && s.target_migration_hash == other.target_migration_hash
    && s.current_migration_hash == other.target_migration_hash
    && s.secret_hash == other.secret_hash
    && s.image == other.image
    && s.migration == other.migration
    && s.phase == other.phase
    && version_equals s.current_version other.current_version
    && equal_versions s.available_versions other.available_versions
    && equal_conditions s.conditions other.conditions

-- The comparison of `IsStatusConditionChanged`.
unfoldable pub condition_differs : Option Condition → Option Condition → Bool
unfolding equal_messages
condition_differs none none = false
condition_differs none (some d) = true
condition_differs (some e) none = true
condition_differs (some e) (some d) =
    not (equal_messages e.message d.message) || not (e.reason == d.reason)

module _ (ops : ConditionOps) where
  -- `FindStatusCondition`
  unfoldable pub find_status_condition : Cluster → String → Option Condition
  find_status_condition c type_name = ops.find c.status.conditions type_name

  -- `SetStatusCondition`
  unfoldable pub set_status_condition : Cluster → Condition → Cluster
  set_status_condition c new = record c {
    status = record (c.status) { conditions = ops.set c.status.conditions new };
  }

  -- `RemoveStatusCondition`
  unfoldable pub remove_status_condition : Cluster → String → Cluster
  remove_status_condition c type_name = record c {
    status = record (c.status) { conditions = ops.remove c.status.conditions type_name };
  }

  -- `IsStatusConditionTrue`
  unfoldable pub is_status_condition_true : Cluster → String → Bool
  unfolding find_status_condition
  is_status_condition_true c type_name = is_true_condition (find_status_condition c type_name)

  -- `IsStatusConditionChanged`
  unfoldable pub is_status_condition_changed : Cluster → String → Option Condition → Bool
  unfolding find_status_condition condition_differs
  is_status_condition_changed c type_name new =
      condition_differs (find_status_condition c type_name) new

  -- `RolloutInProgress`
  unfoldable pub rollout_in_progress : Cluster → Bool
  unfolding is_status_condition_true
  rollout_in_progress c =
      is_status_condition_true c type_migrating
      || is_status_condition_true c type_rolling
      || not (c.status.current_migration_hash == c.status.target_migration_hash)
