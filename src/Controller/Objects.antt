-- ===== src/Controller/Objects.antt =====
-- Reading the objects: annotations (a nil map reads as the empty text), and the conditions of a job
-- (pkg/controller/wait_for_migrations.go).
use spicedb_operator.Base.{
  Bool, List, Option, String, [], false, if◌then◌else◌, none, some, ◌==◌, ◌∷◌,
}
use spicedb_operator.Base.Map.{Map, get_or}
use spicedb_operator.Controller.Types.{Job, JobCondition}

-- `metadata.SpiceDBMigrationRequirementsKey`
abbrev pub migration_requirements_key : String
migration_requirements_key = "authzed.com/spicedb-migration"

-- `metadata.SpiceDBConfigKey`
abbrev pub config_key : String
config_key = "authzed.com/spicedb-configuration"

-- `annotations[key]`, of a map that may be nil
unfoldable pub annotation : Option (Map String) → String → String
annotation none key = ""
annotation (some m) key = get_or "" key m

-- The loop of `findJobCondition`.
unfoldable pub find_condition : List JobCondition → String → Option JobCondition
find_condition [] type_name = none
find_condition (c ∷ cs) type_name =
    if c.type_name == type_name then some c else find_condition cs type_name

-- `findJobCondition`
unfoldable pub find_job_condition : Option Job → String → Option JobCondition
find_job_condition none type_name = none
find_job_condition (some job) type_name = find_condition job.conditions type_name

-- `jobConditionHasStatus`
unfoldable pub job_condition_has_status : Option Job → String → String → Bool
job_condition_has_status job type_name status = elim (find_job_condition job type_name) [
  | none ↦ false
  | some c ↦ c.status == status
]

-- `if annotations == nil { extraObjs = append(extraObjs, o) }`, before what the rest of the loop adds
unfoldable pub when_nil {ℓ} : {A : Type ℓ} → A → Option (Map String) → List A → List A
when_nil x none xs = x ∷ xs
when_nil x (some m) xs = xs
