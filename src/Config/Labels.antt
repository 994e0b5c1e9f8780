-- ===== src/Config/Labels.antt =====
-- The names and the labels of the objects (pkg/config/config.go, pkg/metadata/keys.go).
pub mod Lengths
use spicedb_operator.Base.{
  Bool, Option, String, [], if◌then◌else◌, ltb, none, some, suc, zero, ℕ, ◌==◌, ◌∷◌,
}
use spicedb_operator.Base.Map.{Map}
use spicedb_operator.Base.Text.{joined}
use spicedb_operator.Api.Version.{Version}
use spicedb_operator.Config.Types.{Config}

abbrev pub owner_label_key : String
owner_label_key = "authzed.com/cluster"

abbrev pub component_label_key : String
component_label_key = "authzed.com/cluster-component"

abbrev pub operator_managed_label_key : String
operator_managed_label_key = "authzed.com/managed-by"

abbrev pub secret_requirements_key : String
secret_requirements_key = "authzed.com/spicedb-secret"

abbrev pub target_migration_annotation_key : String
target_migration_annotation_key = "authzed.com/spicedb-target-migration"

abbrev pub instance_label_key : String
instance_label_key = "app.kubernetes.io/instance"

abbrev pub name_label_key : String
name_label_key = "app.kubernetes.io/name"

abbrev pub kubernetes_component_label_key : String
kubernetes_component_label_key = "app.kubernetes.io/component"

abbrev pub version_label_key : String
version_label_key = "app.kubernetes.io/version"

-- `LabelsForComponent`
unfoldable pub labels_for_component : String → String → Map String
labels_for_component owner component =
    (owner_label_key, owner)
    ∷ (component_label_key, component)
    ∷ (operator_managed_label_key, "operator")
    ∷ []

-- `len(s)` and `s[:n]`, by characters: the texts that are measured are ASCII.
unfoldable pub size : String → ℕ
size String.[] = 0
size (String.◌∷◌ c s) = suc (size s)

unfoldable pub prefix : ℕ → String → String
prefix zero s = ""
prefix (suc n) String.[] = ""
prefix (suc n) (String.◌∷◌ c s) = String.◌∷◌ c (prefix n s)

-- `deploymentName` and `pdbName`
unfoldable pub deployment_name : String → String
deployment_name name = joined name "-spicedb"

unfoldable pub pdb_name : String → String
pdb_name name = joined name "-spicedb"

-- `jobName`
unfoldable pub job_name : Config → String → String
job_name c migration_hash =
    let n = if ltb (size migration_hash) 15 then size migration_hash else 15 in
    joined c.spice_config.name (joined "-migrate-" (prefix n migration_hash))

-- The cleaning of a version's name (`slug.Make`, with dots kept) and the test of a label's value
-- are functions of other packages.
module _ (clean : String → String) (is_valid_label_value : String → Bool) where
  unfoldable pub short_label : String → String
  short_label value = if ltb 63 (size value) then prefix 63 value else value

  -- The value of the version's label, empty for none.
  unfoldable pub version_label : Option Version → String
  version_label none = ""
  version_label (some v) =
      let value = short_label (clean v.name) in
      if v.name == "" then "" else if is_valid_label_value value then value else ""

  -- `commonLabels`
  unfoldable pub common_labels : Config → String → Map String
  common_labels c name =
      let version = version_label c.migration_config.spice_db_version in
      (instance_label_key, name)
      ∷ (name_label_key, name)
      ∷ (kubernetes_component_label_key, "spicedb")
      ∷ (if version == "" then [] else (version_label_key, version) ∷ [])
