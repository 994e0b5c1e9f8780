-- ===== src/Examples/Workloads.antt =====
-- The objects of a configuration, and the theorems on them applied to it.
use spicedb_operator.Base.{
  Bool, Option, Returns, String, [], false, if◌then◌else◌, map, none, panic, refl, some, true, ◌==◌,
  ◌↔◌, ◌∙◌, ◌∷◌, ◌≡◌, ◌≤◌, ◌⊎◌,
}
use spicedb_operator.Examples.Conditions.{plain_env}
use spicedb_operator.Base.Int.{pos}
use spicedb_operator.Base.Map.{Map, get_or, insert, lookup, lookup-insert}
use spicedb_operator.Api.Version.{empty_version}
use spicedb_operator.Config.Budget.{
  Budget, bounded, pod_disruption_budget, unpatched_pdb, with_pods, with_spec,
}
use spicedb_operator.Config.Budget.Patched.{HasSelector, pod_disruption_budget-Returns}
use spicedb_operator.Config.Labels.{
  common_labels, component_label_key, deployment_name, job_name, labels_for_component,
  operator_managed_label_key, owner_label_key, pdb_name, prefix, short_label, size, version_label,
}
use spicedb_operator.Config.Labels.Lengths.{version_label-fits}
use spicedb_operator.Config.Objects.{
  claimed_migration, container_ports, deployment, deployment_spec, deployment_template,
  job_template, migration_job, owner_ref, probe_cmd, unpatched_deployment, unpatched_migration_job,
}
use spicedb_operator.Config.Objects.Critical.{
  KeepsDeployment, KeepsJob, deployment-KeepsDeployment, deployment-carries_hash,
  migration_job-KeepsJob,
}
use spicedb_operator.Config.Owned.{
  Service, ServiceSpec, role, role_binding, service, service_account,
}
use spicedb_operator.Config.Owned.Kept.{KeepsMeta, owned-KeepsMeta, service-selects}
use spicedb_operator.Config.Tried.{
  Tried, a_deployment, a_role, a_service, account, binding, encoded_objects, job, tried_objects,
}
use spicedb_operator.Config.Types.{
  Config, MigrationConfig, ResolvedCredentialRef, SpiceConfig, empty_pdb,
}
use spicedb_operator.Config.Volumes.{
  deployment_volume_mounts, deployment_volumes, job_volume_mounts, job_volumes,
}
use spicedb_operator.Config.Volumes.Covered.{Covered, volume_mounts-Covered}
use spicedb_operator.Config.Workloads.{ObjectLibrary, PodTemplate, Workload, WorkloadSpec}
use spicedb_operator.Controller.Migrations.{carries_hash}
use spicedb_operator.Controller.Objects.{annotation}

-- The entries put in one by one.
unfoldable put_all : Map String → Map String → Map String
put_all [] old = old
put_all ((k, v) ∷ new) old = insert k v (put_all new old)

lookup-put_all :
    (k : String) (new old : Map String)
    → lookup k (put_all new old) ≡ elim (lookup k new) [ none ↦ lookup k old | some v ↦ some v ]
unfolding put_all lookup
lookup-put_all k [] old = refl
lookup-put_all k ((j, v) ∷ new) old =
    lookup-insert j k v (put_all new old) ∙ go (j == k) (lookup-put_all k new old)
  where
    go :
        (b : Bool)
        → lookup k (put_all new old)
          ≡ elim (lookup k new) as (λ _. Option String) [ none ↦ lookup k old | some w ↦ some w ]
        → (if b then some v else lookup k (put_all new old))
          ≡ elim (if b then some v else lookup k new) as (λ _. Option String) [
            | none ↦ lookup k old
            | some w ↦ some w
          ]
    go true h = refl
    go false h = h

-- The tests compute.
workloads : Unit {0}
unfolding lookup get_or insert labels_for_component size prefix deployment_name pdb_name job_name
    short_label version_label common_labels job_volumes job_volume_mounts deployment_volumes
    deployment_volume_mounts owner_ref container_ports probe_cmd claimed_migration job_template
    unpatched_migration_job migration_job deployment_template deployment_spec unpatched_deployment
    deployment bounded unpatched_pdb with_pods with_spec pod_disruption_budget carries_hash
    annotation put_all
workloads = tt

abbrev entries : ObjectLibrary
entries = record {
  put = put_all;
  lookup-put = lookup-put_all;
  words = λ name. name ∷ [];
  upper = λ name. name;
  sort = λ names. names;
  clean = λ name. name;
  is_valid_label_value = λ value. true;
}

abbrev migration_config : MigrationConfig
migration_config = record {
  target_migration = "head";
  target_phase = "";
  migration_log_level = "debug";
  datastore_engine = "postgres";
  datastore_uri = "postgres://";
  spanner_creds_secret_ref = "";
  target_spice_db_image = "repo:v1";
  env_prefix = "SPICEDB";
  spice_db_cmd = "spicedb";
  datastore_tls_secret_name = "dbtls";
  spice_db_version = some (record empty_version { name = "v1.2.3" });
}

abbrev ref : ResolvedCredentialRef
ref = record { secret_name = "db"; key = "datastore_uri"; skip = false }

-- A configuration that skips its migrations.
abbrev spice_config : SpiceConfig
spice_config = record {
  log_level = "info";
  skip_migrations = true;
  name = "dev";
  namespace = "test";
  uid = "1";
  replicas = pos 2;
  preshared_key = "secret";
  env_prefix = "SPICEDB";
  spice_db_cmd = "spicedb";
  tls_secret_name = "tls";
  skip_tls_warning = false;
  dispatch_enabled = true;
  dispatch_upstream_ca_secret_name = "ca";
  dispatch_upstream_ca_secret_path = "tls.crt";
  telemetry_tls_ca_secret_name = "";
  datastore_uri_ref = ref;
  preshared_key_ref = record ref { key = "preshared_key" };
  migration_secrets_ref = record ref { skip = true };
  extra_pod_labels = ("app.kubernetes.io/instance", "mine") ∷ [];
  extra_pod_annotations = [];
  extra_service_account_annotations = [];
  service_account_name = "dev";
  project_labels = true;
  project_annotations = false;
  passthrough = [];
  pdb = empty_pdb;
}

abbrev config : Config
config = record { migration_config = migration_config; spice_config = spice_config; patches = [] }

-- A patch that takes the spec away, and names another object.
abbrev spoiled : Workload → Workload
spoiled d = record d { name = "other"; annotations = []; spec = none }

abbrev without_spec : Budget → Budget
without_spec d = record d { spec = none }

abbrev skipped : String
skipped = "skipped"

abbrev hash : String
hash = "hash"

mounts_test :
    map (λ m. m.name) (deployment_volume_mounts config)
    ≡ "db-tls" ∷ "podlabels" ∷ "tls" ∷ "dispatch-tls" ∷ []
unfolding workloads
mounts_test = refl

name_test : job_name config "0123456789abcdef" ≡ "dev-migrate-0123456789abcde"
unfolding workloads
name_test = refl

volume_mounts-Covered_example :
    Covered (job_volume_mounts config) (job_volumes config)
    × Covered (deployment_volume_mounts config) (deployment_volumes config)
volume_mounts-Covered_example = volume_mounts-Covered config

version_label-fits_example :
    (size (version_label (λ name. name) (λ value. true) config.migration_config.spice_db_version)
      ≤ 63)
    × ((version_label (λ name. name) (λ value. true) config.migration_config.spice_db_version ≡ "")
        ⊎ (true ≡ true))
version_label-fits_example =
    version_label-fits (λ name. name) (λ value. true) config.migration_config.spice_db_version

deployment-KeepsDeployment_example :
    KeepsDeployment entries config "hash" "secrets"
      (deployment entries spoiled config "hash" "secrets")
deployment-KeepsDeployment_example =
    deployment-KeepsDeployment entries spoiled config "hash" "secrets"

deployment-carries_hash_example :
    (carries_hash plain_env
        (some (deployment entries spoiled config "hash" "secrets").annotations)
        "hash"
      ≡ true)
    ↔ (((true ≡ true) × (skipped ≡ hash)) ⊎ ((true ≡ false) × (hash ≡ hash)))
deployment-carries_hash_example =
    deployment-carries_hash entries plain_env spoiled config "hash" "secrets" "hash"

migration_job-KeepsJob_example :
    KeepsJob entries config "hash" (migration_job entries spoiled config "hash")
migration_job-KeepsJob_example = migration_job-KeepsJob entries spoiled config "hash"

budget_panics : pod_disruption_budget entries without_spec config ≡ panic
unfolding workloads
budget_panics = refl

pod_disruption_budget-Returns_example :
    Returns (pod_disruption_budget entries without_spec config)
    ↔ HasSelector entries (without_spec (unpatched_pdb entries config))
pod_disruption_budget-Returns_example = pod_disruption_budget-Returns entries without_spec config

-- Patches that rename the service and take its spec away.
abbrev bare : Service → Service
bare s = record s { meta = record (s.meta) { name = "other"; labels = [] }; spec = none }

owned-KeepsMeta_example :
    KeepsMeta entries config "dev" "spicedb-serviceaccount"
      (service_account entries (λ sa. sa) config).meta
    × KeepsMeta entries config "dev" "spicedb-role" (role entries (λ r. r) config).meta
    × KeepsMeta entries config "dev" "spicedb-rolebinding"
        (role_binding entries (λ rb. rb) config).meta
    × KeepsMeta entries config "dev" "spicedb-service" (service entries bare config).meta
owned-KeepsMeta_example = owned-KeepsMeta entries (λ sa. sa) (λ r. r) (λ rb. rb) bare config

service-selects_example :
    (spec : ServiceSpec) × (workload : WorkloadSpec) × (template : PodTemplate) × ((service entries
        bare config).spec
      ≡ some spec)
    × ((deployment entries spoiled config "hash" "secrets").spec ≡ some workload)
    × (workload.template ≡ some template)
    × ((lookup owner_label_key spec.selector ≡ some config.spice_config.name)
        × (lookup owner_label_key template.labels ≡ some config.spice_config.name))
    × ((lookup component_label_key spec.selector ≡ some "spicedb")
        × (lookup component_label_key template.labels ≡ some "spicedb"))
    × ((lookup operator_managed_label_key spec.selector ≡ some "operator")
        × (lookup operator_managed_label_key template.labels ≡ some "operator"))
service-selects_example = service-selects entries bare spoiled config "hash" "secrets"

-- The patches are tried on six objects; the kind stands for the JSON here.
kind_of : Tried → Option String
kind_of (account sa) = some "ServiceAccount"
kind_of (a_role r) = some "Role"
kind_of (binding rb) = some "RoleBinding"
kind_of (a_service s) = some "Service"
kind_of (job j) = some "Job"
kind_of (a_deployment d) = some "Deployment"

tried_test :
    encoded_objects entries "" kind_of config
    ≡ some "ServiceAccount"
      ∷ some "Role"
      ∷ some "RoleBinding"
      ∷ some "Service"
      ∷ some "Job"
      ∷ some "Deployment"
      ∷ []
unfolding encoded_objects tried_objects kind_of
tried_test = refl
