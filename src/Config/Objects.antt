-- ===== src/Config/Objects.antt =====
-- The migration job, the deployment, the service and the disruption budget of a configuration
-- (pkg/config/config.go). What `ApplyPatches` leaves of an object is a function of it.
pub mod Critical
use spicedb_operator.Base.{List, Option, String, [], if◌then◌else◌, none, some, ℕ, ◌++◌, ◌∷◌}
use spicedb_operator.Base.Map.{Map}
use spicedb_operator.Config.Env.{migration_env, to_env_var_apply_configuration}
use spicedb_operator.Config.Labels.{
  common_labels, deployment_name, instance_label_key, job_name, labels_for_component,
  secret_requirements_key, target_migration_annotation_key,
}
use spicedb_operator.Config.Types.{Config}
use spicedb_operator.Config.Volumes.{
  deployment_volume_mounts, deployment_volumes, is_set, job_volume_mounts, job_volumes, only,
}
use spicedb_operator.Config.Workloads.{
  LabelSelector, ObjectLibrary, OwnerReference, PodTemplate, Workload, WorkloadSpec, of_labels,
  with_match_labels,
}
use spicedb_operator.Controller.Objects.{migration_requirements_key}

-- `ownerRef`
unfoldable pub owner_ref : Config → OwnerReference
owner_ref c = record {
  name = c.spice_config.name;
  kind = "SpiceDBCluster";
  uid = c.spice_config.uid;
}

-- `containerPorts` and `servicePorts`
unfoldable pub container_ports : Config → List (String × ℕ)
container_ports c =
    ("grpc", 50051)
    ∷ ("gateway", 8443)
    ∷ ("metrics", 9090)
    ∷ only c.spice_config.dispatch_enabled ("dispatch", 50053)

-- `probeCmd`
unfoldable pub probe_cmd : Config → List String
probe_cmd c =
    "grpc_health_probe"
    ∷ "-v"
    ∷ "-addr=localhost:50051"
    ∷ (if is_set c.spice_config.tls_secret_name then "-tls" ∷ "-tls-no-verify" ∷ [] else [])

abbrev pub template_or : PodTemplate → Option PodTemplate → PodTemplate
template_or default none = default
template_or default (some t) = t

abbrev pub selector_or : LabelSelector → Option LabelSelector → LabelSelector
selector_or default none = default
selector_or default (some s) = s

abbrev pub spec_or : WorkloadSpec → Option WorkloadSpec → WorkloadSpec
spec_or default none = default
spec_or default (some s) = s

-- The hash of the migration that a deployment claims.
unfoldable pub claimed_migration : Config → String → String
claimed_migration c migration_hash =
    if c.spice_config.skip_migrations then "skipped" else migration_hash

module _ (ops : ObjectLibrary) where
  abbrev pub common : Config → String → Map String
  common c name = common_labels ops.clean ops.is_valid_label_value c name

  abbrev pub own_labels : Config → String → Map String
  own_labels c component = labels_for_component c.spice_config.name component

  -- The template of `unpatchedMigrationJob`.
  unfoldable pub job_template : Config → PodTemplate
  job_template c = record {
    labels =
        ops.put c.spice_config.extra_pod_labels
          (ops.put (common c c.spice_config.name) (ops.put (own_labels c "migration-job") []));
    annotations = ops.put c.spice_config.extra_pod_annotations [];
    service_account_name = c.spice_config.service_account_name;
    containers =
        record {
          name = "migrate";
          image = c.migration_config.target_spice_db_image;
          command =
              c.migration_config.spice_db_cmd ∷ "migrate" ∷ c.migration_config.target_migration
              ∷ [];
          env = migration_env ops.words ops.upper ops.sort c;
          ports = container_ports c;
          volume_mounts = job_volume_mounts c;
          probe = [];
        }
        ∷ [];
    volumes = job_volumes c;
  }

  abbrev pub job_spec : Config → WorkloadSpec
  job_spec c = record { replicas = none; selector = none; template = some (job_template c) }

  -- `unpatchedMigrationJob`
  unfoldable pub unpatched_migration_job : Config → String → Workload
  unpatched_migration_job c migration_hash = record {
    name = job_name c migration_hash;
    namespace = c.spice_config.namespace;
    owners = [];
    labels = ops.put (common c c.spice_config.name) (ops.put (own_labels c "migration-job") []);
    annotations = ops.put ((migration_requirements_key, migration_hash) ∷ []) [];
    spec = some (job_spec c);
  }

  -- `MigrationJob`
  unfoldable pub migration_job : (Workload → Workload) → Config → String → Workload
  migration_job patched c migration_hash =
      let j = patched (unpatched_migration_job c migration_hash) in
      let spec = spec_or (job_spec c) j.spec in
      let template = template_or (job_template c) spec.template in
      record {
        name = job_name c migration_hash;
        namespace = c.spice_config.namespace;
        owners = j.owners ++ (owner_ref c ∷ []);
        labels = ops.put (own_labels c "migration-job") j.labels;
        annotations = ops.put ((migration_requirements_key, migration_hash) ∷ []) j.annotations;
        spec = some (record spec {
          template =
              some (record template {
                labels = ops.put (own_labels c "migration-job") template.labels;
              });
        });
      }

  abbrev pub instance_of : Config → Map String
  instance_of c = (instance_label_key, deployment_name c.spice_config.name) ∷ []

  abbrev pub template_annotations : Config → String → Map String
  template_annotations c secret_hash =
      (secret_requirements_key, secret_hash)
      ∷ (target_migration_annotation_key, c.migration_config.target_migration)
      ∷ []

  -- The template of `unpatchedDeployment`.
  unfoldable pub deployment_template : Config → String → PodTemplate
  deployment_template c secret_hash = record {
    labels = ops.put c.spice_config.extra_pod_labels (
        ops.put (common c (deployment_name c.spice_config.name))
          (ops.put (own_labels c "spicedb") []));
    annotations =
        ops.put c.spice_config.extra_pod_annotations
          (ops.put (template_annotations c secret_hash) []);
    service_account_name = c.spice_config.service_account_name;
    containers =
        record {
          name = "spicedb";
          image = c.migration_config.target_spice_db_image;
          command = c.spice_config.spice_db_cmd ∷ "serve" ∷ [];
          env = to_env_var_apply_configuration ops.words ops.upper ops.sort c;
          ports = container_ports c;
          volume_mounts = deployment_volume_mounts c;
          probe = probe_cmd c;
        }
        ∷ [];
    volumes = deployment_volumes c;
  }

  unfoldable pub deployment_spec : Config → String → WorkloadSpec
  deployment_spec c secret_hash = record {
    replicas = some c.spice_config.replicas;
    selector = some (with_match_labels ops (instance_of c) (of_labels []));
    template = some (deployment_template c secret_hash);
  }

  -- `unpatchedDeployment`
  unfoldable pub unpatched_deployment : Config → String → String → Workload
  unpatched_deployment c migration_hash secret_hash = record {
    name = deployment_name c.spice_config.name;
    namespace = c.spice_config.namespace;
    owners = [];
    labels =
        ops.put (common c (deployment_name c.spice_config.name))
          (ops.put (own_labels c "spicedb") []);
    annotations =
        ops.put ((migration_requirements_key, claimed_migration c migration_hash) ∷ []) [];
    spec = some (deployment_spec c secret_hash);
  }

  -- `Deployment`
  unfoldable pub deployment : (Workload → Workload) → Config → String → String → Workload
  deployment patched c migration_hash secret_hash =
      let d = patched (unpatched_deployment c migration_hash secret_hash) in
      let spec = spec_or (deployment_spec c secret_hash) d.spec in
      let selector =
        selector_or (with_match_labels ops (instance_of c) (of_labels [])) spec.selector in
      let template = template_or (deployment_template c secret_hash) spec.template in
      record {
        name = deployment_name c.spice_config.name;
        namespace = c.spice_config.namespace;
        owners = d.owners ++ (owner_ref c ∷ []);
        labels = ops.put (own_labels c "spicedb") d.labels;
        annotations =
            ops.put ((migration_requirements_key, claimed_migration c migration_hash) ∷ [])
              d.annotations;
        spec = some (record spec {
          selector = some (with_match_labels ops (instance_of c) selector);
          template = some (record template {
            annotations = ops.put (template_annotations c secret_hash) template.annotations;
            labels = ops.put (own_labels c "spicedb") (ops.put (instance_of c) template.labels);
          });
        });
      }
