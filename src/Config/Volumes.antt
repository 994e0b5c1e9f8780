-- ===== src/Config/Volumes.antt =====
-- The volumes of the pods, and where they are mounted (pkg/config/config.go).
pub mod Covered
use spicedb_operator.Base.{
  Bool, List, String, [], false, if◌then◌else◌, not, true, ◌&&◌, ◌++◌, ◌==◌, ◌∷◌,
}
use spicedb_operator.Config.Types.{Config}

-- Where the files of a volume come from: a field of the pod, under a path, or a secret.
pub data VolumeSource : Type 0 where
  downward_api : String → String → VolumeSource
  secret_volume : String → VolumeSource
  -- a secret of which one key is taken
  secret_item : String → String → VolumeSource

pub record Volume : Type 0 where
  pub name : String
  pub source : VolumeSource

pub record VolumeMount : Type 0 where
  pub name : String
  pub mount_path : String
  pub read_only : Bool

abbrev pub volume : String → VolumeSource → Volume
volume name source = record { name = name; source = source }

abbrev pub mount : String → String → Bool → VolumeMount
mount name path read_only = record { name = name; mount_path = path; read_only = read_only }

-- `if b { list = append(list, x) }`
abbrev pub only {ℓ} : {A : Type ℓ} → Bool → A → List A
only b x = if b then x ∷ [] else []

abbrev pub is_set : String → Bool
is_set s = not (s == "")

-- `jobVolumes`
unfoldable pub job_volumes : Config → List Volume
job_volumes c =
    volume "podname" (downward_api "name" "metadata.name")
    ∷ (only (is_set c.migration_config.datastore_tls_secret_name)
          (volume "db-tls" (secret_volume c.migration_config.datastore_tls_secret_name))
        ++ (only (is_set c.migration_config.spanner_creds_secret_ref) (
              volume "spanner"
                (secret_item c.migration_config.spanner_creds_secret_ref "credentials.json"))
            ++ (only c.spice_config.project_labels
                  (volume "podlabels" (downward_api "labels" "metadata.labels"))
                ++ only c.spice_config.project_annotations
                    (volume "podannotations" (downward_api "annotations" "metadata.annotations")))))

-- `jobVolumeMounts`
unfoldable pub job_volume_mounts : Config → List VolumeMount
job_volume_mounts c =
    only (is_set c.migration_config.datastore_tls_secret_name)
      (mount "db-tls" "/spicedb-db-tls" true)
    ++ (only (is_set c.migration_config.spanner_creds_secret_ref)
          (mount "spanner" "/spanner-credentials" true)
        ++ (only c.spice_config.project_labels (mount "podlabels" "/etc/podlabels" false)
            ++ only c.spice_config.project_annotations
                (mount "podannotations" "/etc/podannotations" false)))

-- `deploymentVolumes`
unfoldable pub deployment_volumes : Config → List Volume
deployment_volumes c =
    let s = c.spice_config in
    job_volumes c
    ++ (only (is_set s.tls_secret_name) (volume "tls" (secret_volume s.tls_secret_name))
        ++ (only (is_set s.dispatch_upstream_ca_secret_name && s.dispatch_enabled)
              (volume "dispatch-tls" (secret_volume s.dispatch_upstream_ca_secret_name))
            ++ only (is_set s.telemetry_tls_ca_secret_name)
                (volume "telemetry-tls" (secret_volume s.telemetry_tls_ca_secret_name))))

-- `deploymentVolumeMounts`
unfoldable pub deployment_volume_mounts : Config → List VolumeMount
deployment_volume_mounts c =
    let s = c.spice_config in
    job_volume_mounts c
    ++ (only (is_set s.tls_secret_name) (mount "tls" "/tls" true)
        ++ (only (is_set s.dispatch_upstream_ca_secret_name && s.dispatch_enabled)
              (mount "dispatch-tls" "/dispatch-tls" true)
            ++ only (is_set s.telemetry_tls_ca_secret_name)
                (mount "telemetry-tls" "/telemetry-tls" true)))
