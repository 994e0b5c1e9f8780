-- ===== src/Config/Literals.antt =====
-- The settings that `NewConfig` makes itself, and the literals that it fills in
-- (pkg/config/config.go).
use spicedb_operator.Base.{
  Bool, List, Option, String, [], if◌then◌else◌, none, not, some, ◌&&◌, ◌==◌, ◌||◌, ◌∷◌,
}
use spicedb_operator.Base.Map.{Map, insert}
use spicedb_operator.Base.Text.{joined}
use spicedb_operator.Api.Cluster.{Cluster}
use spicedb_operator.Config.Credentials.{Credentials}
use spicedb_operator.Config.Defaults.{
  dashboard_tls_cert_path_key, dashboard_tls_key_path_key, dispatch_cluster_tls_cert_path_key,
  dispatch_cluster_tls_key_path_key, grpc_tls_cert_path_key, grpc_tls_key_path_key,
  http_tls_cert_path_key, http_tls_key_path_key,
}
use spicedb_operator.Config.Keys.{TextKey}
use spicedb_operator.Config.Passthrough.{pop_onto}
use spicedb_operator.Config.Readings.{Read, Settings}
use spicedb_operator.Config.Stages.{Texts}
use spicedb_operator.Config.Types.{
  ConfigError, ConfigWarning, MigrationConfig, SpiceConfig, engine_required, no_target, no_tls,
  no_update_in_channel,
}
use spicedb_operator.Config.Values.{RawConfig, format_bool}
use spicedb_operator.Updates.Target.{Target}
use spicedb_operator.Updates.Types.{Error, State}

-- The errors on the engine and on the release to run.
unfoldable pub engine_errors : String → List ConfigError
engine_errors engine = if engine == "" then engine_required ∷ [] else []

unfoldable pub target_image : String → State → String
target_image base_image s =
    if not (s.digest == "")
    then joined base_image (joined "@" s.digest)
    else if not (s.tag == "")
    then joined base_image (joined ":" s.tag)
    else ""

unfoldable pub image_errors : State → List ConfigError
image_errors s = if s.digest == "" && s.tag == "" then no_update_in_channel ∷ [] else []

unfoldable pub target_errors : Option Error → List ConfigError
target_errors none = []
target_errors (some e) = no_target e ∷ []

-- The paths of the TLS files, for a cluster with a TLS secret.
abbrev pub tls_path_keys : List TextKey
tls_path_keys =
    grpc_tls_key_path_key ∷ grpc_tls_cert_path_key ∷ dispatch_cluster_tls_key_path_key
    ∷ dispatch_cluster_tls_cert_path_key ∷ http_tls_key_path_key ∷ http_tls_cert_path_key
    ∷ dashboard_tls_key_path_key ∷ dashboard_tls_cert_path_key ∷ []

abbrev pub put_if : Bool → String → String → Map String → Map String
put_if b k v m = if b then insert k v m else m

-- The settings that the code sets itself, before those of the user.
unfoldable pub own_settings :
    Texts → Settings → String → RawConfig → Map String × List ConfigWarning × RawConfig
own_settings t s phase config =
    let first =
      put_if (not (t.spanner_credentials == "")) "datastoreSpannerCredentials"
        "/spanner-credentials/credentials.json"
        (insert "dispatchClusterEnabled" (format_bool s.dispatch_enabled)
          (insert "datastoreEngine" t.datastore_engine [])) in
    let (with_paths, without_paths) = pop_onto tls_path_keys first config in
    let has_tls = not (t.tls_secret_name == "") in
    let paths = if has_tls then with_paths else first in
    let rest = if has_tls then without_paths else config in
    let warnings = if has_tls || s.skip_tls_warning then [] else no_tls ∷ [] in
    (
      put_if (not (phase == "")) "datastoreMigrationPhase" phase (
          put_if (not (t.telemetry_ca == "")) "telemetryCAOverridePath" "/telemetry-tls/tls.crt" (
            put_if (not (t.dispatch_ca == "") && s.dispatch_enabled) "dispatchUpstreamCAPath"
              (joined "/dispatch-tls/" t.dispatch_ca_file_path) paths)),
      warnings,
      rest,
    )

-- The literals of the source, filled in.
unfoldable pub make_migration_config : Texts → Target → String → MigrationConfig
make_migration_config t target uri = record {
  target_migration = if target.state.migration == "" then "head" else target.state.migration;
  target_phase = target.state.phase;
  migration_log_level = t.migration_log_level;
  datastore_engine = t.datastore_engine;
  datastore_uri = uri;
  spanner_creds_secret_ref = t.spanner_credentials;
  target_spice_db_image = target_image target.base_image target.state;
  env_prefix = t.env_prefix;
  spice_db_cmd = t.spice_db_cmd;
  datastore_tls_secret_name = t.datastore_tls_secret;
  spice_db_version = target.target;
}

unfoldable pub make_spice_config :
    Cluster → Read → Settings → Credentials → Map String → SpiceConfig
make_spice_config cluster r s c passthrough = record {
  log_level = r.texts.log_level;
  skip_migrations = s.skip_migrations;
  name = cluster.name;
  namespace = cluster.namespace;
  uid = cluster.uid;
  replicas = s.replicas;
  preshared_key = c.preshared_key.value;
  env_prefix = r.texts.env_prefix;
  spice_db_cmd = r.texts.spice_db_cmd;
  tls_secret_name = r.texts.tls_secret_name;
  skip_tls_warning = s.skip_tls_warning;
  dispatch_enabled = s.dispatch_enabled;
  dispatch_upstream_ca_secret_name = r.texts.dispatch_ca;
  dispatch_upstream_ca_secret_path = r.texts.dispatch_ca_file_path;
  telemetry_tls_ca_secret_name = r.texts.telemetry_ca;
  datastore_uri_ref = c.datastore_uri.ref;
  preshared_key_ref = c.preshared_key.ref;
  migration_secrets_ref = c.migration_secrets_ref;
  extra_pod_labels = s.extra_pod_labels;
  extra_pod_annotations = s.extra_pod_annotations;
  extra_service_account_annotations = s.extra_service_account_annotations;
  service_account_name =
      if r.texts.service_account_name == "" then cluster.name else r.texts.service_account_name;
  project_labels = r.project_labels;
  project_annotations = r.project_annotations;
  passthrough = passthrough;
  pdb = s.pdb;
}
