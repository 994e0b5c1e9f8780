-- ===== src/Config/Defaults.antt =====
-- The keys of a cluster's configuration and their defaults (pkg/config/config.go).
use spicedb_operator.Base.{String, false, true}
use spicedb_operator.Base.Int.{pos}
use spicedb_operator.Config.Keys.{BoolKey, IntKey, TextKey, new_string_key}

-- `newKey`
abbrev pub new_key : String → String → TextKey
new_key k default = record { key = k; default_value = default }

abbrev pub image_key : TextKey
image_key = new_string_key "image"

abbrev pub tls_secret_name_key : TextKey
tls_secret_name_key = new_string_key "tlsSecretName"

abbrev pub dispatch_ca_key : TextKey
dispatch_ca_key = new_string_key "dispatchUpstreamCASecretName"

abbrev pub telemetry_ca_key : TextKey
telemetry_ca_key = new_string_key "telemetryCASecretName"

abbrev pub dispatch_ca_file_path_key : TextKey
dispatch_ca_file_path_key = new_key "dispatchUpstreamCAFilePath" "tls.crt"

abbrev pub env_prefix_key : TextKey
env_prefix_key = new_key "envPrefix" "SPICEDB"

abbrev pub spice_db_cmd_key : TextKey
spice_db_cmd_key = new_key "cmd" "spicedb"

abbrev pub target_migration_key : TextKey
target_migration_key = new_string_key "targetMigration"

abbrev pub target_phase_key : TextKey
target_phase_key = new_string_key "datastoreMigrationPhase"

abbrev pub log_level_key : TextKey
log_level_key = new_key "logLevel" "info"

abbrev pub migration_log_level_key : TextKey
migration_log_level_key = new_key "migrationLogLevel" "debug"

abbrev pub spanner_credentials_key : TextKey
spanner_credentials_key = new_string_key "spannerCredentials"

abbrev pub datastore_tls_secret_key : TextKey
datastore_tls_secret_key = new_string_key "datastoreTLSSecretName"

abbrev pub datastore_engine_key : TextKey
datastore_engine_key = new_string_key "datastoreEngine"

abbrev pub service_account_name_key : TextKey
service_account_name_key = new_string_key "serviceAccountName"

abbrev pub project_labels_key : BoolKey
project_labels_key = record { key = "projectLabels"; default_value = true }

abbrev pub project_annotations_key : BoolKey
project_annotations_key = record { key = "projectAnnotations"; default_value = true }

abbrev pub dispatch_enabled_key : BoolKey
dispatch_enabled_key = record { key = "dispatchEnabled"; default_value = true }

abbrev pub skip_migrations_key : BoolKey
skip_migrations_key = record { key = "skipMigrations"; default_value = false }

abbrev pub skip_tls_warning_key : BoolKey
skip_tls_warning_key = record { key = "skipTLSWarning"; default_value = false }

abbrev pub pdb_disabled_sub_key : BoolKey
pdb_disabled_sub_key = record { key = "disabled"; default_value = false }

abbrev pub replicas_key : IntKey
replicas_key = record { key = "replicas"; default_value = pos 2 }

abbrev pub replicas_key_for_memory : IntKey
replicas_key_for_memory = record { key = "replicas"; default_value = pos 1 }

abbrev pub pdb_max_unavailable_sub_key : TextKey
pdb_max_unavailable_sub_key = new_string_key "maxUnavailable"

abbrev pub pdb_min_available_sub_key : TextKey
pdb_min_available_sub_key = new_string_key "minAvailable"

-- `DefaultTLSKeyFile` and `DefaultTLSCrtFile`
abbrev pub default_tls_key_file : String
default_tls_key_file = "/tls/tls.key"

abbrev pub default_tls_crt_file : String
default_tls_crt_file = "/tls/tls.crt"

abbrev pub grpc_tls_key_path_key : TextKey
grpc_tls_key_path_key = new_key "grpcTLSKeyPath" default_tls_key_file

abbrev pub grpc_tls_cert_path_key : TextKey
grpc_tls_cert_path_key = new_key "grpcTLSCertPath" default_tls_crt_file

abbrev pub dispatch_cluster_tls_key_path_key : TextKey
dispatch_cluster_tls_key_path_key = new_key "dispatchClusterTLSKeyPath" default_tls_key_file

abbrev pub dispatch_cluster_tls_cert_path_key : TextKey
dispatch_cluster_tls_cert_path_key = new_key "dispatchClusterTLSCertPath" default_tls_crt_file

abbrev pub http_tls_key_path_key : TextKey
http_tls_key_path_key = new_key "httpTLSKeyPath" default_tls_key_file

abbrev pub http_tls_cert_path_key : TextKey
http_tls_cert_path_key = new_key "httpTLSCertPath" default_tls_crt_file

abbrev pub dashboard_tls_key_path_key : TextKey
dashboard_tls_key_path_key = new_key "dashboardTLSKeyPath" default_tls_key_file

abbrev pub dashboard_tls_cert_path_key : TextKey
dashboard_tls_cert_path_key = new_key "dashboardTLSCertPath" default_tls_crt_file

abbrev pub pdb_key : String
pdb_key = "pdb"

abbrev pub extra_pod_labels_key : String
extra_pod_labels_key = "extraPodLabels"

abbrev pub extra_pod_annotations_key : String
extra_pod_annotations_key = "extraPodAnnotations"

abbrev pub extra_service_account_annotations_key : String
extra_service_account_annotations_key = "extraServiceAccountAnnotations"
