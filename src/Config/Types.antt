-- ===== src/Config/Types.antt =====
-- What `NewConfig` makes (pkg/config/config.go, pkg/config/global.go): the configuration of one
-- cluster, its errors and its warnings.
use spicedb_operator.Base.{Bool, List, Option, String, [], false, none}
use spicedb_operator.Base.Int.{ℤ}
use spicedb_operator.Base.Map.{Map}
use spicedb_operator.Api.Cluster.{Patch}
use spicedb_operator.Api.Version.{Version}
use spicedb_operator.Config.Keys.{BadPair, KeyError}
use spicedb_operator.Updates.Types.{Error, UpdateGraph}

-- `OperatorConfig`
pub record OperatorConfig : Type 0 where
  pub image_name : String
  pub update_graph : UpdateGraph

-- `NewOperatorConfig`
unfoldable pub new_operator_config : OperatorConfig
new_operator_config = record { image_name = ""; update_graph = record { channels = [] } }

-- `ResolvedCredentialRef`
pub record ResolvedCredentialRef : Type 0 where
  pub secret_name : String
  pub key : String
  pub skip : Bool

-- `ResolvedCredentialRef{}`
abbrev pub empty_ref : ResolvedCredentialRef
empty_ref = record { secret_name = ""; key = ""; skip = false }

-- `intstr.IntOrString`
pub data IntOrString : Type 0 where
  from_int : ℤ → IntOrString
  from_string : String → IntOrString

-- `PDBConfig`
pub record PdbConfig : Type 0 where
  pub disabled : Bool
  pub max_unavailable : Option IntOrString
  pub min_available : Option IntOrString

-- `PDBConfig{}`
abbrev pub empty_pdb : PdbConfig
empty_pdb = record { disabled = false; max_unavailable = none; min_available = none }

-- `MigrationConfig`
pub record MigrationConfig : Type 0 where
  pub target_migration : String
  pub target_phase : String
  pub migration_log_level : String
  pub datastore_engine : String
  pub datastore_uri : String
  pub spanner_creds_secret_ref : String
  pub target_spice_db_image : String
  pub env_prefix : String
  pub spice_db_cmd : String
  pub datastore_tls_secret_name : String
  pub spice_db_version : Option Version

-- `SpiceConfig`
pub record SpiceConfig : Type 0 where
  pub log_level : String
  pub skip_migrations : Bool
  pub name : String
  pub namespace : String
  pub uid : String
  pub replicas : ℤ
  pub preshared_key : String
  pub env_prefix : String
  pub spice_db_cmd : String
  pub tls_secret_name : String
  pub skip_tls_warning : Bool
  pub dispatch_enabled : Bool
  pub dispatch_upstream_ca_secret_name : String
  pub dispatch_upstream_ca_secret_path : String
  pub telemetry_tls_ca_secret_name : String
  pub datastore_uri_ref : ResolvedCredentialRef
  pub preshared_key_ref : ResolvedCredentialRef
  pub migration_secrets_ref : ResolvedCredentialRef
  pub extra_pod_labels : Map String
  pub extra_pod_annotations : Map String
  pub extra_service_account_annotations : Map String
  pub service_account_name : String
  pub project_labels : Bool
  pub project_annotations : Bool
  pub passthrough : Map String
  pub pdb : PdbConfig

-- `Config`; the resolver of patch metadata is a parameter of the functions that use it.
pub record Config : Type 0 where
  pub migration_config : MigrationConfig
  pub spice_config : SpiceConfig
  pub patches : List Patch

-- The errors of `NewConfig`, with what their messages name.
pub data ConfigError : Type 0 where
  empty_config unparsed_config engine_required : ConfigError
  no_target : Error → ConfigError
  no_update_in_channel : ConfigError
  invalid_key : KeyError → ConfigError
  credentials_required : ConfigError
  -- of the credential with the name
  credential_missing : String → ConfigError
  secret_missing : String → ConfigError
  secret_lacks : String → ConfigError
  invalid_replicas : ℤ → KeyError → ConfigError
  too_many_replicas : ConfigError
  expected_object : String → ConfigError
  both_pdb_bounds : ConfigError
  patch_failed : ConfigError

-- The warnings of `NewConfig`.
pub data ConfigWarning : Type 0 where
  ignored_key : String → ConfigWarning
  defaulting_to_false : KeyError → ConfigWarning
  bad_metadata : BadPair → ConfigWarning
  unknown_pdb_key : String → ConfigWarning
  no_tls : ConfigWarning
  unchanged_by_patches : ConfigWarning
  patches_applied : ConfigWarning

-- The three results of `NewConfig`.
pub record Outcome : Type 0 where
  pub config : Option Config
  pub warnings : List ConfigWarning
  pub errors : List ConfigError
