-- ===== src/Config/Stages.antt =====
-- The stages of `NewConfig` that take the keys out of the raw configuration (pkg/config/config.go).
use spicedb_operator.Base.{
  Bool, List, Option, String, [], if◌then◌else◌, map, none, some, ◌&&◌, ◌++◌, ◌==◌, ◌∷◌,
}
use spicedb_operator.Base.Int.{exceeds_one, parse_int, ℤ}
use spicedb_operator.Base.Map.{Map, delete, has, lookup}
use spicedb_operator.Config.Defaults.{
  datastore_engine_key, datastore_tls_secret_key, dispatch_ca_file_path_key, dispatch_ca_key,
  env_prefix_key, log_level_key, migration_log_level_key, pdb_disabled_sub_key, pdb_key,
  pdb_max_unavailable_sub_key, pdb_min_available_sub_key, replicas_key, replicas_key_for_memory,
  service_account_name_key, spanner_credentials_key, spice_db_cmd_key, target_migration_key,
  target_phase_key, telemetry_ca_key, tls_secret_name_key,
}
use spicedb_operator.Config.Keys.{BoolKey, int32_limit, pop_bool, pop_int, pop_set, pop_text}
use spicedb_operator.Config.Labels.{prefix}
use spicedb_operator.Config.Passthrough.{keys}
use spicedb_operator.Config.Types.{
  ConfigError, ConfigWarning, IntOrString, PdbConfig, bad_metadata, both_pdb_bounds,
  defaulting_to_false, empty_pdb, expected_object, from_int, from_string, ignored_key, invalid_key,
  invalid_replicas, too_many_replicas, unknown_pdb_key,
}
use spicedb_operator.Config.Values.{RawConfig, Scalar, Value, as_raw, leaf, object}

abbrev pub listed {ℓ} : {A : Type ℓ} → Option A → List A
listed none = []
listed (some a) = a ∷ []

-- `for _, k := range []string{"version", "channel"}`
unfoldable pub drop_ignored : List String → RawConfig → List ConfigWarning × RawConfig
drop_ignored [] config = ([], config)
drop_ignored (k ∷ ks) config =
    let (warnings, rest) = drop_ignored ks (delete k config) in
    let (skipped, untouched) = drop_ignored ks config in
    if has k config then (ignored_key k ∷ warnings, rest) else (skipped, untouched)

-- The values of the keys of type string. `targetMigration` and `datastoreMigrationPhase` are popped
-- with the others, and overwritten before they are read.
pub record Texts : Type 0 where
  pub tls_secret_name : String
  pub service_account_name : String
  pub dispatch_ca : String
  pub dispatch_ca_file_path : String
  pub telemetry_ca : String
  pub env_prefix : String
  pub spice_db_cmd : String
  pub log_level : String
  pub migration_log_level : String
  pub spanner_credentials : String
  pub datastore_tls_secret : String
  pub target_migration : String
  pub target_phase : String
  pub datastore_engine : String

-- The pops of the literals for `SpiceConfig` and `MigrationConfig`, and that of the engine.
unfoldable pub read_texts : RawConfig → Texts × RawConfig
read_texts config =
    let (tls, config1) = pop_text tls_secret_name_key config in
    let (account, config2) = pop_text service_account_name_key config1 in
    let (ca, config3) = pop_text dispatch_ca_key config2 in
    let (ca_path, config4) = pop_text dispatch_ca_file_path_key config3 in
    let (telemetry, config5) = pop_text telemetry_ca_key config4 in
    let (prefix, config6) = pop_text env_prefix_key config5 in
    let (cmd, config7) = pop_text spice_db_cmd_key config6 in
    let (level, config8) = pop_text log_level_key config7 in
    let (migration_level, config9) = pop_text migration_log_level_key config8 in
    let (spanner, config10) = pop_text spanner_credentials_key config9 in
    let (datastore_tls, config11) = pop_text datastore_tls_secret_key config10 in
    let (migration, config12) = pop_text target_migration_key config11 in
    let (phase, config13) = pop_text target_phase_key config12 in
    let (engine, config14) = pop_text datastore_engine_key config13 in
    (
      record {
        tls_secret_name = tls;
        service_account_name = account;
        dispatch_ca = ca;
        dispatch_ca_file_path = ca_path;
        telemetry_ca = telemetry;
        env_prefix = prefix;
        spice_db_cmd = cmd;
        log_level = level;
        migration_log_level = migration_level;
        spanner_credentials = spanner;
        datastore_tls_secret = datastore_tls;
        target_migration = migration;
        target_phase = phase;
        datastore_engine = engine;
      },
      config14,
    )

-- A key whose error is a warning.
unfoldable pub defaulting : BoolKey → RawConfig → Bool × List ConfigWarning × RawConfig
defaulting k config =
    let p = pop_bool k config in (p.value, map defaulting_to_false (listed p.error), p.rest)

-- A key whose error is one of the configuration.
unfoldable pub checked : BoolKey → RawConfig → Bool × List ConfigError × RawConfig
checked k config = let p = pop_bool k config in (p.value, map invalid_key (listed p.error), p.rest)

-- A set of labels or annotations: the set, its errors, its warnings and the rest.
unfoldable pub checked_set :
    (object_type metadata_type key : String)
    → RawConfig
    → Map String × List ConfigError × List ConfigWarning × RawConfig
checked_set object_type metadata_type key config =
    let p = pop_set object_type metadata_type key config in
    (p.value.0, map invalid_key (listed p.error), map bad_metadata p.value.1, p.rest)

-- The replicas, from `selectedReplicaKey`; the memory engine runs one at most.
unfoldable pub read_replicas :
    (Map Scalar → String) → String → RawConfig → ℤ × List ConfigError × RawConfig
read_replicas show_object engine config =
    let in_memory = engine == "memory" in
    let p =
      pop_int show_object (if in_memory then replicas_key_for_memory else replicas_key) config in
    let too_many = if exceeds_one p.value && in_memory then too_many_replicas ∷ [] else [] in
    (p.value, map (invalid_replicas p.value) (listed p.error) ++ too_many, p.rest)

-- `parseIntOrStringValue`
unfoldable pub parse_int_or_string_value : String → IntOrString
parse_int_or_string_value s = elim (parse_int int32_limit s) [
  | none ↦ from_string s
  | some v ↦ from_int v
]

-- `if s := ….pop(pdbConfig); s != ""`
unfoldable pub pdb_bound : String → Option IntOrString
pdb_bound s = if s == "" then none else some (parse_int_or_string_value s)

unfoldable pub both : Option IntOrString → Option IntOrString → List ConfigError
both none m = []
both (some x) none = []
both (some x) (some y) = both_pdb_bounds ∷ []

unfoldable pub read_pdb_object : RawConfig → PdbConfig × List ConfigError × List ConfigWarning
read_pdb_object config =
    let (disabled, errors, config1) = checked pdb_disabled_sub_key config in
    let (max_text, config2) = pop_text pdb_max_unavailable_sub_key config1 in
    let (min_text, config3) = pop_text pdb_min_available_sub_key config2 in
    (
      record {
        disabled = disabled;
        max_unavailable = pdb_bound max_text;
        min_available = pdb_bound min_text;
      },
      errors ++ both (pdb_bound max_text) (pdb_bound min_text),
      map unknown_pdb_key (keys config3),
    )

unfoldable pub read_pdb_value : Option Value → PdbConfig × List ConfigError × List ConfigWarning
read_pdb_value none = (empty_pdb, [], [])
read_pdb_value (some (object m)) = read_pdb_object (as_raw m)
read_pdb_value (some (leaf s)) = (empty_pdb, expected_object pdb_key ∷ [], [])

-- The block on `pdbKey`.
unfoldable pub read_pdb : RawConfig → PdbConfig × List ConfigError × List ConfigWarning × RawConfig
read_pdb config =
    let (pdb, errors, warnings) = read_pdb_value (lookup pdb_key config) in
    (pdb, errors, warnings, delete pdb_key config)
