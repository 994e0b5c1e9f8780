-- ===== src/Controller/Validation.antt =====
-- `ValidateConfigHandler` (pkg/controller/validate_config.go). What `config.NewConfig` answers, the
-- hash of the migration configuration and what `AvailableVersions` answers are parameters.
pub mod Status
use spicedb_operator.Base.{List, Option, String, [], if◌then◌else◌, inl, inr, none, some, ◌⊎◌}
use spicedb_operator.Api.Version.{Version}
use spicedb_operator.Api.Condition.{
  Condition, ConditionOps, new_invalid_config_condition, new_config_warning_condition,
  type_validating, validating_failed, type_config_warnings,
}
use spicedb_operator.Api.Cluster.{
  Cluster, ClusterStatus, status_equals, find_status_condition, set_status_condition,
  remove_status_condition,
}
use spicedb_operator.Controller.Types.{
  Config, Context, Trace, Run, Server, Env, perform, finish, record_event, hand_on, next_handler,
  done, requeue_err, requeue_api_err, patch_status,
}
use spicedb_operator.Controller.Spec.{is_reported}

-- What `NewConfig` answers: a configuration, with a warning or without, or an error.
pub data Validation : Type 0 where
  valid : Config → Option String → Validation
  invalid : String → Validation

-- The status with the failed condition, for the generation of the cluster.
unfoldable pub failed_cluster : Env → Cluster → Condition → Cluster
failed_cluster env cluster failed =
    let status = record (cluster.status) { observed_generation = cluster.generation } in
    set_status_condition env.conditions
      (remove_status_condition env.conditions (record cluster { status = status }) type_validating)
      failed

-- `if err != nil` after `NewConfig`
unfoldable pub reject_config : Env → Server → Context → String → Trace → Run
reject_config env server ctx e =
    let failed = new_invalid_config_condition ctx.secret_hash e in
    if is_reported (find_status_condition env.conditions ctx.cluster validating_failed)
      failed.message
    then finish done
    else perform server (patch_status (failed_cluster env ctx.cluster failed)) requeue_api_err
        (record_event "InvalidSpiceDBConfig" (finish done))

-- The conditions of the computed status.
unfoldable pub settle_warning : ConditionOps → List Condition → Option String → List Condition
settle_warning ops conditions none = ops.remove conditions type_config_warnings
settle_warning ops conditions (some warning) =
    ops.set conditions (new_config_warning_condition warning)

-- `computedStatus`
unfoldable pub computed_status :
    Env → Cluster → Config → String → Option String → List Version → ClusterStatus
computed_status env cluster config hash warning offered = record {
  observed_generation = cluster.generation;
  target_migration_hash = hash;
  current_migration_hash = cluster.status.current_migration_hash;
  secret_hash = cluster.status.secret_hash;
  image = config.target_image;
  migration = config.target_migration;
  phase = config.target_phase;
  current_version = config.spicedb_version;
  available_versions = offered;
  conditions =
      settle_warning env.conditions
        (env.conditions.remove (env.conditions.remove cluster.status.conditions validating_failed)
          type_validating)
        warning;
}

-- "Remove invalid config status and set image and hash": the status is written when it differs.
unfoldable pub write_status : Server → Context → ClusterStatus → Trace → Run
write_status server ctx computed =
    let cluster = record (ctx.cluster) { status = computed } in
    if status_equals ctx.cluster.status computed
    then finish (hand_on next_handler ctx)
    else perform server (patch_status cluster) requeue_api_err
        (finish (hand_on next_handler (record ctx { cluster = cluster })))

-- `AvailableVersions` of the version, if there is one: the versions, or an error.
unfoldable pub offered_versions :
    (String → Version → String ⊎ List Version) → Config → Option Version → String ⊎ List Version
offered_versions available config none = inr []
offered_versions available config (some v) = available config.datastore_engine v

-- The rest of the handler, of a valid configuration.
unfoldable pub accept_config :
    Env → Server → Context → Config → String → Option String → String ⊎ List Version → Trace → Run
accept_config env server ctx config hash warning (inl e) = finish (requeue_err e)
accept_config env server ctx config hash warning (inr offered) =
    write_status server (record ctx { migration_hash = hash; config = config })
      (computed_status env ctx.cluster config hash warning offered)

-- `ValidateConfigHandler.Handle`
unfoldable pub validate_config :
    Env
    → Server
    → (Config → String)
    → (String → Version → String ⊎ List Version)
    → Context
    → Validation
    → Trace
    → Run
validate_config env server migration_hash available ctx (invalid e) = reject_config env server ctx e
validate_config env server migration_hash available ctx (valid config warning) =
    accept_config env server ctx config (migration_hash config) warning
      (offered_versions available config config.spicedb_version)
