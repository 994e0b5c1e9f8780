-- ===== src/Controller/Validation/Status.antt =====
-- The status that `ValidateConfigHandler` (pkg/controller/validate_config.go) passes on.
use spicedb_operator.Base.{
  Bool, List, Option, String, arith, eq_iff, false, if◌then◌else◌, inl, inr, refl, true, ◌≡◌, ◌⊎◌,
}
use spicedb_operator.Api.Version.{Version}
use spicedb_operator.Api.Condition.{Condition, new_invalid_config_condition, validating_failed}
use spicedb_operator.Api.Cluster.{
  Cluster, ClusterStatus, status_equals, find_status_condition, set_status_condition,
  remove_status_condition,
}
use spicedb_operator.Controller.Types.{
  Config, Context, Call, Outcome, Trace, Run, Server, Env, perform, finish, record_event, hand_on,
  next_handler, done, requeue_err, requeue_api_err, patch_status, event,
}
use spicedb_operator.Controller.Spec.{is_reported}
use spicedb_operator.Controller.Validation.{
  Validation, valid, invalid, failed_cluster, reject_config, computed_status, write_status,
  offered_versions, accept_config, validate_config,
}
use spicedb_operator.Controller.Traces.{Meets, finish-Meets, perform-Meets, record_event-Meets}

-- The status is of the configuration and of the generation of the cluster; its current migration
-- and its secrets are those of the cluster that was read.
unfoldable pub Describes : Cluster → Config → String → ClusterStatus → Type 0
Describes c config hash s =
    (s.observed_generation ≡ c.generation)
    × (s.target_migration_hash ≡ hash)
    × (s.current_migration_hash ≡ c.status.current_migration_hash)
    × (s.secret_hash ≡ c.status.secret_hash)
    × (s.image ≡ config.target_image)
    × (s.migration ≡ config.target_migration)
    × (s.phase ≡ config.target_phase)

-- How the handler ends: a valid configuration goes on, with its hash, and a status that describes it;
-- an invalid one is done with.
pub data ConfigEnd (ctx : Context) (migration_hash : Config → String)
    : Validation → Outcome → Type 0 where
  goes_on :
      (config : Config) (warning : Option String) (s : ClusterStatus)
      → Describes ctx.cluster config (migration_hash config) s
      → ConfigEnd ctx migration_hash (valid config warning) (
          hand_on next_handler (record ctx {
            migration_hash = migration_hash config;
            config = config;
            cluster = record (ctx.cluster) { status = s };
          }))
  unavailable :
      (config : Config) (warning : Option String) (e : String)
      → ConfigEnd ctx migration_hash (valid config warning) (requeue_err e)
  rejected : (e : String) → ConfigEnd ctx migration_hash (invalid e) done
  failed : (v : Validation) (e : String) → ConfigEnd ctx migration_hash v (requeue_api_err e)

-- The status that the handler writes: one that describes a valid configuration, or, of an invalid
-- one, one of the generation of the cluster.
pub data ConfigCall (ctx : Context) (migration_hash : Config → String)
    : Validation → Call → Type 0 where
  writes :
      (config : Config) (warning : Option String) (c : Cluster)
      → Describes ctx.cluster config (migration_hash config) c.status
      → ConfigCall ctx migration_hash (valid config warning) (patch_status c)
  marks :
      (e : String) (c : Cluster)
      → c.status.observed_generation ≡ ctx.cluster.generation
      → ConfigCall ctx migration_hash (invalid e) (patch_status c)
  reports : (e : String) → ConfigCall ctx migration_hash (invalid e) (event "InvalidSpiceDBConfig")

failed_cluster-generation :
    (env : Env) (c : Cluster) (new : Condition)
    → (failed_cluster env c new).status.observed_generation ≡ c.generation
unfolding failed_cluster set_status_condition remove_status_condition
failed_cluster-generation env c new = refl

computed_status-Describes :
    (env : Env) (c : Cluster) (config : Config) (hash : String) (warning : Option String)
    (offered : List Version)
    → Describes c config hash (computed_status env c config hash warning offered)
unfolding computed_status Describes
computed_status-Describes env c config hash warning offered =
    (refl, refl, refl, refl, refl, refl, refl)

-- A status that the handler takes for the computed one describes the configuration as well.
status_equals-Describes :
    (c : Cluster) (config : Config) (hash : String) (s : ClusterStatus)
    → Describes c config hash s
    → status_equals c.status s ≡ true
    → Describes c config hash c.status
unfolding status_equals Describes
status_equals-Describes c config hash s d h = ground (
  arith,
  eq_iff c.status.target_migration_hash s.target_migration_hash,
  eq_iff c.status.image s.image,
  eq_iff c.status.migration s.migration,
  eq_iff c.status.phase s.phase,
)

module _ (env : Env) (server : Server) (migration_hash : Config → String) (ctx : Context) where
  write_status-Meets :
      (config : Config) (warning : Option String) (s : ClusterStatus) (t : Trace)
      → Describes ctx.cluster config (migration_hash config) s
      → Meets
          (ConfigCall ctx migration_hash (valid config warning))
          (ConfigEnd ctx migration_hash (valid config warning))
          t
          (write_status server
            (record ctx { migration_hash = migration_hash config; config = config })
            s
            t)
  unfolding write_status
  write_status-Meets config warning s t d = go (status_equals ctx.cluster.status s) refl
    where
      written : Cluster
      written = record (ctx.cluster) { status = s }

      after : Cluster → Outcome
      after c =
          hand_on next_handler
            (record ctx { migration_hash = migration_hash config; config = config; cluster = c })

      go :
          (b : Bool)
          → status_equals ctx.cluster.status s ≡ b
          → Meets
              (ConfigCall ctx migration_hash (valid config warning))
              (ConfigEnd ctx migration_hash (valid config warning))
              t
              ((if b
                  then finish (after ctx.cluster)
                  else perform server
                      (patch_status written)
                      requeue_api_err
                      (finish (after written)))
                t)
      go true e = finish-Meets (after ctx.cluster) t (
          goes_on config warning ctx.cluster.status
            (status_equals-Describes ctx.cluster config (migration_hash config) s d e))
      go false e =
          perform-Meets server (patch_status written) requeue_api_err (finish (after written)) t
            (writes config warning written d) (λ f. failed (valid config warning) f)
            (λ u. finish-Meets (after written) u (goes_on config warning s d))

  accept_config-Meets :
      (config : Config) (warning : Option String) (o : String ⊎ List Version) (t : Trace)
      → Meets
          (ConfigCall ctx migration_hash (valid config warning))
          (ConfigEnd ctx migration_hash (valid config warning))
          t
          (accept_config env server ctx config (migration_hash config) warning o t)
  unfolding accept_config
  accept_config-Meets config warning (inl e) t =
      finish-Meets (requeue_err e) t (unavailable config warning e)
  accept_config-Meets config warning (inr offered) t =
      write_status-Meets config warning
        (computed_status env ctx.cluster config (migration_hash config) warning offered) t
        (computed_status-Describes env ctx.cluster config (migration_hash config) warning offered)

  reject_config-Meets :
      (e : String) (t : Trace)
      → Meets
          (ConfigCall ctx migration_hash (invalid e))
          (ConfigEnd ctx migration_hash (invalid e))
          t
          (reject_config env server ctx e t)
  unfolding reject_config
  reject_config-Meets e t = go (
      is_reported (find_status_condition env.conditions ctx.cluster validating_failed)
        (new_invalid_config_condition ctx.secret_hash e).message)
    where
      marked : Cluster
      marked = failed_cluster env ctx.cluster (new_invalid_config_condition ctx.secret_hash e)

      report : Trace → Run
      report = record_event "InvalidSpiceDBConfig" (finish done)

      go :
          (b : Bool)
          → Meets
              (ConfigCall ctx migration_hash (invalid e))
              (ConfigEnd ctx migration_hash (invalid e))
              t
              ((if b
                  then finish done
                  else perform server (patch_status marked) requeue_api_err report)
                t)
      go true = finish-Meets done t (rejected e)
      go false =
          perform-Meets server (patch_status marked) requeue_api_err report t
            (marks e marked (
              failed_cluster-generation env ctx.cluster
                (new_invalid_config_condition ctx.secret_hash e)))
            (λ f. failed (invalid e) f)
            (λ u.
              record_event-Meets "InvalidSpiceDBConfig" (finish done) u (reports e)
                (λ v. finish-Meets done v (rejected e)))

  -- Whatever the API server and the configuration answer, a valid configuration goes on with its
  -- hash and a status that describes it, also when the status is not written because it is taken
  -- for equal; what is written describes it too; and an invalid one never goes on.
  pub validate_config-Meets :
      (available : String → Version → String ⊎ List Version) (v : Validation) (t : Trace)
      → Meets
          (ConfigCall ctx migration_hash v)
          (ConfigEnd ctx migration_hash v)
          t
          (validate_config env server migration_hash available ctx v t)
  unfolding validate_config
  validate_config-Meets available (invalid e) t = reject_config-Meets e t
  validate_config-Meets available (valid config warning) t =
      accept_config-Meets config warning (offered_versions available config config.spicedb_version)
        t
