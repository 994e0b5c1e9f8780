-- ===== src/Config/NewConfig.antt =====
-- `NewConfig` (pkg/config/config.go): the configuration of a cluster, or the errors for which there
-- is none. `json.Unmarshal` of the configuration, the printing of an object, the patch libraries
-- and the encoding of the six objects that are patched ahead of time are parameters.
pub mod Steps
pub mod Lookups
pub mod Sound
pub mod Origin
pub mod Total
pub mod Image
use spicedb_operator.Base.{
  List, Option, Result, String, [], err, if◌then◌else◌, length, ltb, none, not, ok, panic, some,
  timeout, ℕ, ◌&&◌, ◌++◌, ◌+◌, ◌>>=◌, ◌∷◌,
}
use spicedb_operator.Base.Map.{Map}
use spicedb_operator.Api.Cluster.{Cluster, Patch, rollout_in_progress}
use spicedb_operator.Api.Condition.{ConditionOps}
use spicedb_operator.Config.Credentials.{Secrets, resolve_credentials}
use spicedb_operator.Config.Literals.{
  engine_errors, image_errors, make_migration_config, make_spice_config, own_settings,
  target_errors,
}
use spicedb_operator.Config.Passthrough.{finish_passthrough}
use spicedb_operator.Config.Patches.{
  Applied, PatchError, PatchLibrary, apply_patches, fix_deployment_patches,
}
use spicedb_operator.Config.Readings.{Read, read_first, read_settings}
use spicedb_operator.Config.Types.{
  Config, ConfigError, ConfigWarning, OperatorConfig, Outcome, empty_config, no_target,
  patch_failed, patches_applied, unchanged_by_patches, unparsed_config,
}
use spicedb_operator.Config.Values.{RawConfig, Scalar}
use spicedb_operator.Updates.Target.{Target, compute_target}
use spicedb_operator.Updates.Types.{Error}

-- What the objects say to the patches, and how the loop over them goes on.
pub record Checks : Type 0 where
  pub total : ℕ
  pub errors : List ConfigError
  pub warnings : List ConfigWarning

-- What a cluster is configured with, before its patches are tried.
pub record Draft : Type 0 where
  pub config : Config
  pub errors : List ConfigError
  pub warnings : List ConfigWarning

-- The three results, from the errors and the warnings.
unfoldable pub outcome : Config → List ConfigError → List ConfigWarning → Outcome
outcome config [] warnings = record { config = some config; warnings = warnings; errors = [] }
outcome config (e ∷ errors) warnings = record {
  config = none;
  warnings = warnings;
  errors = e ∷ errors;
}

-- Its errors and warnings with those of the patches.
unfoldable pub finished : Draft → Checks → Outcome
finished d c =
    let too_few = if ltb c.total (length d.config.patches) then patches_applied ∷ [] else [] in
    outcome d.config (d.errors ++ c.errors) (d.warnings ++ (c.warnings ++ too_few))

-- `errors.NewAggregate`: one error for those of an object
unfoldable pub aggregate : List PatchError → List ConfigError
aggregate [] = []
aggregate (e ∷ es) = patch_failed ∷ []

module _ {Meta : Type 0} (lib : PatchLibrary Meta) (ops : ConditionOps)
    (show_object : Map Scalar → String) where
  -- The body of the loop that tries the patches on the objects.
  unfoldable pub count_applied : Result PatchError Applied → Checks → Result ConfigError Checks
  count_applied (ok a) c = ok (record {
    total = a.count + c.total;
    errors = aggregate a.errors ++ c.errors;
    warnings =
        (if ltb 0 a.count && not a.diff then unchanged_by_patches ∷ [] else []) ++ c.warnings;
  })
  count_applied (err e) c = ok (record c { errors = patch_failed ∷ c.errors })
  count_applied panic c = panic
  count_applied timeout c = timeout

  unfoldable pub check_objects : List (Option String) → List Patch → Result ConfigError Checks
  check_objects [] patches = ok (record { total = 0; errors = []; warnings = [] })
  check_objects (o ∷ os) patches =
      check_objects os patches >>= λ c. count_applied (apply_patches lib o patches) c

  -- `NewConfig` from the point where the release to run is known, up to the patches.
  unfoldable pub draft : Cluster → Secrets → Read → Target → Draft
  draft cluster secrets r target =
      let s = read_settings show_object r.texts.datastore_engine r.rest in
      let c = resolve_credentials r.texts.datastore_engine secrets cluster.spec in
      let (own, tls_warnings, rest) = own_settings r.texts s target.state.phase s.rest in
      let passthrough = finish_passthrough show_object own rest in
      record {
        config = record {
          migration_config = make_migration_config r.texts target c.datastore_uri.value;
          spice_config = make_spice_config cluster r s c passthrough;
          patches = fix_deployment_patches lib cluster.name cluster.spec.patches;
        };
        errors =
            engine_errors r.texts.datastore_engine
            ++ (target_errors target.error
                ++ (image_errors target.state ++ (s.dispatch_errors ++ (c.errors ++ s.errors))));
        warnings = r.warnings ++ (s.warnings ++ tls_warnings);
      }

  -- The end of `NewConfig`: the patches are tried on the objects.
  unfoldable pub finish : (Config → List (Option String)) → Draft → Result ConfigError Outcome
  finish objects d = check_objects (objects d.config) d.config.patches >>= λ c. ok (finished d c)

  -- `ComputeTarget` for the cluster.
  unfoldable pub target_for : OperatorConfig → Cluster → Read → Result Error Target
  target_for operator cluster r =
      compute_target operator.update_graph operator.image_name cluster.spec.base_image r.image
        cluster.spec.version cluster.spec.channel r.texts.datastore_engine
        cluster.status.current_version (rollout_in_progress ops cluster)

  unfoldable pub with_target :
      (Config → List (Option String))
      → Cluster
      → Secrets
      → Read
      → Result Error Target
      → Result ConfigError Outcome
  with_target objects cluster secrets r (ok target) =
      finish objects (draft cluster secrets r target)
  with_target objects cluster secrets r (err e) = err (no_target e)
  with_target objects cluster secrets r panic = panic
  with_target objects cluster secrets r timeout = timeout

  unfoldable pub from_raw :
      (Config → List (Option String))
      → OperatorConfig
      → Cluster
      → Secrets
      → Option RawConfig
      → Result ConfigError Outcome
  from_raw objects operator cluster secrets none =
      ok (record { config = none; warnings = []; errors = unparsed_config ∷ [] })
  from_raw objects operator cluster secrets (some config) =
      let r = read_first config in
      with_target objects cluster secrets r (target_for operator cluster r)

  -- `NewConfig`
  unfoldable pub new_config :
      (String → Option RawConfig)
      → (Config → List (Option String))
      → OperatorConfig
      → Cluster
      → Secrets
      → Result ConfigError Outcome
  new_config unmarshal objects operator cluster secrets = elim cluster.spec.config [
    | none ↦ ok (record { config = none; warnings = []; errors = empty_config ∷ [] })
    | some text ↦ from_raw objects operator cluster secrets (unmarshal text)
  ]
