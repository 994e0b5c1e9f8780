-- ===== src/Examples/Configs.antt =====
-- A cluster with its secrets, and the theorems on pkg/config applied to it.
use spicedb_operator.Base.{
  All, In, List, Option, Result, Returns, String, [], arith, at_head, at_tail, err, if◌then◌else◌,
  inl, length, ne_of_test, none, not, ok, panic, refl, some, subst, sym, timeout, true, ◌++◌, ◌+◌,
  ◌==◌, ◌↔◌, ◌∷◌, ◌≡◌, ◌≢◌, ◌⊎◌,
}
use spicedb_operator.Examples.Conditions.{condition_list, remove_from, set_in, find_in}
use spicedb_operator.Base.Int.{Fits, in_range, parse_bool, parse_int, pos, read_digits, scan_digits}
use spicedb_operator.Base.Map.{Map, delete, get_or, has, insert, lookup}
use spicedb_operator.Base.Text.{contains_text, cut, equal_fold, split, starts_with}
use spicedb_operator.Api.Cluster.{
  Cluster, ClusterSpec, ClusterStatus, find_status_condition, is_status_condition_true,
  rollout_in_progress,
}
use spicedb_operator.Config.Credentials.{
  Secrets, chosen_credentials, key_or, promoted, read_field, read_secret, resolve_chosen,
  resolve_credentials, resolve_datastore_uri, resolve_migration_secrets, resolve_preshared_key,
  resolve_set,
}
use spicedb_operator.Config.Credentials.Fetched.{resolve_credentials-fetched}
use spicedb_operator.Config.Credentials.Usable.{AllUsable, resolve_credentials_iff}
use spicedb_operator.Config.Defaults.{replicas_key}
use spicedb_operator.Config.Keys.{
  found_set, int32_limit, peek, pop_bool, pop_int, pop_set, pop_text, read_bool, read_entries,
  read_int, read_pairs, read_set, text_or,
}
use spicedb_operator.Config.Keys.Bounds.{pop_int-Fits}
use spicedb_operator.Config.Keys.Sets.{pop_set-print_set, print_pair, print_set}
use spicedb_operator.Config.Literals.{
  engine_errors, image_errors, make_migration_config, make_spice_config, own_settings,
  target_errors, target_image,
}
use spicedb_operator.Config.NewConfig.{
  aggregate, check_objects, count_applied, draft, finish, finished, from_raw, new_config, outcome,
  target_for, with_target,
}
use spicedb_operator.Config.NewConfig.Image.{new_config-runs_image}
use spicedb_operator.Config.NewConfig.Origin.{new_config-hides, new_config-passes_on}
use spicedb_operator.Config.NewConfig.Sound.{Sound, new_config-Sound}
use spicedb_operator.Config.NewConfig.Total.{Typed, new_config-Returns}
use spicedb_operator.Config.Passthrough.{
  finish_passthrough, keys, pass_all, pop_onto, strip_all, strip_key, with_log_path,
}
use spicedb_operator.Config.Patches.{
  PatchError, PatchLibrary, answer, apply_all, apply_merge, apply_one, apply_patches, apply_to,
  applying, converting_error, fix_deployment_patches, fix_patch, is_for, json6902, renamed,
  strategic_merge,
}
use spicedb_operator.Config.Patches.Counts.{apply_patches-counts}
use spicedb_operator.Config.Readings.{read_first, read_settings}
use spicedb_operator.Config.Stages.{
  both, checked, checked_set, defaulting, drop_ignored, parse_int_or_string_value, pdb_bound,
  read_pdb, read_pdb_object, read_pdb_value, read_replicas, read_texts,
}
use spicedb_operator.Config.Types.{
  Config, ConfigError, OperatorConfig, Outcome, both_pdb_bounds, too_many_replicas,
}
use spicedb_operator.Config.Values.{
  RawConfig, Scalar, as_raw, flag, format_bool, leaf, number, pop_any, print_scalar, print_value,
  str,
}
use spicedb_operator.Controller.Credentials.{credential_secret_names, names_with}
use spicedb_operator.Updates.Graph.{default_channel_for_datastore, find_default, is_default_for}
use spicedb_operator.Updates.Target.{Target, compute_target, explode_image, first_non_empty}
use spicedb_operator.Updates.Types.{empty_state, no_channel_for_datastore}

-- The tests compute.
configs : Unit {0}
unfolding as_raw format_bool print_scalar print_value pop_any peek text_or pop_text read_int pop_int
    read_bool pop_bool read_pairs read_entries read_set found_set pop_set key_or read_field
    read_secret resolve_set resolve_datastore_uri resolve_preshared_key resolve_migration_secrets
    promoted chosen_credentials resolve_chosen resolve_credentials keys pop_onto pass_all strip_key
    strip_all with_log_path finish_passthrough is_for apply_merge apply_one apply_all
    converting_error answer apply_to apply_patches renamed fix_patch fix_deployment_patches
    drop_ignored read_texts defaulting checked checked_set read_replicas parse_int_or_string_value
    pdb_bound both read_pdb_object read_pdb_value read_pdb read_first read_settings engine_errors
    target_image image_errors target_errors own_settings make_migration_config make_spice_config
    outcome finished aggregate count_applied check_objects draft finish target_for with_target
    from_raw new_config lookup get_or has insert delete cut split equal_fold starts_with
    contains_text parse_int parse_bool scan_digits in_range read_digits find_status_condition
    is_status_condition_true rollout_in_progress explode_image first_non_empty compute_target
    find_in set_in remove_from print_set print_pair find_default is_default_for
    default_channel_for_datastore credential_secret_names names_with
configs = tt

-- Libraries under which a JSON patch replaces the document by itself, an object of kind Deployment
-- is the text "deployment", and there is no strategic merge.
abbrev library : PatchLibrary (Unit {0})
library = record {
  type_meta = λ document.
      if document == "broken"
      then none
      else some (record { kind = some "Deployment"; api_version = some "apps/v1" });
  decode = λ patch. if patch == "merge" then some strategic_merge else some json6902;
  apply_operation = λ patch document. if patch == "bad" then none else some patch;
  to_json = λ patch. some patch;
  parse_group_version = λ version. some version;
  lookup_patch_meta = λ group kind. none;
  merge = λ document patch meta. none;
  converts_back = λ document. true;
  rename_container = λ patch. none;
}

abbrev show_map : Map Scalar → String
show_map m = "map[]"

abbrev raw : RawConfig
raw =
    ("datastoreEngine", leaf (str "postgres"))
    ∷ ("image", leaf (str "repo:v1"))
    ∷ ("replicas", leaf (number "3"))
    ∷ ("presharedKey", leaf (str "leaked"))
    ∷ ("grpcEnabled", leaf (flag true))
    ∷ []

abbrev unmarshal : String → Option RawConfig
unmarshal text = some raw

abbrev objects : Config → List (Option String)
objects c = some "deployment" ∷ some "job" ∷ []

abbrev operator : OperatorConfig
operator = record { image_name = "spicedb"; update_graph = record { channels = [] } }

abbrev spec : ClusterSpec
spec = record {
  version = "";
  channel = "";
  config = some "{}";
  secret_ref = "db";
  credentials = none;
  patches = record { kind = "Deployment"; patch = "patched" } ∷ [];
  base_image = "";
}

abbrev status : ClusterStatus
status = record {
  observed_generation = 0;
  target_migration_hash = "";
  current_migration_hash = "";
  secret_hash = "";
  image = "";
  migration = "";
  phase = "";
  current_version = none;
  available_versions = [];
  conditions = [];
}

abbrev cluster : Cluster
cluster = record {
  name = "dev";
  namespace = "test";
  uid = "1";
  generation = 1;
  spec = spec;
  status = status;
}

abbrev secrets : Secrets
secrets = ("db", ("datastore_uri", "postgres://") ∷ ("preshared_key", "secret") ∷ []) ∷ []

abbrev run : Result ConfigError Outcome
run = new_config library condition_list show_map unmarshal objects operator cluster secrets

abbrev outcome_or : Outcome → Result ConfigError Outcome → Outcome
outcome_or o (ok p) = p
outcome_or o (err e) = o
outcome_or o panic = o
outcome_or o timeout = o

abbrev failed : Outcome
failed = record { config = none; warnings = []; errors = [] }

abbrev out : Outcome
out = outcome_or failed run

abbrev target : Target
target = record {
  base_image = "repo";
  target = none;
  state = record empty_state { tag = "v1" };
  error = none;
}

abbrev made : Config
made = (draft library condition_list show_map cluster secrets (read_first raw) target).config

run_errors : out.errors ≡ []
unfolding configs
run_errors = refl

run_ok : run ≡ ok out
unfolding configs
run_ok = refl

run_config : out.config ≡ some made
unfolding configs
run_config = refl

run_image : made.migration_config.target_spice_db_image ≡ "repo:v1"
unfolding configs
run_image = refl

-- With two bounds on disruptions, or two replicas in memory, there is no configuration.
two_bounds :
    (read_pdb_object
      (("maxUnavailable", leaf (str "1")) ∷ ("minAvailable", leaf (str "50%")) ∷ [])).1
    ≡ both_pdb_bounds ∷ []
unfolding configs
two_bounds = refl

in_memory :
    (read_settings show_map "memory" (("replicas", leaf (number "2")) ∷ [])).errors
    ≡ too_many_replicas ∷ []
unfolding configs
in_memory = refl

new_config-Sound_example : Sound secrets made
unfolding configs
new_config-Sound_example =
    new_config-Sound library condition_list show_map unmarshal objects operator cluster secrets
      run_ok run_config

new_config-hides_example : lookup "presharedKey" made.spice_config.passthrough ≡ none
unfolding configs
new_config-hides_example =
    new_config-hides library condition_list show_map unmarshal objects operator cluster secrets
      run_ok run_config "presharedKey" refl

new_config-passes_on_example : lookup "grpcEnabled" made.spice_config.passthrough ≡ some "true"
unfolding configs
new_config-passes_on_example =
    new_config-passes_on library condition_list show_map unmarshal objects operator cluster secrets
      run_ok run_config refl refl "grpcEnabled" refl
      (
        refl,
        (
          refl,
          (
            refl,
            (
              refl,
              (
                refl,
                (
                  refl,
                  (
                    refl,
                    (
                      refl,
                      (
                        refl,
                        (
                          refl,
                          (
                            refl,
                            (refl, (refl, (refl, (refl, (refl, (refl, (refl, (refl, tt)))))))),
                          ),
                        ),
                      ),
                    ),
                  ),
                ),
              ),
            ),
          ),
        ),
      )
      (refl, (refl, (refl, (refl, (refl, (refl, (refl, (refl, tt))))))))
      (refl, (refl, (refl, (refl, (refl, (refl, (refl, (refl, tt))))))))
      (refl, (refl, (refl, (refl, (refl, (refl, (refl, tt)))))))

new_config-runs_image_example : made.migration_config.target_spice_db_image ≡ "repo:v1"
unfolding configs
new_config-runs_image_example =
    new_config-runs_image library condition_list show_map unmarshal objects operator cluster secrets
      run_ok run_config refl refl refl
      (
        "repo",
        "v1",
        refl,
        (refl, (refl, (refl, (refl, tt)))),
        (refl, (refl, (refl, (refl, tt)))),
        inl (refl, (refl, (refl, tt))),
      )

no_channel :
    (engine name : String)
    → default_channel_for_datastore operator.update_graph engine ≡ ok name
    → name ≢ ""
unfolding configs
no_channel engine name e =
    let computed : err (no_channel_for_datastore engine) ≡ ok name = e in
    let same : name ≡ "stable" = cc in subst (λ c. c ≢ "") (sym same) (ne_of_test "stable" "" refl)

objects-Typed : (c : Config) → All (Typed library) (objects c)
objects-Typed c = (("apps/v1", refl), (("apps/v1", refl), tt))

new_config-Returns_example : Returns run
new_config-Returns_example =
    new_config-Returns library condition_list show_map unmarshal objects operator cluster secrets
      no_channel objects-Typed

resolve_credentials_iff_example :
    ((resolve_credentials "postgres" secrets spec).errors ≡ []) ↔ AllUsable "postgres" secrets spec
resolve_credentials_iff_example = resolve_credentials_iff "postgres" secrets spec

-- The secrets with another one, which the cluster does not name.
abbrev more_secrets : Secrets
more_secrets = ("other", []) ∷ secrets

fetched_agree :
    (n : String) → In n (credential_secret_names spec) → lookup n secrets ≡ lookup n more_secrets
unfolding configs
fetched_agree n (at_head e) = subst (λ m. lookup m secrets ≡ lookup m more_secrets) (sym e) refl
fetched_agree n (at_tail i) = elim i [ ]

resolve_credentials-fetched_example :
    resolve_credentials "postgres" secrets spec ≡ resolve_credentials "postgres" more_secrets spec
unfolding configs
resolve_credentials-fetched_example =
    resolve_credentials-fetched spec secrets more_secrets "postgres" fetched_agree refl

apply_patches-counts_example :
    ((failed : List PatchError) × ((answer library "deployment"
          ("patched", 1, applying 1 ∷ [])).errors
        ≡ failed ++ converting_error library "patched")
      × (1 + length failed ≡ 2))
    × (true ≡ not ("patched" == "deployment"))
unfolding configs
apply_patches-counts_example =
    apply_patches-counts library "deployment" "Deployment"
      (record { kind = some "Deployment"; api_version = some "apps/v1" })
      (record { kind = "Deployment"; patch = "patched" }
        ∷ record { kind = "*"; patch = "bad" }
        ∷ record { kind = "Service"; patch = "other" }
        ∷ [])
      refl refl refl

pop_int-Fits_example :
    Fits int32_limit
      (pop_int show_map replicas_key (("replicas", leaf (str "2147483648")) ∷ [])).value
    × (((pop_int show_map replicas_key (("replicas", leaf (str "2147483648")) ∷ [])).error ≡ none)
        ⊎ ((pop_int show_map replicas_key (("replicas", leaf (str "2147483648")) ∷ [])).value
            ≡ pos 0))
pop_int-Fits_example =
    pop_int-Fits show_map replicas_key (("replicas", leaf (str "2147483648")) ∷ []) (omega arith)

abbrev labels : Map String
labels = ("team", "db") ∷ ("tier", "1") ∷ []

pop_set-print_set_example :
    ((pop_set "pod" "label" "extraPodLabels"
        (("extraPodLabels", leaf (str "team=db,tier=1")) ∷ [])).value
      ≡ (labels, []))
    × ((pop_set "pod" "label" "extraPodLabels"
          (("extraPodLabels", leaf (str "team=db,tier=1")) ∷ [])).error
        ≡ none)
unfolding configs
pop_set-print_set_example =
    pop_set-print_set "pod" "label" "extraPodLabels"
      (("extraPodLabels", leaf (str "team=db,tier=1")) ∷ []) labels
      (
        (refl, (refl, (refl, (refl, tt)))),
        (refl, (refl, (refl, (refl, tt)))),
        (refl, (refl, tt)),
        ((refl, (refl, (refl, (refl, tt)))), (refl, (refl, (refl, (refl, tt)))), (refl, tt), tt),
      )
      ((refl, tt), (tt, tt)) (inl refl)
