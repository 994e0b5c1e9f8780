-- ===== src/Examples/Handlers.antt =====
-- A cluster, its objects, and the theorems on the handlers of pkg/controller applied to them.
use spicedb_operator.Base.{
  In, List, Option, String, [], false, inr, length, none, refl, some, ◌==◌, ◌↔◌, ◌∷◌, ◌≡◌, ◌⊎◌,
}
use spicedb_operator.Base.Map.{Map, lookup, get_or}
use spicedb_operator.Api.Cluster.{
  Cluster, ClusterSpec, ClusterStatus, ClusterCredentials, CredentialRef, status_equals,
  find_status_condition, set_status_condition, remove_status_condition, is_status_condition_true,
}
use spicedb_operator.Api.Version.{Version}
use spicedb_operator.Api.Laws.{status_equals_self}
use spicedb_operator.Controller.Types.{
  Job, JobCondition, Deployment, Pod, Config, Context, Server, patch_status, event, apply_job,
  delete_job, requeue_after,
}
use spicedb_operator.Controller.Objects.{
  annotation, migration_requirements_key, config_key, when_nil, find_condition, find_job_condition,
  job_condition_has_status,
}
use spicedb_operator.Controller.Migrations.{
  carries_hash, has_deployment, find_job, with_job, contains, version_needs_no_migration, route_job,
  check_migrations, matching_jobs, extra_jobs, delete_jobs, settle_jobs, migrating_cluster,
  run_migrations, failure_of, wait_for_job, wait_or_pause, wait_migrations,
}
use spicedb_operator.Controller.Migrations.Routing.{Route, check_migrations-Route}
use spicedb_operator.Controller.Migrations.Jobs.{RunCall, RunEnd, run_migrations-Meets}
use spicedb_operator.Controller.Migrations.Waiting.{WaitEnd, wait_migrations-WaitEnd}
use spicedb_operator.Controller.Rollout.{
  deployment_rollout_complete, desired_deployment_replicas, matching_deployments, extra_deployments,
  delete_deployments, first_message, first_termination, close_rollout, waiting_message,
  wait_available, pod_failure, check_pods, apply_failed, is_apply_failed, clear_apply_error,
  settle_deployments, is_present, must_roll, rolling_cluster, sort_deployments, ensure_deployment,
}
use spicedb_operator.Controller.Rollout.Settled.{RollCall, RollEnd}
use spicedb_operator.Controller.Rollout.Handler.{ensure_deployment-Meets}
use spicedb_operator.Controller.Cleanup.{cleanup_jobs}
use spicedb_operator.Controller.Cleanup.Safety.{CleanCall, CleanEnd, cleanup_jobs-Meets}
use spicedb_operator.Controller.Credentials.{
  is_needed, name_of, collect_names, names_with, credential_secret_names, collect_secrets,
  secrets_with, credential_secrets_for_cluster,
}
use spicedb_operator.Controller.Credentials.Names.{Distinct, Names, credential_secret_names-Names}
use spicedb_operator.Controller.Secrets.{CredKey, HashEntry}
use spicedb_operator.Controller.Validation.{Validation, valid, validate_config}
use spicedb_operator.Controller.Validation.Status.{ConfigCall, ConfigEnd, validate_config-Meets}
use spicedb_operator.Controller.Spec.{validate_spec}
use spicedb_operator.Controller.Spec.Valid.{SpecCall, SpecEnd, validate_spec-Meets}
use spicedb_operator.Controller.Traces.{Meets, follow}
use spicedb_operator.Controller.Pipeline.{
  after_wait, wait_chain, after_run, run_chain, after_check, migrate_and_deploy,
}
use spicedb_operator.Controller.Pipeline.Order.{Allowed, PassesOn, migrate_and_deploy-Meets}
use spicedb_operator.Examples.Conditions.{plain_env, find_in, set_in, remove_from}

-- The tests compute.
handlers : Unit {0}
unfolding lookup get_or find_status_condition set_status_condition remove_status_condition
    is_status_condition_true annotation when_nil find_condition find_job_condition
    job_condition_has_status carries_hash has_deployment find_job with_job contains
    version_needs_no_migration route_job check_migrations matching_jobs extra_jobs delete_jobs
    settle_jobs migrating_cluster run_migrations failure_of wait_for_job wait_or_pause
    wait_migrations deployment_rollout_complete desired_deployment_replicas matching_deployments
    extra_deployments delete_deployments first_message first_termination close_rollout
    waiting_message wait_available pod_failure check_pods apply_failed is_apply_failed
    clear_apply_error settle_deployments is_present must_roll rolling_cluster sort_deployments
    ensure_deployment follow after_wait wait_chain after_run run_chain after_check
    migrate_and_deploy find_in set_in remove_from
handlers = tt

abbrev shared : CredentialRef
shared = record { secret_name = "db"; key = ""; skip = false }

abbrev credentials : ClusterCredentials
credentials = record {
  datastore_uri = some shared;
  preshared_key = some (record { secret_name = "keys"; key = "psk"; skip = false });
  migration_secrets = some shared;
}

abbrev spec : ClusterSpec
spec = record {
  version = "";
  channel = "";
  config = some "{}";
  secret_ref = "";
  credentials = some credentials;
  patches = [];
  base_image = "";
}

abbrev status : ClusterStatus
status = record {
  observed_generation = 1;
  target_migration_hash = "new";
  current_migration_hash = "old";
  secret_hash = "";
  image = "";
  migration = "";
  phase = "";
  current_version = none;
  available_versions = [];
  conditions = [];
}

abbrev cluster : Cluster
cluster = record {
  name = "dev";
  namespace = "default";
  uid = "1";
  generation = 2;
  spec = spec;
  status = status;
}

abbrev config : Config
config = record {
  skip_migrations = false;
  datastore_engine = "postgres";
  target_image = "spicedb";
  target_migration = "head";
  target_phase = "";
  spicedb_version = none;
  replicas = 2;
}

abbrev job : String → String → List JobCondition → Job
job name hash conditions = record {
  name = name;
  namespace = "default";
  annotations = some ((migration_requirements_key, hash) ∷ []);
  conditions = conditions;
}

abbrev complete : JobCondition
complete = record { type_name = "Complete"; status = "True"; message = "" }

abbrev deployment : Deployment
deployment = record {
  name = "dev-spicedb";
  annotations = some ((config_key, "cfg") ∷ []);
  generation = 3;
  spec_replicas = none;
  observed_generation = 3;
  status_replicas = 2;
  updated_replicas = 2;
  available_replicas = 2;
  ready_replicas = 2;
  unavailable_replicas = 0;
}

abbrev context : List Job → Context
context jobs = record {
  cluster = cluster;
  secret_hash = "s";
  migration_hash = "new";
  config = config;
  deployments = deployment ∷ [];
  jobs = jobs;
  current_job = none;
  current_deployment = none;
}

-- A server on which every call succeeds.
abbrev server : Server
server t c = none

abbrev hash_of_config : Config → String → String → String
hash_of_config c m s = "cfg"

-- No job carries the hash of the target: one is created, the old one deleted, and nothing deployed.
abbrev unmigrated : Context
unmigrated = context (job "old" "old" [] ∷ [])

no_job_test : migrate_and_deploy plain_env server hash_of_config [] unmigrated [] ≡ record {
  trace =
      delete_job "default" "old"
      ∷ apply_job "new"
      ∷ patch_status (migrating_cluster plain_env unmigrated)
      ∷ event "RunningMigrations"
      ∷ [];
  outcome = requeue_after 5;
}
unfolding handlers
no_job_test = refl

abbrev waiting : Context
waiting = context (job "new" "new" (complete ∷ []) ∷ [])

-- A job with the hash has completed: the status is written twice, and nothing is applied or deleted.
completed_test : length (migrate_and_deploy plain_env server hash_of_config [] waiting []).trace ≡ 3
unfolding handlers
completed_test = refl

migrate_and_deploy-Meets_example :
    Meets
      (Allowed waiting)
      (PassesOn plain_env waiting)
      []
      (migrate_and_deploy plain_env server hash_of_config [] waiting [])
migrate_and_deploy-Meets_example =
    migrate_and_deploy-Meets plain_env server hash_of_config [] waiting []

ensure_deployment-Meets_example :
    Meets
      (RollCall plain_env waiting "cfg")
      (RollEnd plain_env waiting "cfg")
      []
      (ensure_deployment plain_env server hash_of_config [] waiting [])
ensure_deployment-Meets_example =
    ensure_deployment-Meets plain_env server hash_of_config [] waiting []

check_migrations-Route_example : Route waiting (check_migrations plain_env waiting []).outcome
check_migrations-Route_example = check_migrations-Route plain_env waiting []

run_migrations-Meets_example :
    Meets (RunCall waiting) (RunEnd waiting) [] (run_migrations plain_env server waiting [])
run_migrations-Meets_example = run_migrations-Meets plain_env server waiting []

abbrev watching : Context
watching = record waiting { current_job = some (job "new" "new" (complete ∷ [])) }

wait_migrations-WaitEnd_example :
    WaitEnd plain_env watching (wait_migrations plain_env watching []).outcome
wait_migrations-WaitEnd_example = wait_migrations-WaitEnd plain_env watching []

abbrev finished_jobs : List Job
finished_jobs = job "new" "new" (complete ∷ []) ∷ []

abbrev job_pods : List Pod
job_pods =
    record {
      name = "p";
      namespace = "default";
      labels = some (("job-name", "old") ∷ []);
      terminations = [];
    }
    ∷ []

abbrev deployed : Option (Map String)
deployed = some ((migration_requirements_key, "new") ∷ [])

cleanup_jobs-Meets_example :
    Meets
      (CleanCall (annotation deployed migration_requirements_key) finished_jobs job_pods)
      CleanEnd
      []
      (cleanup_jobs plain_env server finished_jobs job_pods deployed [])
cleanup_jobs-Meets_example = cleanup_jobs-Meets plain_env server finished_jobs job_pods deployed []

credential_secret_names-Names_example :
    Distinct (credential_secret_names spec)
    × ((n : String)
        → In n (credential_secret_names spec) ↔ Names n (credential_secrets_for_cluster spec))
credential_secret_names-Names_example = credential_secret_names-Names spec

credentials_test :
    (credential_secret_names spec ≡ "db" ∷ "keys" ∷ [])
    × (length (credential_secrets_for_cluster spec) ≡ 3)
unfolding credential_secret_names credential_secrets_for_cluster names_with secrets_with
    collect_names collect_secrets is_needed name_of contains
credentials_test = (refl, refl)

abbrev kept_order : List CredKey → List CredKey
kept_order ks = ks

abbrev hash_of_data : List HashEntry → String
hash_of_data entries = "data"

abbrev stored : Map (Map String)
stored = ("db", ("datastore_uri", "postgres://") ∷ []) ∷ []

abbrev checked : Validation
checked = valid config (some "no TLS")

abbrev hash_of_migration : Config → String
hash_of_migration c = "new"

abbrev no_versions : String → Version → String ⊎ List Version
no_versions engine v = inr []

validate_config-Meets_example :
    Meets
      (ConfigCall waiting hash_of_migration checked)
      (ConfigEnd waiting hash_of_migration checked)
      []
      (validate_config plain_env server hash_of_migration no_versions waiting checked [])
validate_config-Meets_example =
    validate_config-Meets plain_env server hash_of_migration waiting no_versions checked []

validate_spec-Meets_example :
    Meets
      (SpecCall plain_env waiting)
      (SpecEnd waiting)
      []
      (validate_spec plain_env server waiting [])
validate_spec-Meets_example = validate_spec-Meets plain_env server waiting []

status_equals_self_example :
    status_equals status status ≡ (status.current_migration_hash == status.target_migration_hash)
status_equals_self_example = status_equals_self status
