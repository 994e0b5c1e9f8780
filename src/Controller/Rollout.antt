-- ===== src/Controller/Rollout.antt =====
-- `DeploymentHandler` (pkg/controller/ensure_deployment.go). The deployment that the configuration
-- asks for is known by its hash only, which is a parameter: it is `hash.Object` of the object that
-- `config.Deployment` builds.
pub mod Complete
pub mod Settled
pub mod Handler
use spicedb_operator.Base.{
  Bool, List, Option, String, [], eqb, false, if◌then◌else◌, ltb, none, not, some, true, ℕ, ◌&&◌,
  ◌==◌, ◌||◌, ◌∷◌,
}
use spicedb_operator.Api.Condition.{
  new_rolling_condition, new_apply_failed_condition, new_pod_error_condition, type_migrating,
  type_rolling, type_rollout_error, reason_apply_failed, Condition,
}
use spicedb_operator.Api.Cluster.{
  Cluster, find_status_condition, set_status_condition, remove_status_condition,
  is_status_condition_true,
}
use spicedb_operator.Controller.Types.{
  Deployment, Pod, Config, Context, Trace, Run, Server, Env, perform, perform_or, finish,
  next_handler, requeue_after, requeue_api_err, hand_on, patch_status, apply_deployment,
  delete_deployment,
}
use spicedb_operator.Controller.Objects.{config_key, annotation, when_nil}

-- `desiredDeploymentReplicas`
unfoldable pub desired_deployment_replicas : Deployment → ℕ → ℕ
desired_deployment_replicas d configured = elim d.spec_replicas [ some n ↦ n | none ↦ configured ]

-- `deploymentRolloutComplete`
unfoldable pub deployment_rollout_complete : Deployment → ℕ → Bool
deployment_rollout_complete d desired =
    eqb d.observed_generation d.generation
    && eqb d.updated_replicas desired
    && eqb d.status_replicas d.updated_replicas
    && eqb d.available_replicas d.updated_replicas

-- The loop that sorts the deployments into those with the hash and the extra ones.
unfoldable pub matching_deployments : Env → List Deployment → String → List Deployment
matching_deployments env [] hash = []
matching_deployments env (d ∷ ds) hash =
    let rest = matching_deployments env ds hash in
    if env.hash_equal (annotation d.annotations config_key) hash then d ∷ rest else rest

unfoldable pub extra_deployments : Env → List Deployment → String → List Deployment
extra_deployments env [] hash = []
extra_deployments env (d ∷ ds) hash =
    let rest = extra_deployments env ds hash in
    when_nil d d.annotations
      (if env.hash_equal (annotation d.annotations config_key) hash then rest else d ∷ rest)

unfoldable pub delete_deployments : Server → String → List Deployment → (Trace → Run) → Trace → Run
delete_deployments server namespace [] rest = rest
delete_deployments server namespace (d ∷ ds) rest =
    perform server (delete_deployment namespace d.name) requeue_api_err
      (delete_deployments server namespace ds rest)

-- The first container, of the first pod, that was terminated before.
unfoldable pub first_message : List (Option String) → Option String
first_message [] = none
first_message (none ∷ ss) = first_message ss
first_message (some m ∷ ss) = some m

unfoldable pub first_termination : List Pod → Option String
first_termination [] = none
first_termination (p ∷ ps) = elim (first_message p.terminations) [
  | some m ↦ some m
  | none ↦ first_termination ps
]

-- The end of the handler: the rollout is complete.
unfoldable pub close_rollout : Env → Server → Context → Trace → Run
close_rollout env server ctx =
    if is_status_condition_true env.conditions ctx.cluster type_rolling
      || is_status_condition_true env.conditions ctx.cluster type_rollout_error
    then (let cluster =
          remove_status_condition env.conditions
            (remove_status_condition env.conditions ctx.cluster type_rolling) type_rollout_error in
        perform server (patch_status cluster) requeue_api_err
          (finish (hand_on next_handler (record ctx { cluster = cluster }))))
    else finish (hand_on next_handler ctx)

-- The message of the condition that the handler sets while it waits.
unfoldable pub waiting_message : Env → Deployment → ℕ → List String
waiting_message env d desired =
    env.show_number d.available_replicas
    ∷ env.show_number desired
    ∷ env.show_number d.ready_replicas
    ∷ env.show_number desired
    ∷ env.show_number d.updated_replicas
    ∷ env.show_number desired
    ∷ env.show_number d.observed_generation
    ∷ env.show_number d.generation
    ∷ []

unfoldable pub wait_available : Env → Server → Context → Deployment → Trace → Run
wait_available env server ctx d =
    let desired = desired_deployment_replicas d ctx.config.replicas in
    if deployment_rollout_complete d desired
    then close_rollout env server ctx
    else (let cluster = set_status_condition env.conditions ctx.cluster (
          new_rolling_condition (record {
            format =
                "Waiting for deployment to be available: %d/%d available, %d/%d ready, %d/%d updated, %d/%d generation.";
            args = waiting_message env d desired;
          })) in
        perform server (patch_status cluster) requeue_api_err (finish (requeue_after 2)))

-- What the handler does with the message of a terminated container, if there is one.
unfoldable pub pod_failure : Env → Server → Context → Deployment → Option String → Trace → Run
pod_failure env server ctx d none = wait_available env server ctx d
pod_failure env server ctx d (some message) =
    let cluster =
      set_status_condition env.conditions ctx.cluster (new_pod_error_condition message) in
    perform server (patch_status cluster) requeue_api_err (finish (requeue_after 2))

-- The test of the pods: the handler sorts one copy of the list, and goes through a fresh one.
unfoldable pub check_pods : Env → Server → List Pod → Context → Deployment → Trace → Run
check_pods env server pods ctx d =
    pod_failure env server ctx d
      (if ltb 0 d.unavailable_replicas then first_termination pods else none)

-- `if err != nil` after `applyDeployment`
unfoldable pub apply_failed : Env → Server → Context → String → Trace → Run
apply_failed env server ctx e =
    perform server
      (patch_status
        (set_status_condition env.conditions ctx.cluster (new_apply_failed_condition e)))
      requeue_api_err (finish (requeue_api_err e))

unfoldable pub is_apply_failed : Option Condition → Bool
is_apply_failed none = false
is_apply_failed (some c) = c.reason == reason_apply_failed

-- After `applyDeployment`: the deployment is not in the cache yet.
unfoldable pub clear_apply_error : Env → Server → Context → Trace → Run
clear_apply_error env server ctx =
    if is_apply_failed (find_status_condition env.conditions ctx.cluster type_rollout_error)
    then perform server
        (patch_status (remove_status_condition env.conditions ctx.cluster type_rollout_error))
        requeue_api_err (finish (requeue_after 1))
    else finish (requeue_after 1)

-- What the handler does for no, one or more deployments with the hash.
unfoldable pub settle_deployments :
    Env → Server → List Pod → Context → String → List Deployment → List Deployment → Trace → Run
settle_deployments env server pods ctx hash [] extra =
    perform_or server (apply_deployment hash) (apply_failed env server ctx)
      (clear_apply_error env server ctx)
settle_deployments env server pods ctx hash (d ∷ []) extra =
    delete_deployments server ctx.cluster.namespace extra
      (check_pods env server pods (record ctx { current_deployment = some d }) d)
settle_deployments env server pods ctx hash (d ∷ e ∷ ds) extra = finish (requeue_after 1)

unfoldable pub is_present : Option Condition → Bool
is_present none = false
is_present (some c) = true

-- `if currentStatus.FindStatusCondition(Migrating) != nil || current hash != target hash`
unfoldable pub must_roll : Env → Cluster → Bool
must_roll env cluster =
    is_present (find_status_condition env.conditions cluster type_migrating)
    || not (cluster.status.current_migration_hash == cluster.status.target_migration_hash)

-- The status that the handler writes before it rolls the deployment.
unfoldable pub rolling_cluster : Env → Cluster → Cluster
rolling_cluster env cluster =
    let settled = remove_status_condition env.conditions cluster type_migrating in
    let status = record (settled.status) {
      current_migration_hash = settled.status.target_migration_hash;
    } in
    set_status_condition env.conditions (record settled { status = status })
      (new_rolling_condition
        (record { format = "Rolling deployment to latest version"; args = [] }))

unfoldable pub sort_deployments :
    Env → Server → (Config → String → String → String) → List Pod → Context → Trace → Run
sort_deployments env server deployment_hash pods ctx =
    let hash = deployment_hash ctx.config ctx.migration_hash ctx.secret_hash in
    settle_deployments env server pods ctx hash (matching_deployments env ctx.deployments hash)
      (extra_deployments env ctx.deployments hash)

-- `DeploymentHandler.Handle`
unfoldable pub ensure_deployment :
    Env → Server → (Config → String → String → String) → List Pod → Context → Trace → Run
ensure_deployment env server deployment_hash pods ctx =
    if must_roll env ctx.cluster
    then (let cluster = rolling_cluster env ctx.cluster in
        perform server (patch_status cluster) requeue_api_err
          (sort_deployments env server deployment_hash pods (record ctx { cluster = cluster })))
    else sort_deployments env server deployment_hash pods ctx
