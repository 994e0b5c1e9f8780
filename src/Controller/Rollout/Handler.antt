-- ===== src/Controller/Rollout/Handler.antt =====
-- The whole of `DeploymentHandler.Handle` (pkg/controller/ensure_deployment.go).
use spicedb_operator.Base.{
  Bool, In, List, Option, String, [], at_head, at_tail, false, if◌then◌else◌, ltb, none, refl, some,
  true, ℕ, ◌||◌, ◌∷◌, ◌≡◌,
}
use spicedb_operator.Api.Condition.{
  type_rolling, type_rollout_error, new_rolling_condition, new_pod_error_condition,
  new_apply_failed_condition,
}
use spicedb_operator.Api.Cluster.{
  Cluster, set_status_condition, remove_status_condition, is_status_condition_true,
  find_status_condition,
}
use spicedb_operator.Controller.Types.{
  Deployment, Pod, Config, Context, Outcome, Trace, Run, Server, Env, perform, finish, hand_on,
  next_handler, requeue_after, requeue_api_err, patch_status, apply_deployment, delete_deployment,
}
use spicedb_operator.Controller.Rollout.{
  desired_deployment_replicas, deployment_rollout_complete, matching_deployments, extra_deployments,
  delete_deployments, first_termination, close_rollout, wait_available, pod_failure, check_pods,
  apply_failed, is_apply_failed, clear_apply_error, settle_deployments, must_roll, rolling_cluster,
  sort_deployments, ensure_deployment, waiting_message,
}
use spicedb_operator.Controller.Traces.{Meets, finish-Meets, perform-Meets, perform_or-Meets}
use spicedb_operator.Controller.Rollout.Complete.{
  RolledOut, hash_of, IsExtra, In-matching_deployments, matching_deployments-eq-nil,
  In-extra_deployments, deployment_rollout_complete_iff,
}
use spicedb_operator.Controller.Rollout.Settled.{
  rolled, waits, fails, writes, deletes, applies, Settled, RollCall, RollEnd,
  rollout_in_progress-eq-false, removed-Settled, removed-rolling, must_roll-eq-false,
  rolling_cluster-namespace, rolling_cluster-Settled,
}

module _ (env : Env) (server : Server) (ctx : Context) (hash : String) where
  delete_deployments-Meets :
      (n : String) (k : Deployment) (ds : List Deployment) (rest : Trace → Run) (t : Trace)
      → n ≡ ctx.cluster.namespace
      → In k ctx.deployments
      → hash_of k ≡ hash
      → ((d : Deployment) → In d ds → IsExtra ctx.deployments hash d)
      → ((u : Trace) → Meets (RollCall env ctx hash) (RollEnd env ctx hash) u (rest u))
      → Meets
          (RollCall env ctx hash)
          (RollEnd env ctx hash)
          t
          (delete_deployments server n ds rest t)
  unfolding delete_deployments
  delete_deployments-Meets n k [] rest t q m h extra next = next t
  delete_deployments-Meets n k (d ∷ ds) rest t q m h extra next =
      perform-Meets server (delete_deployment n d.name) requeue_api_err
        (delete_deployments server n ds rest) t (deletes n d k q (extra d (at_head refl)) m h)
        (λ e. fails e)
        (λ u. delete_deployments-Meets n k ds rest u q m h (λ e i. extra e (at_tail i)) next)

  close_rollout-Meets :
      (d : Deployment) (c : Cluster) (t : Trace)
      → In d ctx.deployments
      → hash_of d ≡ hash
      → RolledOut d (desired_deployment_replicas d ctx.config.replicas)
      → Settled env c
      → Meets
          (RollCall env ctx hash)
          (RollEnd env ctx hash)
          t
          (close_rollout env server (record ctx { cluster = c; current_deployment = some d }) t)
  unfolding close_rollout
  close_rollout-Meets d c t m h r s =
      go (is_status_condition_true env.conditions c type_rolling)
        (is_status_condition_true env.conditions c type_rollout_error) refl
    where
      cleared : Cluster
      cleared =
          remove_status_condition env.conditions
            (remove_status_condition env.conditions c type_rolling) type_rollout_error

      after : Cluster → Outcome
      after e = hand_on next_handler (record ctx { cluster = e; current_deployment = some d })

      write :
          Meets
            (RollCall env ctx hash)
            (RollEnd env ctx hash)
            t
            (perform server (patch_status cleared) requeue_api_err (finish (after cleared)) t)
      write =
          perform-Meets server (patch_status cleared) requeue_api_err (finish (after cleared)) t
            writes (λ e. fails e)
            (λ u. finish-Meets (after cleared) u (
              rolled d cleared m h r (
                rollout_in_progress-eq-false env cleared (removed-Settled env c s)
                  (removed-rolling env c))))

      go :
          (a b : Bool)
          → is_status_condition_true env.conditions c type_rolling ≡ a
          → Meets (RollCall env ctx hash) (RollEnd env ctx hash) t (
              (if a || b
                  then perform server
                      (patch_status cleared)
                      requeue_api_err
                      (finish (after cleared))
                  else finish (after c))
                t)
      go true b e = write
      go false true e = write
      go false false e =
          finish-Meets (after c) t (rolled d c m h r (rollout_in_progress-eq-false env c s e))

  wait_available-Meets :
      (d : Deployment) (c : Cluster) (t : Trace)
      → In d ctx.deployments
      → hash_of d ≡ hash
      → Settled env c
      → Meets
          (RollCall env ctx hash)
          (RollEnd env ctx hash)
          t
          (wait_available env server (record ctx { cluster = c; current_deployment = some d }) d t)
  unfolding wait_available
  wait_available-Meets d c t m h s = go (deployment_rollout_complete d desired) refl
    where
      desired : ℕ
      desired = desired_deployment_replicas d ctx.config.replicas

      waiting : Cluster
      waiting = set_status_condition env.conditions c (
          new_rolling_condition (record {
            format =
                "Waiting for deployment to be available: %d/%d available, %d/%d ready, %d/%d updated, %d/%d generation.";
            args = waiting_message env d desired;
          }))

      go :
          (b : Bool)
          → deployment_rollout_complete d desired ≡ b
          → Meets (RollCall env ctx hash) (RollEnd env ctx hash) t (
              (if b
                  then close_rollout env server
                      (record ctx { cluster = c; current_deployment = some d })
                  else perform server
                      (patch_status waiting)
                      requeue_api_err
                      (finish (requeue_after 2)))
                t)
      go true e = close_rollout-Meets d c t m h ((deployment_rollout_complete_iff d desired).0 e) s
      go false e =
          perform-Meets server (patch_status waiting) requeue_api_err (finish (requeue_after 2)) t
            writes (λ e. fails e) (λ u. finish-Meets (requeue_after 2) u (waits 2))

  check_pods-Meets :
      (pods : List Pod) (d : Deployment) (c : Cluster) (t : Trace)
      → In d ctx.deployments
      → hash_of d ≡ hash
      → Settled env c
      → Meets
          (RollCall env ctx hash)
          (RollEnd env ctx hash)
          t
          (check_pods env server pods (record ctx { cluster = c; current_deployment = some d }) d t)
  unfolding check_pods pod_failure
  check_pods-Meets pods d c t m h s =
      go (if ltb 0 d.unavailable_replicas then first_termination pods else none)
    where
      failing : String → Cluster
      failing message = set_status_condition env.conditions c (new_pod_error_condition message)

      go :
          (o : Option String)
          → Meets (RollCall env ctx hash) (RollEnd env ctx hash) t (
              pod_failure env server
                (record ctx { cluster = c; current_deployment = some d })
                d
                o
                t)
      go none = wait_available-Meets d c t m h s
      go (some message) =
          perform-Meets server (patch_status (failing message)) requeue_api_err
            (finish (requeue_after 2)) t writes (λ e. fails e)
            (λ u. finish-Meets (requeue_after 2) u (waits 2))

  apply_failed-Meets :
      (c : Cluster) (e : String) (t : Trace)
      → Meets
          (RollCall env ctx hash)
          (RollEnd env ctx hash)
          t
          (apply_failed env server (record ctx { cluster = c }) e t)
  unfolding apply_failed
  apply_failed-Meets c e t =
      perform-Meets server
        (patch_status (set_status_condition env.conditions c (new_apply_failed_condition e)))
        requeue_api_err (finish (requeue_api_err e)) t writes (λ e. fails e)
        (λ u. finish-Meets (requeue_api_err e) u (fails e))

  clear_apply_error-Meets :
      (c : Cluster) (t : Trace)
      → Meets
          (RollCall env ctx hash)
          (RollEnd env ctx hash)
          t
          (clear_apply_error env server (record ctx { cluster = c }) t)
  unfolding clear_apply_error
  clear_apply_error-Meets c t =
      go (is_apply_failed (find_status_condition env.conditions c type_rollout_error))
    where
      cleared : Cluster
      cleared = remove_status_condition env.conditions c type_rollout_error

      go :
          (b : Bool)
          → Meets (RollCall env ctx hash) (RollEnd env ctx hash) t (
              (if b
                  then perform server
                      (patch_status cleared)
                      requeue_api_err
                      (finish (requeue_after 1))
                  else finish (requeue_after 1))
                t)
      go true =
          perform-Meets server (patch_status cleared) requeue_api_err (finish (requeue_after 1)) t
            writes (λ e. fails e) (λ u. finish-Meets (requeue_after 1) u (waits 1))
      go false = finish-Meets (requeue_after 1) t (waits 1)

  settle_deployments-Meets :
      (pods : List Pod) (c : Cluster) (ds : List Deployment) (t : Trace)
      → matching_deployments env ctx.deployments hash ≡ ds
      → c.namespace ≡ ctx.cluster.namespace
      → Settled env c
      → Meets (RollCall env ctx hash) (RollEnd env ctx hash) t (
          settle_deployments env server pods
            (record ctx { cluster = c })
            hash
            ds
            (extra_deployments env ctx.deployments hash)
            t)
  unfolding settle_deployments
  settle_deployments-Meets pods c [] t e n s =
      perform_or-Meets server (apply_deployment hash)
        (apply_failed env server (record ctx { cluster = c }))
        (clear_apply_error env server (record ctx { cluster = c })) t
        (applies (λ d m. matching_deployments-eq-nil env d ctx.deployments hash e m))
        (λ f u. apply_failed-Meets c f u) (λ u. clear_apply_error-Meets c u)
  settle_deployments-Meets pods c (d ∷ []) t e n s =
      let (m, h) = In-matching_deployments env d ctx.deployments hash (rw e (at_head refl)) in
      delete_deployments-Meets c.namespace d (extra_deployments env ctx.deployments hash)
        (check_pods env server pods (record ctx { cluster = c; current_deployment = some d }) d) t n
        m h (λ x i. In-extra_deployments env x ctx.deployments hash i)
        (λ u. check_pods-Meets pods d c u m h s)
  settle_deployments-Meets pods c (d ∷ x ∷ ds) t e n s = finish-Meets (requeue_after 1) t (waits 1)

-- The hash of the deployment that the handler asks for.
abbrev pub wanted_hash : (Config → String → String → String) → Context → String
wanted_hash deployment_hash ctx = deployment_hash ctx.config ctx.migration_hash ctx.secret_hash

-- Whatever the API server answers, the deployment handler applies a deployment only when none in
-- the cache has the wanted hash, deletes a deployment of the cache only when one of the cache has
-- that hash and the deleted one has no annotations or another hash, and goes on only with a
-- deployment of the cache that has the hash and is completely rolled out, and with a cluster for
-- which `rollout_in_progress` is false.
pub ensure_deployment-Meets :
    (env : Env) (server : Server) (deployment_hash : Config → String → String → String)
    (pods : List Pod) (ctx : Context) (t : Trace)
    → Meets
        (RollCall env ctx (wanted_hash deployment_hash ctx))
        (RollEnd env ctx (wanted_hash deployment_hash ctx))
        t
        (ensure_deployment env server deployment_hash pods ctx t)
unfolding ensure_deployment sort_deployments
ensure_deployment-Meets env server deployment_hash pods ctx t = go (must_roll env ctx.cluster) refl
  where
    hash : String
    hash = wanted_hash deployment_hash ctx

    rolling : Cluster
    rolling = rolling_cluster env ctx.cluster

    go :
        (b : Bool)
        → must_roll env ctx.cluster ≡ b
        → Meets (RollCall env ctx hash) (RollEnd env ctx hash) t (
            (if b
                then perform server (patch_status rolling) requeue_api_err (
                    sort_deployments env server deployment_hash pods
                      (record ctx { cluster = rolling }))
                else sort_deployments env server deployment_hash pods ctx)
              t)
    go true e =
        perform-Meets server (patch_status rolling) requeue_api_err
          (sort_deployments env server deployment_hash pods (record ctx { cluster = rolling })) t
          writes (λ e. fails e)
          (λ u.
            settle_deployments-Meets env server ctx hash pods rolling
              (matching_deployments env ctx.deployments hash) u refl
              (rolling_cluster-namespace env ctx.cluster) (rolling_cluster-Settled env ctx.cluster))
    go false e =
        settle_deployments-Meets env server ctx hash pods ctx.cluster
          (matching_deployments env ctx.deployments hash) t refl refl
          (must_roll-eq-false env ctx.cluster e)
