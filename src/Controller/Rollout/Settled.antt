-- ===== src/Controller/Rollout/Settled.antt =====
-- What `DeploymentHandler` (pkg/controller/ensure_deployment.go) promises, and the status that it
-- writes.
use spicedb_operator.Base.{
  In, Option-cases, String, [], ap, arith, eq_iff, false, inl, inr, none, refl, some, ℕ, ◌∙◌, ◌≡◌,
  ◌≢◌,
}
use spicedb_operator.Api.Condition.{
  type_rolling, type_rollout_error, new_rolling_condition, is_true_condition,
}
use spicedb_operator.Api.Cluster.{
  Cluster, set_status_condition, remove_status_condition, is_status_condition_true,
  find_status_condition,
}
use spicedb_operator.Controller.Types.{
  Deployment, Context, Call, Outcome, Env, hand_on, next_handler, requeue_after, requeue_api_err,
  patch_status, apply_deployment, delete_deployment,
}
use spicedb_operator.Controller.Rollout.{desired_deployment_replicas, must_roll, rolling_cluster}
use spicedb_operator.Api.Condition.{type_migrating}
use spicedb_operator.Api.Cluster.{rollout_in_progress}
use spicedb_operator.Controller.Rollout.{is_present}
use spicedb_operator.Controller.Rollout.Complete.{RolledOut, hash_of, IsExtra}

-- No migration is announced, and the current migration is the target.
unfoldable pub Settled : Env → Cluster → Type 0
Settled env c =
    (find_status_condition env.conditions c type_migrating ≡ none)
    × (c.status.current_migration_hash ≡ c.status.target_migration_hash)

module _ (env : Env) (ctx : Context) (hash : String) where
  -- What the handler may do to the API server: it writes the status; it applies the deployment when
  -- none in the cache has the hash; and it deletes extra deployments while one with the hash stays.
  pub data RollCall : Call → Type 0 where
    writes : {c : Cluster} → RollCall (patch_status c)
    applies :
        ((d : Deployment) → In d ctx.deployments → hash_of d ≢ hash)
        → RollCall (apply_deployment hash)
    deletes :
        (n : String) (d k : Deployment)
        → n ≡ ctx.cluster.namespace
        → IsExtra ctx.deployments hash d
        → In k ctx.deployments
        → hash_of k ≡ hash
        → RollCall (delete_deployment n d.name)

  -- How it ends: it waits, it fails, or it goes on with a deployment from the cache that has the
  -- hash and is rolled out, and with a cluster that has no rollout in progress.
  pub data RollEnd : Outcome → Type 0 where
    waits : (n : ℕ) → RollEnd (requeue_after n)
    fails : (e : String) → RollEnd (requeue_api_err e)
    rolled :
        (d : Deployment) (c : Cluster)
        → In d ctx.deployments
        → hash_of d ≡ hash
        → RolledOut d (desired_deployment_replicas d ctx.config.replicas)
        → rollout_in_progress env.conditions c ≡ false
        → RollEnd (hand_on next_handler (record ctx { cluster = c; current_deployment = some d }))

-- The cluster that the handler goes on with.
pub rollout_in_progress-eq-false :
    (env : Env) (c : Cluster)
    → Settled env c
    → is_status_condition_true env.conditions c type_rolling ≡ false
    → rollout_in_progress env.conditions c ≡ false
unfolding Settled rollout_in_progress is_status_condition_true
rollout_in_progress-eq-false env c (m, h) r =
    let migrating : is_true_condition (find_status_condition env.conditions c type_migrating)
        ≡ false =
      rw m refl in
    ground (arith, eq_iff c.status.current_migration_hash c.status.target_migration_hash)

pub removed-Settled :
    (env : Env) (c : Cluster)
    → Settled env c
    → Settled env (
        remove_status_condition env.conditions
          (remove_status_condition env.conditions c type_rolling)
          type_rollout_error)
unfolding Settled remove_status_condition find_status_condition
removed-Settled env c (m, h) =
    let once =
      env.conditions.find-remove_other c.status.conditions type_rolling type_migrating (λ e. cc) in
    let twice =
      env.conditions.find-remove_other (env.conditions.remove c.status.conditions type_rolling)
        type_rollout_error type_migrating (λ e. cc) in
    (twice ∙ once ∙ m, h)

pub removed-rolling :
    (env : Env) (c : Cluster)
    → is_status_condition_true env.conditions
        (remove_status_condition env.conditions
          (remove_status_condition env.conditions c type_rolling)
          type_rollout_error)
        type_rolling
      ≡ false
unfolding remove_status_condition find_status_condition is_status_condition_true
removed-rolling env c =
    let once = env.conditions.find-remove_self c.status.conditions type_rolling in
    let twice =
      env.conditions.find-remove_other (env.conditions.remove c.status.conditions type_rolling)
        type_rollout_error type_rolling (λ e. cc) in
    ap is_true_condition (twice ∙ once)

pub must_roll-eq-false : (env : Env) (c : Cluster) → must_roll env c ≡ false → Settled env c
unfolding must_roll Settled is_present
must_roll-eq-false env c h =
    elim (Option-cases (find_status_condition env.conditions c type_migrating)) [
      | inl e ↦ (
        e,
        let same = eq_iff c.status.current_migration_hash c.status.target_migration_hash in
            ground arith,
      )
      | inr (d, e) ↦ ground arith
    ]

pub rolling_cluster-namespace :
    (env : Env) (c : Cluster) → (rolling_cluster env c).namespace ≡ c.namespace
unfolding rolling_cluster remove_status_condition set_status_condition
rolling_cluster-namespace env c = refl

pub rolling_cluster-Settled : (env : Env) (c : Cluster) → Settled env (rolling_cluster env c)
unfolding rolling_cluster Settled remove_status_condition set_status_condition find_status_condition
rolling_cluster-Settled env c =
    let removed = env.conditions.remove c.status.conditions type_migrating in
    let new =
      new_rolling_condition
        (record { format = "Rolling deployment to latest version"; args = [] }) in
    let kept = env.conditions.find-set_other removed new type_migrating (λ e. cc) in
    (kept ∙ env.conditions.find-remove_self c.status.conditions type_migrating, refl)
