-- ===== src/Controller/Pipeline/Order.antt =====
-- The order of a reconciliation (pkg/controller): a deployment is rolled out after its migration.
use spicedb_operator.Base.{In, List, String, false, inl, inr, some, ◌≡◌, ◌⊎◌}
use spicedb_operator.Api.Condition.{condition_true}
use spicedb_operator.Api.Cluster.{Cluster, rollout_in_progress}
use spicedb_operator.Controller.Types.{
  Job, Pod, Config, Context, Call, HandlerKey, Outcome, Trace, Server, Env, hand_on, self_pause,
  run_migration, wait_for_migrations, deployment_chain, next_handler, patch_status, event,
  apply_job, delete_job, apply_deployment, delete_deployment, done, requeue, requeue_after,
  requeue_err, requeue_api_err,
}
use spicedb_operator.Controller.Objects.{annotation, migration_requirements_key}
use spicedb_operator.Controller.Migrations.{
  check_migrations, run_migrations, wait_migrations, with_job,
}
use spicedb_operator.Controller.Migrations.Routing.{
  Carries, Deployed, NoMigrations, Route, check_migrations-Meets,
}
use spicedb_operator.Controller.Migrations.Jobs.{RunCall, RunEnd, run_migrations-Meets}
use spicedb_operator.Controller.Migrations.Waiting.{HasCondition, WaitEnd, wait_migrations-Meets}
use spicedb_operator.Controller.Migrations.Routing.{EventOnly}
use spicedb_operator.Controller.Rollout.{ensure_deployment}
use spicedb_operator.Controller.Rollout.Settled.{RollCall, RollEnd}
use spicedb_operator.Controller.Rollout.Handler.{wanted_hash, ensure_deployment-Meets}
use spicedb_operator.Controller.Traces.{Meets, IsFinal, follow-Meets, finish-Meets, weaken-Meets}
use spicedb_operator.Controller.Pipeline.{
  after_wait, wait_chain, after_run, run_chain, after_check, migrate_and_deploy,
}

-- A job of the cache has the hash of the target migration and has completed.
unfoldable pub Migrated : Context → Type 0
Migrated ctx =
    (j : Job) × In j ctx.jobs
    × (annotation j.annotations migration_requirements_key ≡ ctx.migration_hash)
    × HasCondition "Complete" condition_true (some j)

-- The deployment may be touched: there is nothing to migrate, a deployment carries the hash of the
-- target migration already, or a job has migrated to it.
unfoldable pub Ready : Context → Type 0
Ready ctx = NoMigrations ctx ⊎ (Deployed ctx ⊎ Migrated ctx)

-- A new job is due: there is something to migrate, no deployment and no job carries the hash.
unfoldable pub JobDue : Context → Type 0
JobDue ctx =
    (¬ NoMigrations ctx)
    × (¬ Deployed ctx)
    × ((j : Job) → In j ctx.jobs → ¬ Carries ctx.migration_hash j.annotations)

-- The calls of a reconciliation, with the condition of each.
pub data Allowed (ctx : Context) : Call → Type 0 where
  writes : {c : Cluster} → Allowed ctx (patch_status c)
  reports : {reason : String} → Allowed ctx (event reason)
  creates_job : JobDue ctx → Allowed ctx (apply_job ctx.migration_hash)
  deletes_job : (n m : String) → JobDue ctx → Allowed ctx (delete_job n m)
  deploys : {hash : String} → Ready ctx → Allowed ctx (apply_deployment hash)
  deletes_deployment : (n m : String) → Ready ctx → Allowed ctx (delete_deployment n m)

-- The handlers pass the reconciliation on, to the budget and the cleanup, only when it is ready and
-- no rollout is in progress.
unfoldable pub PassesOn : Env → Context → Outcome → Type 0
PassesOn env ctx (hand_on self_pause c) = Unit
PassesOn env ctx (hand_on run_migration c) = ⊥
PassesOn env ctx (hand_on wait_for_migrations c) = ⊥
PassesOn env ctx (hand_on deployment_chain c) = ⊥
PassesOn env ctx (hand_on next_handler c) =
    Ready ctx × (rollout_in_progress env.conditions c.cluster ≡ false)
PassesOn env ctx done = Unit
PassesOn env ctx requeue = Unit
PassesOn env ctx (requeue_after n) = Unit
PassesOn env ctx (requeue_err e) = Unit
PassesOn env ctx (requeue_api_err e) = Unit

IsFinal-PassesOn : (env : Env) (ctx : Context) (o : Outcome) → IsFinal o → PassesOn env ctx o
unfolding IsFinal PassesOn
IsFinal-PassesOn env ctx (hand_on k c) f = absurd f
IsFinal-PassesOn env ctx done f = tt
IsFinal-PassesOn env ctx requeue f = tt
IsFinal-PassesOn env ctx (requeue_after n) f = tt
IsFinal-PassesOn env ctx (requeue_err e) f = tt
IsFinal-PassesOn env ctx (requeue_api_err e) f = tt

module _ (env : Env) (server : Server) (deployment_hash : Config → String → String → String)
    (pods : List Pod) (ctx : Context) where
  deploy-Meets :
      (c : Context) (t : Trace)
      → Ready ctx
      → Meets
          (Allowed ctx)
          (PassesOn env ctx)
          t
          (ensure_deployment env server deployment_hash pods c t)
  unfolding PassesOn
  deploy-Meets c t ready =
      weaken-Meets call end t (ensure_deployment env server deployment_hash pods c t)
        (ensure_deployment-Meets env server deployment_hash pods c t)
    where
      hash : String
      hash = wanted_hash deployment_hash c

      call : (x : Call) → RollCall env c hash x → Allowed ctx x
      call x RollCall.writes = writes
      call x (RollCall.applies a) = deploys ready
      call x (RollCall.deletes n d k e z m s) = deletes_deployment n d.name ready

      end : (o : Outcome) → RollEnd env c hash o → PassesOn env ctx o
      end o (RollEnd.waits n) = tt
      end o (RollEnd.fails e) = tt
      end o (RollEnd.rolled d e m s r p) = (ready, p)

  event_call : (x : Call) → EventOnly x → Allowed ctx x
  event_call x (reason, e) = rw e reports

  -- The wait for a job, on a context with the same annotations: `done` says what its completion means.
  wait_chain-Meets :
      (c : Context) (t : Trace)
      → (HasCondition "Complete" condition_true c.current_job → Ready ctx)
      → Meets (Allowed ctx) (PassesOn env ctx) t (wait_chain env server deployment_hash pods c t)
  unfolding wait_chain after_wait PassesOn
  wait_chain-Meets c t ready =
      follow-Meets event_call (after_wait env server deployment_hash pods) t
        (wait_migrations env c t) (wait_migrations-Meets env c t)
        (λ o f _. IsFinal-PassesOn env ctx o f) next
    where
      next :
          (k : HandlerKey) (d : Context)
          → WaitEnd env c (hand_on k d)
          → (u : Trace)
          → Meets
              (Allowed ctx)
              (PassesOn env ctx)
              u
              (after_wait env server deployment_hash pods k d u)
      next k d (WaitEnd.completed h f) u = deploy-Meets c u (ready h)
      next k d (WaitEnd.paused message f) u = finish-Meets (hand_on self_pause _) u tt

  run_chain-Meets :
      (t : Trace)
      → JobDue ctx
      → Meets (Allowed ctx) (PassesOn env ctx) t (run_chain env server deployment_hash pods ctx t)
  unfolding run_chain after_run PassesOn Ready Migrated
  run_chain-Meets t due =
      follow-Meets call (after_run env server deployment_hash pods) t
        (run_migrations env server ctx t) (run_migrations-Meets env server ctx t)
        (λ o f _. IsFinal-PassesOn env ctx o f) next
    where
      call : (x : Call) → RunCall ctx x → Allowed ctx x
      call x RunCall.writes = writes
      call x (RunCall.creates a) = creates_job due
      call x (RunCall.deletes j e) = deletes_job j.namespace j.name due

      next :
          (k : HandlerKey) (d : Context)
          → RunEnd ctx (hand_on k d)
          → (u : Trace)
          → Meets
              (Allowed ctx)
              (PassesOn env ctx)
              u
              (after_run env server deployment_hash pods k d u)
      next k d (RunEnd.found j c m h) u =
          wait_chain-Meets (record ctx { cluster = c; current_job = some j }) u
            (λ done. inr (inr (j, m, h, done)))

  -- Whatever the API server answers, a reconciliation touches deployments only when there is nothing
  -- to migrate, a deployment carries the hash of the target migration already, or a job with that
  -- hash has completed; it creates and deletes migration jobs only when there is something to
  -- migrate and neither a deployment nor a job carries the hash; and it passes the cluster on only
  -- in the first three cases, and with no rollout in progress.
  pub migrate_and_deploy-Meets :
      (t : Trace)
      → Meets
          (Allowed ctx)
          (PassesOn env ctx)
          t
          (migrate_and_deploy env server deployment_hash pods ctx t)
  unfolding migrate_and_deploy after_check Ready Migrated JobDue Carries annotation with_job
  migrate_and_deploy-Meets t =
      follow-Meets event_call (after_check env server deployment_hash pods) t
        (check_migrations env ctx t) (check_migrations-Meets env ctx t)
        (λ o f _. IsFinal-PassesOn env ctx o f) next
    where
      next :
          (k : HandlerKey) (d : Context)
          → Route ctx (hand_on k d)
          → (u : Trace)
          → Meets
              (Allowed ctx)
              (PassesOn env ctx)
              u
              (after_check env server deployment_hash pods k d u)
      next k d (Route.to_deployment job (inl n)) u = deploy-Meets (with_job ctx job) u (inl n)
      next k d (Route.to_deployment job (inr e)) u = deploy-Meets (with_job ctx job) u (inr (inl e))
      next k d (Route.to_run n e a) u = run_chain-Meets u (n, e, a)
      next k d (Route.to_wait j m (a, e, h) n b) u =
          wait_chain-Meets (record ctx { current_job = some j }) u
            (λ done. inr (inr (j, m, rw e h, done)))
