-- ===== src/Controller/Pipeline.antt =====
-- How the handlers for migrations and the deployment are put together (the chains of
-- `NewController` in pkg/controller/controller.go): the check first, then the migration job, the wait
-- for it, and the deployment. What comes after a handler that is not among these is left as the
-- outcome that hands the context on.
pub mod Order
use spicedb_operator.Base.{List, String}
use spicedb_operator.Controller.Types.{
  Pod, Config, Context, HandlerKey, Trace, Run, Server, Env, finish, hand_on, self_pause,
  run_migration, wait_for_migrations, deployment_chain, next_handler,
}
use spicedb_operator.Controller.Migrations.{check_migrations, run_migrations, wait_migrations}
use spicedb_operator.Controller.Rollout.{ensure_deployment}
use spicedb_operator.Controller.Traces.{follow}

module _ (env : Env) (server : Server) (deployment_hash : Config → String → String → String)
    (pods : List Pod) where
  -- `waitForMigrationsHandler(deploymentHandlerChain, selfPauseCluster(NoopHandler))`
  unfoldable pub after_wait : HandlerKey → Context → Trace → Run
  after_wait deployment_chain ctx = ensure_deployment env server deployment_hash pods ctx
  after_wait self_pause ctx = finish (hand_on self_pause ctx)
  after_wait run_migration ctx = finish (hand_on run_migration ctx)
  after_wait wait_for_migrations ctx = finish (hand_on wait_for_migrations ctx)
  after_wait next_handler ctx = finish (hand_on next_handler ctx)

  unfoldable pub wait_chain : Context → Trace → Run
  wait_chain ctx t = follow after_wait (wait_migrations env ctx t)

  -- `chain(c.runMigration, waitForMigrationsChain.Builder())`
  unfoldable pub after_run : HandlerKey → Context → Trace → Run
  after_run next_handler ctx = wait_chain ctx
  after_run self_pause ctx = finish (hand_on self_pause ctx)
  after_run run_migration ctx = finish (hand_on run_migration ctx)
  after_run wait_for_migrations ctx = finish (hand_on wait_for_migrations ctx)
  after_run deployment_chain ctx = finish (hand_on deployment_chain ctx)

  unfoldable pub run_chain : Context → Trace → Run
  run_chain ctx t = follow after_run (run_migrations env server ctx t)

  -- `c.checkMigrations(deploymentHandlerChain, chain(…), waitForMigrationsChain)`
  unfoldable pub after_check : HandlerKey → Context → Trace → Run
  after_check deployment_chain ctx = ensure_deployment env server deployment_hash pods ctx
  after_check run_migration ctx = run_chain ctx
  after_check wait_for_migrations ctx = wait_chain ctx
  after_check self_pause ctx = finish (hand_on self_pause ctx)
  after_check next_handler ctx = finish (hand_on next_handler ctx)

  unfoldable pub migrate_and_deploy : Context → Trace → Run
  migrate_and_deploy ctx t = follow after_check (check_migrations env ctx t)
