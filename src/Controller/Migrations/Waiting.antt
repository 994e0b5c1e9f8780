-- ===== src/Controller/Migrations/Waiting.antt =====
-- How `WaitForMigrationsHandler` (pkg/controller/wait_for_migrations.go) ends.
use Prim.Native.String.{◌++◌}
use spicedb_operator.Base.{
  Bool, In, List, Option, Option-cases, String, [], arith, at_head, at_tail, eq_iff, eq_or_ne,
  false, inl, inr, ne_of_test, none, refl, some, test_of_ne, true, ◌==◌, ◌∷◌, ◌≡◌, ◌≢◌, ◌⊎◌,
}
use spicedb_operator.Api.Condition.{condition_true, new_migration_failed_condition}
use spicedb_operator.Api.Cluster.{set_status_condition}
use spicedb_operator.Controller.Migrations.Routing.{EventOnly}
use spicedb_operator.Controller.Types.{
  Job, JobCondition, Context, Call, Outcome, Trace, Env, hand_on, deployment_chain, self_pause,
  requeue_after,
}
use spicedb_operator.Controller.Objects.{
  find_condition, find_job_condition, job_condition_has_status,
}
use spicedb_operator.Controller.Migrations.{
  failure_of, wait_or_pause, wait_for_job, wait_migrations,
}
use spicedb_operator.Controller.Traces.{Meets}

-- The condition is the first of its type.
abbrev pub FirstOf : String → JobCondition → List JobCondition → Type 0
FirstOf type_name c [] = ⊥
FirstOf type_name c (d ∷ cs) =
    ((d ≡ c) × (d.type_name ≡ type_name)) ⊎ ((d.type_name ≢ type_name) × FirstOf type_name c cs)

-- The first condition of the type, of the job, has the status.
unfoldable pub HasCondition : String → String → Option Job → Type 0
HasCondition type_name status job =
    (j : Job) × (c : JobCondition) × (job ≡ some j)
    × FirstOf type_name c j.conditions
    × (c.status ≡ status)

-- The job's first condition of type Failed is true, and has the message.
unfoldable pub Failed : String → Option Job → Type 0
Failed message job =
    (j : Job) × (c : JobCondition) × (job ≡ some j)
    × FirstOf "Failed" c j.conditions
    × (c.status ≡ "True")
    × (c.message ≡ message)

find_condition-FirstOf :
    (cs : List JobCondition) (type_name : String) {c : JobCondition}
    → find_condition cs type_name ≡ some c
    → FirstOf type_name c cs
unfolding find_condition
find_condition-FirstOf [] type_name h = cc
find_condition-FirstOf (d ∷ cs) type_name {c} h = elim (eq_or_ne d.type_name type_name) [
  | inl e ↦ let same : d ≡ c = ground (arith, eq_iff d.type_name type_name) in inl (same, e)
  | inr other ↦
      inr
        (ne_of_test d.type_name type_name other, find_condition-FirstOf cs type_name (ground arith))
]

FirstOf-find_condition :
    (cs : List JobCondition) (type_name : String) {c : JobCondition}
    → FirstOf type_name c cs
    → find_condition cs type_name ≡ some c
unfolding find_condition
FirstOf-find_condition [] type_name h = absurd h
FirstOf-find_condition (d ∷ cs) type_name (inl (same, e)) =
    rw ((eq_iff d.type_name type_name).1 e, same) refl
FirstOf-find_condition (d ∷ cs) type_name (inr (other, f)) =
    rw (test_of_ne d.type_name type_name other) (FirstOf-find_condition cs type_name f)

pub job_condition_has_status-HasCondition :
    (job : Option Job) (type_name status : String)
    → job_condition_has_status job type_name status ≡ true
    → HasCondition type_name status job
unfolding job_condition_has_status find_job_condition HasCondition
job_condition_has_status-HasCondition none type_name status h = cc
job_condition_has_status-HasCondition (some j) type_name status h =
    elim (Option-cases (find_condition j.conditions type_name)) [
      | inl e ↦ cc
      | inr (c, e) ↦
          let b : (c.status == status) ≡ true = ground arith in
          (
            j,
            c,
            refl,
            find_condition-FirstOf j.conditions type_name e,
            (eq_iff c.status status).0 b,
          )
    ]

HasCondition-job_condition_has_status :
    (job : Option Job) (type_name status : String)
    → HasCondition type_name status job
    → job_condition_has_status job type_name status ≡ true
unfolding job_condition_has_status find_job_condition HasCondition
HasCondition-job_condition_has_status job type_name status (j, c, e, f, s) =
    rw
      (
        e,
        job_condition_has_status,
        find_job_condition,
        FirstOf-find_condition j.conditions type_name f,
      )
      ((eq_iff c.status status).1 s)

failure_of-Failed :
    (job : Option Job) (message : String) → failure_of job ≡ some message → Failed message job
unfolding failure_of find_job_condition Failed
failure_of-Failed none message h = cc
failure_of-Failed (some j) message h = elim (Option-cases (find_condition j.conditions "Failed")) [
  | inl e ↦ cc
  | inr (c, e) ↦ elim (eq_or_ne c.status "True") [
    | inl s ↦
        let m : c.message ≡ message = ground (arith, eq_iff c.status "True") in
        (j, c, refl, find_condition-FirstOf j.conditions "Failed" e, s, m)
    | inr other ↦ ground arith
  ]
]

Failed-failure_of :
    (job : Option Job) (message : String) → Failed message job → failure_of job ≡ some message
unfolding failure_of find_job_condition Failed
Failed-failure_of job message (j, c, e, f, s, m) =
    rw
      (
        e,
        failure_of,
        find_job_condition,
        FirstOf-find_condition j.conditions "Failed" f,
        (eq_iff c.status "True").1 s,
        m,
      )
      refl

-- How the wait ends: the deployment comes next only when the job has completed and has not failed;
-- a job that failed pauses the cluster, with a condition that carries the job's message; a job that
-- has neither completed nor failed is waited for.
pub data WaitEnd (env : Env) (ctx : Context) : Outcome → Type 0 where
  completed :
      HasCondition "Complete" "True" ctx.current_job
      → ((message : String) → ¬ Failed message ctx.current_job)
      → WaitEnd env ctx (hand_on deployment_chain ctx)
  paused :
      (message : String)
      → Failed message ctx.current_job
      → WaitEnd env ctx (
          hand_on self_pause (record ctx {
            cluster = set_status_condition env.conditions ctx.cluster (
                new_migration_failed_condition ctx.config.datastore_engine "head"
                  ("migration job failed: " ++ message));
          }))
  waiting :
      ¬ HasCondition "Complete" "True" ctx.current_job
      → ((message : String) → ¬ Failed message ctx.current_job)
      → WaitEnd env ctx (requeue_after 5)

wait_for_job-WaitEnd :
    (env : Env) (ctx : Context) (complete : Bool) (t : Trace)
    → ((message : String) → ¬ Failed message ctx.current_job)
    → job_condition_has_status ctx.current_job "Complete" condition_true ≡ complete
    → WaitEnd env ctx (wait_for_job ctx complete t).outcome
unfolding wait_for_job
wait_for_job-WaitEnd env ctx true t f c =
    completed (job_condition_has_status-HasCondition ctx.current_job "Complete" condition_true c) f
wait_for_job-WaitEnd env ctx false t f c =
    let running = HasCondition-job_condition_has_status ctx.current_job "Complete" condition_true in
    waiting (λ h. cc (running h)) f

wait_or_pause-WaitEnd :
    (env : Env) (ctx : Context) (failure : Option String) (t : Trace)
    → failure_of ctx.current_job ≡ failure
    → WaitEnd env ctx (wait_or_pause env ctx failure t).outcome
unfolding wait_or_pause
wait_or_pause-WaitEnd env ctx none t f =
    wait_for_job-WaitEnd env ctx
      (job_condition_has_status ctx.current_job "Complete" condition_true) t
      (λ message h. cc (Failed-failure_of ctx.current_job message h)) refl
wait_or_pause-WaitEnd env ctx (some message) t f =
    paused message (failure_of-Failed ctx.current_job message f)

wait_or_pause-trace :
    (env : Env) (ctx : Context) (failure : Option String) (t : Trace) (c : Call)
    → In c (wait_or_pause env ctx failure t).trace
    → In c t ⊎ EventOnly c
unfolding wait_or_pause wait_for_job
wait_or_pause-trace env ctx (some message) t c m = inl m
wait_or_pause-trace env ctx none t c m =
    go (job_condition_has_status ctx.current_job "Complete" condition_true) m
  where
    go : (complete : Bool) → In c (wait_for_job ctx complete t).trace → In c t ⊎ EventOnly c
    go true (at_head e) = inr ("MigrationsCompleted", e)
    go true (at_tail m) = inl m
    go false m = inl m

-- The wait goes on to the deployment only if the job's first condition Complete is true and its
-- first condition Failed is not; it pauses the cluster only if the first condition Failed is true,
-- and the status then carries its message; it waits only if neither is true.
pub wait_migrations-WaitEnd :
    (env : Env) (ctx : Context) (t : Trace) → WaitEnd env ctx (wait_migrations env ctx t).outcome
unfolding wait_migrations
wait_migrations-WaitEnd env ctx t =
    wait_or_pause-WaitEnd env ctx (failure_of ctx.current_job) t refl

-- The wait makes no call but the event that the migration is complete.
pub wait_migrations-Meets :
    (env : Env) (ctx : Context) (t : Trace)
    → Meets EventOnly (WaitEnd env ctx) t (wait_migrations env ctx t)
unfolding wait_migrations
wait_migrations-Meets env ctx t = record {
  adds = wait_or_pause-trace env ctx (failure_of ctx.current_job) t;
  ends = wait_migrations-WaitEnd env ctx t;
}
