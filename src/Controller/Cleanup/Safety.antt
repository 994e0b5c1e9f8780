-- ===== src/Controller/Cleanup/Safety.antt =====
-- What `JobCleanupHandler` (pkg/controller/cleanup_job.go) deletes.
use spicedb_operator.Base.{
  Bool, In, List, Option, String, [], ap, arith, at_head, at_tail, eqb, false, if◌then◌else◌,
  length, none, refl, some, true, ◌+◌, ◌∷◌, ◌≡◌, ◌≢◌,
}
use spicedb_operator.Base.Map.{Map}
use spicedb_operator.Api.Condition.{condition_true}
use spicedb_operator.Controller.Types.{
  Job, Pod, Call, Outcome, Trace, Run, Server, Env, perform, finish, requeue, requeue_api_err, done,
  delete_job, delete_pod,
}
use spicedb_operator.Controller.Objects.{
  migration_requirements_key, annotation, job_condition_has_status,
}
use spicedb_operator.Controller.Migrations.{contains}
use spicedb_operator.Controller.Migrations.Routing.{contains_iff}
use spicedb_operator.Controller.Migrations.Waiting.{
  HasCondition, job_condition_has_status-HasCondition,
}
use spicedb_operator.Controller.Cleanup.{
  job_names, is_finished, delete_finished, job_of, remove_pod, delete_pods, cleanup_jobs,
}
use spicedb_operator.Controller.Traces.{Meets, finish-Meets, perform-Meets}

-- The job has annotations, the hash of the deployment, and has completed.
unfoldable pub Finished : String → Job → Type 0
Finished hash j =
    (annotation j.annotations migration_requirements_key ≡ hash)
    × HasCondition "Complete" condition_true (some j)

-- The calls of the cleanup: a job that it deletes is finished, and a pod that it deletes names a job
-- of which there is none.
pub data CleanCall (hash : String) (jobs : List Job) (pods : List Pod) : Call → Type 0 where
  deletes_job :
      (j : Job)
      → In j jobs
      → Finished hash j
      → CleanCall hash jobs pods (delete_job j.namespace j.name)
  deletes_pod :
      (p : Pod) (name : String)
      → In p pods
      → job_of p.labels ≡ some name
      → ((j : Job) → In j jobs → j.name ≢ name)
      → CleanCall hash jobs pods (delete_pod p.namespace p.name)

-- The cleanup never hands the context on.
pub data CleanEnd : Outcome → Type 0 where
  finished : CleanEnd done
  again : CleanEnd requeue
  failed : (e : String) → CleanEnd (requeue_api_err e)

is_finished-Finished :
    (env : Env) (hash : String) (j : Job)
    → is_finished env hash j j.annotations ≡ true
    → Finished hash j
unfolding Finished is_finished
is_finished-Finished env hash j = go j.annotations refl
  where
    go :
        (a : Option (Map String))
        → j.annotations ≡ a
        → is_finished env hash j a ≡ true
        → (annotation j.annotations migration_requirements_key ≡ hash)
          × HasCondition "Complete" condition_true (some j)
    go none e h = cc
    go (some m) e h =
        let same : env.secure_equal (annotation (some m) migration_requirements_key) hash ≡ true =
          ground arith in
        let complete : job_condition_has_status (some j) "Complete" condition_true ≡ true =
          ground arith in
        let value =
          (env.secure_equal_iff (annotation (some m) migration_requirements_key) hash).0 same in
        (
          rw e value,
          job_condition_has_status-HasCondition (some j) "Complete" condition_true complete,
        )

job_names-In : (j : Job) (js : List Job) → In j js → In j.name (job_names js)
unfolding job_names
job_names-In j [] m = elim m [ ]
job_names-In j (i ∷ js) (at_head e) = at_head (ap (λ x. x.name) e)
job_names-In j (i ∷ js) (at_tail m) = at_tail (job_names-In j js m)

module _ (env : Env) (server : Server) (hash : String) (jobs : List Job) (pods : List Pod) where
  delete_finished-Meets :
      (js : List Job) (rest : Trace → Run) (t : Trace)
      → ((j : Job) → In j js → In j jobs)
      → ((u : Trace) → Meets (CleanCall hash jobs pods) CleanEnd u (rest u))
      → Meets (CleanCall hash jobs pods) CleanEnd t (delete_finished env server hash js rest t)
  unfolding delete_finished
  delete_finished-Meets [] rest t within next = next t
  delete_finished-Meets (j ∷ js) rest t within next =
      go (is_finished env hash j j.annotations) refl
        (λ u. delete_finished-Meets js rest u (λ i m. within i (at_tail m)) next)
    where
      loop : Trace → Run
      loop = delete_finished env server hash js rest

      go :
          (b : Bool)
          → is_finished env hash j j.annotations ≡ b
          → ((u : Trace) → Meets (CleanCall hash jobs pods) CleanEnd u (loop u))
          → Meets (CleanCall hash jobs pods) CleanEnd t (
              (if b
                  then perform server (delete_job j.namespace j.name) requeue_api_err loop
                  else loop)
                t)
      go true e k =
          perform-Meets server (delete_job j.namespace j.name) requeue_api_err loop t
            (deletes_job j (within j (at_head refl)) (is_finished-Finished env hash j e))
            (λ f. failed f) k
      go false e k = k t

  delete_pods-Meets :
      (ps : List Pod) (t : Trace)
      → ((p : Pod) → In p ps → In p pods)
      → Meets (CleanCall hash jobs pods) CleanEnd t (delete_pods server (job_names jobs) ps t)
  unfolding delete_pods remove_pod
  delete_pods-Meets [] t within = finish-Meets done t finished
  delete_pods-Meets (p ∷ ps) t within =
      go (job_of p.labels) refl (λ u. delete_pods-Meets ps u (λ i m. within i (at_tail m)))
    where
      loop : Trace → Run
      loop = delete_pods server (job_names jobs) ps

      Right : (Trace → Run) → Type 0
      Right rest = (u : Trace) → Meets (CleanCall hash jobs pods) CleanEnd u (rest u)

      choose :
          (name : String) (b : Bool)
          → job_of p.labels ≡ some name
          → contains (job_names jobs) name ≡ b
          → Right loop
          → Meets (CleanCall hash jobs pods) CleanEnd t (
              (if b
                  then finish requeue
                  else perform server (delete_pod p.namespace p.name) requeue_api_err loop)
                t)
      choose name true e c k = finish-Meets requeue t again
      choose name false e c k =
          perform-Meets server (delete_pod p.namespace p.name) requeue_api_err loop t
            (deletes_pod p name (within p (at_head refl)) e (λ j m same.
              let there = job_names-In j jobs m in
              let hit : contains (job_names jobs) name ≡ true =
                (contains_iff (job_names jobs) name).1 (rw (← same) there) in
              cc))
            (λ f. failed f) k

      go :
          (o : Option String)
          → job_of p.labels ≡ o
          → Right loop
          → Meets
              (CleanCall hash jobs pods)
              CleanEnd
              t
              (remove_pod server (job_names jobs) p o loop t)
      go none e k = k t
      go (some name) e k = choose name (contains (job_names jobs) name) e refl k

-- Whatever the API server answers, the cleanup deletes only jobs that carry the hash of the
-- deployment and have completed, and only pods whose job is not among the jobs any more; and it
-- ends in one of three operations of the queue.
pub cleanup_jobs-Meets :
    (env : Env) (server : Server) (jobs : List Job) (pods : List Pod) (m : Option (Map String))
    (t : Trace)
    → Meets
        (CleanCall (annotation m migration_requirements_key) jobs pods)
        CleanEnd
        t
        (cleanup_jobs env server jobs pods m t)
unfolding cleanup_jobs
cleanup_jobs-Meets env server jobs pods none t = finish-Meets done t finished
cleanup_jobs-Meets env server jobs pods (some m) t = go (eqb (length jobs + length pods) 0)
  where
    hash : String
    hash = annotation (some m) migration_requirements_key

    go :
        (b : Bool)
        → Meets (CleanCall hash jobs pods) CleanEnd t (
            (if b
                then finish done
                else delete_finished env server hash jobs
                    (delete_pods server (job_names jobs) pods))
              t)
    go true = finish-Meets done t finished
    go false =
        delete_finished-Meets env server hash jobs pods jobs
          (delete_pods server (job_names jobs) pods) t (λ _ m. m)
          (λ u. delete_pods-Meets env server hash jobs pods pods u (λ _ m. m))
