-- ===== src/Controller/Migrations/Jobs.antt =====
-- What `MigrationRunHandler` (pkg/controller/run_migration.go) does to jobs.
use spicedb_operator.Base.{
  Bool, In, List, Option, String, [], arith, at_head, at_tail, eq_iff, false, if◌then◌else◌, inl,
  inr, ne_of_test, none, refl, some, true, ◌==◌, ◌∷◌, ◌≡◌, ◌≢◌, ◌⊎◌,
}
use spicedb_operator.Base.Map.{Map}
use spicedb_operator.Api.Cluster.{Cluster}
use spicedb_operator.Controller.Types.{
  Job, Context, Call, Outcome, Trace, Run, Server, Env, finish, hand_on, next_handler,
  requeue_after, requeue_err, requeue_api_err, patch_status, apply_job, delete_job,
}
use spicedb_operator.Controller.Objects.{annotation, migration_requirements_key, when_nil}
use spicedb_operator.Controller.Migrations.{
  matching_jobs, extra_jobs, delete_jobs, settle_jobs, run_migrations, migrating_cluster,
}
use spicedb_operator.Controller.Traces.{Meets, finish-Meets, perform-Meets}

-- The hash that the handler reads off a job: the empty text without annotations.
abbrev pub hash_of : Job → String
hash_of j = annotation j.annotations migration_requirements_key

In-matching_jobs :
    (j : Job) (js : List Job) (hash : String)
    → In j (matching_jobs js hash)
    → In j js × (hash_of j ≡ hash)
unfolding matching_jobs
In-matching_jobs j [] hash m = elim m [ ]
In-matching_jobs j (i ∷ js) hash m = go (hash_of i == hash) refl (In-matching_jobs j js hash) m
  where
    go :
        (b : Bool)
        → (hash_of i == hash) ≡ b
        → (In j (matching_jobs js hash) → In j js × (hash_of j ≡ hash))
        → In j (if b then i ∷ matching_jobs js hash else matching_jobs js hash)
        → In j (i ∷ js) × (hash_of j ≡ hash)
    go true e rec (at_head same) =
        (at_head same, let h = (eq_iff (hash_of i) hash).0 e in rw same h)
    go true e rec (at_tail n) = let (there, h) = rec n in (at_tail there, h)
    go false e rec n = let (there, h) = rec n in (at_tail there, h)

matching_jobs-eq-nil :
    (j : Job) (js : List Job) (hash : String)
    → matching_jobs js hash ≡ []
    → In j js
    → hash_of j ≢ hash
unfolding matching_jobs
matching_jobs-eq-nil j [] hash e m = elim m [ ]
matching_jobs-eq-nil j (i ∷ js) hash e (at_head same) = λ h.
    let hit : (hash_of i == hash) ≡ true = (eq_iff (hash_of i) hash).1 (rw (← same) h) in
    ground arith
matching_jobs-eq-nil j (i ∷ js) hash e (at_tail m) = matching_jobs-eq-nil j js hash (ground arith) m

-- An extra job is in the cache, and it has no annotations or another hash.
abbrev pub IsExtra : List Job → String → Job → Type 0
IsExtra js hash j = In j js × ((j.annotations ≡ none) ⊎ (hash_of j ≢ hash))

In-extra_jobs :
    (j : Job) (js : List Job) (hash : String) → In j (extra_jobs js hash) → IsExtra js hash j
unfolding extra_jobs when_nil
In-extra_jobs j [] hash m = elim m [ ]
In-extra_jobs j (i ∷ js) hash m =
    outer i.annotations refl (inner (hash_of i == hash) refl (In-extra_jobs j js hash)) m
  where
    inner :
        (b : Bool)
        → (hash_of i == hash) ≡ b
        → (In j (extra_jobs js hash) → IsExtra js hash j)
        → In j (if b then extra_jobs js hash else i ∷ extra_jobs js hash)
        → IsExtra (i ∷ js) hash j
    inner true e rec n = let (there, h) = rec n in (at_tail there, h)
    inner false e rec (at_head same) = (at_head same, inr (rw same (ne_of_test (hash_of i) hash e)))
    inner false e rec (at_tail n) = let (there, h) = rec n in (at_tail there, h)

    outer :
        (a : Option (Map String))
        → i.annotations ≡ a
        → (In j (if hash_of i == hash then extra_jobs js hash else i ∷ extra_jobs js hash)
            → IsExtra (i ∷ js) hash j)
        → In j (
            when_nil i a (if hash_of i == hash then extra_jobs js hash else i ∷ extra_jobs js hash))
        → IsExtra (i ∷ js) hash j
    outer none e rec (at_head same) = (at_head same, inl (rw same e))
    outer none e rec (at_tail n) = rec n
    outer (some a) e rec n = rec n

-- What the run handler may do to the API server: it writes the status; it applies the job of the
-- target migration when no job in the cache has its hash; and the jobs that it deletes are in the
-- cache, without annotations or with another hash.
pub data RunCall (ctx : Context) : Call → Type 0 where
  writes : {c : Cluster} → RunCall ctx (patch_status c)
  creates :
      ((j : Job) → In j ctx.jobs → hash_of j ≢ ctx.migration_hash)
      → RunCall ctx (apply_job ctx.migration_hash)
  deletes :
      (j : Job)
      → IsExtra ctx.jobs ctx.migration_hash j
      → RunCall ctx (delete_job j.namespace j.name)

-- How it ends: with an error, in a wait after it created the job, or in the next handler, with a
-- job from the cache that has the hash as the current one.
pub data RunEnd (ctx : Context) : Outcome → Type 0 where
  failed : {e : String} → RunEnd ctx (requeue_err e)
  api_failed : {e : String} → RunEnd ctx (requeue_api_err e)
  created :
      ((j : Job) → In j ctx.jobs → hash_of j ≢ ctx.migration_hash) → RunEnd ctx (requeue_after 5)
  found :
      (j : Job) (c : Cluster)
      → In j ctx.jobs
      → hash_of j ≡ ctx.migration_hash
      → RunEnd ctx (hand_on next_handler (record ctx { cluster = c; current_job = some j }))

delete_jobs-Meets :
    (ctx : Context) (server : Server) (js : List Job) (rest : Trace → Run) (t : Trace)
    → ((j : Job) → In j js → IsExtra ctx.jobs ctx.migration_hash j)
    → ((u : Trace) → Meets (RunCall ctx) (RunEnd ctx) u (rest u))
    → Meets (RunCall ctx) (RunEnd ctx) t (delete_jobs server js rest t)
unfolding delete_jobs
delete_jobs-Meets ctx server [] rest t extra k = k t
delete_jobs-Meets ctx server (j ∷ js) rest t extra k =
    perform-Meets server (delete_job j.namespace j.name) requeue_api_err
      (delete_jobs server js rest) t (deletes j (extra j (at_head refl))) (λ e. api_failed)
      (λ u. delete_jobs-Meets ctx server js rest u (λ i m. extra i (at_tail m)) k)

settle_jobs-Meets :
    (ctx : Context) (server : Server) (c : Cluster) (js : List Job) (t : Trace)
    → matching_jobs ctx.jobs ctx.migration_hash ≡ js
    → Meets (RunCall ctx) (RunEnd ctx) t (
        settle_jobs server
          (record ctx { cluster = c })
          js
          (extra_jobs ctx.jobs ctx.migration_hash)
          t)
unfolding settle_jobs
settle_jobs-Meets ctx server c [] t e =
    let none_match : (j : Job) → In j ctx.jobs → hash_of j ≢ ctx.migration_hash =
      λ j m. matching_jobs-eq-nil j ctx.jobs ctx.migration_hash e m in
    perform-Meets server (apply_job ctx.migration_hash) requeue_api_err
      (delete_jobs server (extra_jobs ctx.jobs ctx.migration_hash) (finish (requeue_after 5))) t
      (creates none_match) (λ _. api_failed)
      (λ u.
        delete_jobs-Meets ctx server (extra_jobs ctx.jobs ctx.migration_hash)
          (finish (requeue_after 5)) u (λ j m. In-extra_jobs j ctx.jobs ctx.migration_hash m)
          (λ v. finish-Meets (requeue_after 5) v (created none_match)))
settle_jobs-Meets ctx server c (j ∷ js) t e =
    let (m, h) = In-matching_jobs j ctx.jobs ctx.migration_hash (rw e (at_head refl)) in
    let o = hand_on next_handler (record ctx { cluster = c; current_job = some j }) in
    delete_jobs-Meets ctx server (extra_jobs ctx.jobs ctx.migration_hash) (finish o) t
      (λ i n. In-extra_jobs i ctx.jobs ctx.migration_hash n) (λ v. finish-Meets o v (found j c m h))

-- Whatever the API server answers, the run handler applies a job only when none in the cache has
-- the hash of the target migration, deletes only jobs of the cache that have no annotations or
-- another hash, and goes on only with a job of the cache that has the hash.
pub run_migrations-Meets :
    (env : Env) (server : Server) (ctx : Context) (t : Trace)
    → Meets (RunCall ctx) (RunEnd ctx) t (run_migrations env server ctx t)
unfolding run_migrations
run_migrations-Meets env server ctx t =
    let c = migrating_cluster env ctx in
    perform-Meets server (patch_status c) requeue_err
      (settle_jobs server (record ctx { cluster = c }) (matching_jobs ctx.jobs ctx.migration_hash)
        (extra_jobs ctx.jobs ctx.migration_hash))
      t writes (λ _. failed)
      (λ u. settle_jobs-Meets ctx server c (matching_jobs ctx.jobs ctx.migration_hash) u refl)
