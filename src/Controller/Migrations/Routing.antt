-- ===== src/Controller/Migrations/Routing.antt =====
-- Where `MigrationCheckHandler` (pkg/controller/check_migrations.go) sends a cluster.
use spicedb_operator.Base.{
  Bool, Bool-cases, In, List, Option, String, [], arith, at_head, at_tail, eq_iff, eq_or_ne, false,
  if◌then◌else◌, inl, inr, none, refl, some, sym, true, ◌==◌, ◌||◌, ◌↔◌, ◌∷◌, ◌≡◌, ◌⊎◌,
}
use spicedb_operator.Base.Map.{Map, get_or}
use spicedb_operator.Api.Version.{Version, attribute_migration}
use spicedb_operator.Controller.Traces.{Meets}
use spicedb_operator.Controller.Types.{
  Call, event, Job, Deployment, Context, Outcome, Trace, Env, hand_on, deployment_chain,
  run_migration, wait_for_migrations, finish,
}
use spicedb_operator.Controller.Objects.{annotation, migration_requirements_key}
use spicedb_operator.Controller.Migrations.{
  carries_hash, has_deployment, find_job, with_job, contains, version_needs_no_migration, route_job,
  check_migrations,
}

-- The annotations are there, and have the hash under the key of the migration requirements.
unfoldable pub Carries : String → Option (Map String) → Type 0
Carries hash annotations =
    (m : Map String) × (annotations ≡ some m) × (get_or "" migration_requirements_key m ≡ hash)

-- Some deployment in the cache carries the hash of the target migration.
unfoldable pub Deployed : Context → Type 0
unfolding Carries
Deployed ctx = (d : Deployment) × In d ctx.deployments × Carries ctx.migration_hash d.annotations

-- There is nothing to migrate: the user skips migrations, the datastore is in memory, or the update
-- graph says that the step to the current version has no migration.
unfoldable pub NoMigrations : Context → Type 0
NoMigrations ctx =
    (ctx.config.skip_migrations ≡ true)
    ⊎ ((ctx.config.datastore_engine ≡ "memory")
        ⊎ ((v : Version) × (ctx.cluster.status.current_version ≡ some v)
            × ¬ In attribute_migration v.attributes))

-- The three ways on, with the condition of each.
pub data Route (ctx : Context) : Outcome → Type 0 where
  to_deployment :
      (job : Option Job)
      → NoMigrations ctx ⊎ Deployed ctx
      → Route ctx (hand_on deployment_chain (with_job ctx job))
  to_run :
      ¬ NoMigrations ctx
      → ¬ Deployed ctx
      → ((j : Job) → In j ctx.jobs → ¬ Carries ctx.migration_hash j.annotations)
      → Route ctx (hand_on run_migration ctx)
  to_wait :
      (j : Job)
      → In j ctx.jobs
      → Carries ctx.migration_hash j.annotations
      → ¬ NoMigrations ctx
      → ¬ Deployed ctx
      → Route ctx (hand_on wait_for_migrations (with_job ctx (some j)))

pub contains_iff : (xs : List String) (x : String) → (contains xs x ≡ true) ↔ In x xs
unfolding contains
contains_iff [] x = (λ h. cc, λ m. elim m [ ])
contains_iff (y ∷ ys) x = (
  λ h. elim (eq_or_ne y x) [
    | inl e ↦ at_head (sym e)
    | inr other ↦ at_tail ((contains_iff ys x).0 (ground arith))
  ],
  λ m. elim m [
    | at_head e ↦ ground (arith, eq_iff y x)
    | at_tail n ↦ let there : contains ys x ≡ true = (contains_iff ys x).1 n in ground arith
  ],
)

pub carries_hash_iff :
    (env : Env) (a : Option (Map String)) (hash : String)
    → (carries_hash env a hash ≡ true) ↔ Carries hash a
unfolding carries_hash Carries annotation
carries_hash_iff env none hash = (λ h. cc, λ (m, e, _). cc)
carries_hash_iff env (some m) hash = (
  λ h. (m, refl, (env.secure_equal_iff (get_or "" migration_requirements_key m) hash).0 h),
  λ (n, e, same).
      (env.secure_equal_iff (get_or "" migration_requirements_key m) hash).1 (ground arith),
)

has_deployment-eq-true :
    (env : Env) (ds : List Deployment) (hash : String)
    → has_deployment env ds hash ≡ true
    → (d : Deployment) × In d ds × Carries hash d.annotations
unfolding has_deployment
has_deployment-eq-true env [] hash h = cc
has_deployment-eq-true env (d ∷ ds) hash h =
    elim (Bool-cases (carries_hash env d.annotations hash)) [
      | inl hit ↦ (d, at_head refl, (carries_hash_iff env d.annotations hash).0 hit)
      | inr miss ↦
          let (e, m, c) = has_deployment-eq-true env ds hash (ground arith) in (e, at_tail m, c)
    ]

has_deployment-eq-false :
    (env : Env) (ds : List Deployment) (hash : String)
    → has_deployment env ds hash ≡ false
    → (d : Deployment) → In d ds
    → ¬ Carries hash d.annotations
unfolding has_deployment
has_deployment-eq-false env [] hash h d m = elim m [ ]
has_deployment-eq-false env (d ∷ ds) hash h e (at_head same) = λ c.
    let hit : carries_hash env d.annotations hash ≡ true =
      (carries_hash_iff env d.annotations hash).1 (rw (← same) c) in
    ground arith
has_deployment-eq-false env (d ∷ ds) hash h e (at_tail m) =
    has_deployment-eq-false env ds hash (ground arith) e m

find_job-eq-some :
    (env : Env) (js : List Job) (hash : String) {j : Job}
    → find_job env js hash ≡ some j
    → In j js × Carries hash j.annotations
unfolding find_job
find_job-eq-some env [] hash h = cc
find_job-eq-some env (i ∷ js) hash {j} h = elim (Bool-cases (carries_hash env i.annotations hash)) [
  | inl hit ↦
      let same : i ≡ j = ground arith in
      (at_head (sym same), rw (← same) ((carries_hash_iff env i.annotations hash).0 hit))
  | inr miss ↦ let (m, c) = find_job-eq-some env js hash (ground arith) in (at_tail m, c)
]

find_job-eq-none :
    (env : Env) (js : List Job) (hash : String)
    → find_job env js hash ≡ none
    → (j : Job) → In j js
    → ¬ Carries hash j.annotations
unfolding find_job
find_job-eq-none env [] hash h j m = elim m [ ]
find_job-eq-none env (i ∷ js) hash h j (at_head same) = λ c.
    let hit : carries_hash env i.annotations hash ≡ true =
      (carries_hash_iff env i.annotations hash).1 (rw (← same) c) in
    ground arith
find_job-eq-none env (i ∷ js) hash h j (at_tail m) = find_job-eq-none env js hash (ground arith) j m

version_lem :
    (v : Option Version)
    → (version_needs_no_migration v ≡ true)
      ↔ ((w : Version) × (v ≡ some w) × ¬ In attribute_migration w.attributes)
unfolding version_needs_no_migration
version_lem none = (λ h. cc, λ (w, e, _). cc)
version_lem (some v) = (
  λ h. (
    v,
    refl,
    λ m.
        let hit : contains v.attributes attribute_migration ≡ true =
          (contains_iff v.attributes attribute_migration).1 m in
        ground arith,
  ),
  λ (w, e, n).
      let same : v ≡ w = ground arith in
      elim (Bool-cases (contains v.attributes attribute_migration)) [
        | inl hit ↦ absurd (n (rw (← same) ((contains_iff v.attributes attribute_migration).0 hit)))
        | inr miss ↦ ground arith
      ],
)

-- The test for a migration says whether there is one.
NoMigrations-iff :
    (ctx : Context)
    → ((ctx.config.skip_migrations
          || ctx.config.datastore_engine == "memory"
          || version_needs_no_migration ctx.cluster.status.current_version)
        ≡ true)
      ↔ NoMigrations ctx
unfolding NoMigrations
NoMigrations-iff ctx =
    let engine = eq_iff ctx.config.datastore_engine "memory" in
    let version = version_lem ctx.cluster.status.current_version in
    (
      λ h. elim (Bool-cases ctx.config.skip_migrations) [
        | inl skip ↦ inl skip
        | inr want ↦ elim (Bool-cases (ctx.config.datastore_engine == "memory")) [
          | inl memory ↦ inr (inl (engine.0 memory))
          | inr disk ↦ inr (inr (version.0 (ground arith)))
        ]
      ],
      λ h. elim h [
        | inl skip ↦ ground arith
        | inr (inl memory) ↦
            let e : (ctx.config.datastore_engine == "memory") ≡ true = engine.1 memory in
            ground arith
        | inr (inr v) ↦
            let e : version_needs_no_migration ctx.cluster.status.current_version ≡ true =
              version.1 v in
            ground arith
      ],
    )

-- The last tests, of a cluster that has something to migrate.
route_job-Route :
    (env : Env) (ctx : Context) (t : Trace)
    → ¬ NoMigrations ctx
    → Route ctx
        (route_job
          (has_deployment env ctx.deployments ctx.migration_hash)
          (find_job env ctx.jobs ctx.migration_hash)
          ctx
          t).outcome
unfolding route_job Deployed
route_job-Route env ctx t wanted =
    go (has_deployment env ctx.deployments ctx.migration_hash)
      (find_job env ctx.jobs ctx.migration_hash) refl refl
  where
    go :
        (found : Bool) (job : Option Job)
        → has_deployment env ctx.deployments ctx.migration_hash ≡ found
        → find_job env ctx.jobs ctx.migration_hash ≡ job
        → Route ctx (route_job found job ctx t).outcome
    go true job d j =
        to_deployment job (inr (has_deployment-eq-true env ctx.deployments ctx.migration_hash d))
    go false none d j =
        to_run wanted
          (λ (e, m, c). has_deployment-eq-false env ctx.deployments ctx.migration_hash d e m c)
          (find_job-eq-none env ctx.jobs ctx.migration_hash j)
    go false (some i) d j =
        let (m, c) = find_job-eq-some env ctx.jobs ctx.migration_hash j in
        to_wait i m c wanted
          (λ (e, n, k). has_deployment-eq-false env ctx.deployments ctx.migration_hash d e n k)

-- The check makes no call but the event that a migration runs.
abbrev pub EventOnly : Call → Type 0
EventOnly c = (reason : String) × (c ≡ event reason)

check_migrations-trace :
    (env : Env) (ctx : Context) (t : Trace) (c : Call)
    → In c (check_migrations env ctx t).trace
    → In c t ⊎ EventOnly c
unfolding check_migrations route_job
check_migrations-trace env ctx t c =
    go (ctx.config.skip_migrations || ctx.config.datastore_engine == "memory")
      (version_needs_no_migration ctx.cluster.status.current_version)
      (has_deployment env ctx.deployments ctx.migration_hash)
      (find_job env ctx.jobs ctx.migration_hash)
  where
    last :
        (found : Bool) (job : Option Job)
        → In c (route_job found job ctx t).trace
        → In c t ⊎ EventOnly c
    last true job m = inl m
    last false none (at_head e) = inr ("RunningMigrations", e)
    last false none (at_tail m) = inl m
    last false (some j) m = inl m

    go :
        (a b found : Bool) (job : Option Job)
        → In c
            (if a
              then finish
                  (hand_on deployment_chain
                    (with_job ctx (find_job env ctx.jobs ctx.migration_hash)))
                  t
              else if b
              then finish
                  (hand_on deployment_chain
                    (with_job ctx (find_job env ctx.jobs ctx.migration_hash)))
                  t
              else route_job found job ctx t).trace
        → In c t ⊎ EventOnly c
    go true b found job m = inl m
    go false true found job m = inl m
    go false false found job m = last found job m

-- The check sends a cluster on in one of three ways, each with its condition: to the deployment
-- when there is nothing to migrate or a deployment carries the hash of the target migration; to a
-- new migration job when there is something to migrate and neither a deployment nor a job carries
-- the hash; and to wait for a job that carries it when no deployment does.
pub check_migrations-Route :
    (env : Env) (ctx : Context) (t : Trace) → Route ctx (check_migrations env ctx t).outcome
unfolding check_migrations
check_migrations-Route env ctx t =
    go (ctx.config.skip_migrations || ctx.config.datastore_engine == "memory")
      (version_needs_no_migration ctx.cluster.status.current_version) refl refl
  where
    job : Option Job
    job = find_job env ctx.jobs ctx.migration_hash

    go :
        (a b : Bool)
        → (ctx.config.skip_migrations || ctx.config.datastore_engine == "memory") ≡ a
        → version_needs_no_migration ctx.cluster.status.current_version ≡ b
        → Route ctx
            (if a
              then finish (hand_on deployment_chain (with_job ctx job)) t
              else if b
              then finish (hand_on deployment_chain (with_job ctx job)) t
              else route_job
                  (has_deployment env ctx.deployments ctx.migration_hash)
                  job
                  ctx
                  t).outcome
    go true b x y = to_deployment job (inl ((NoMigrations-iff ctx).0 (ground arith)))
    go false true x y = to_deployment job (inl ((NoMigrations-iff ctx).0 (ground arith)))
    go false false x y =
        route_job-Route env ctx t (λ n. let test = (NoMigrations-iff ctx).1 n in ground arith)

pub check_migrations-Meets :
    (env : Env) (ctx : Context) (t : Trace)
    → Meets EventOnly (Route ctx) t (check_migrations env ctx t)
check_migrations-Meets env ctx t = record {
  adds = check_migrations-trace env ctx t;
  ends = check_migrations-Route env ctx t;
}
