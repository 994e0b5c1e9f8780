-- ===== src/Controller/Spec/Valid.antt =====
-- Which specs `ValidateSpecHandler` (pkg/controller/validate_spec.go) lets through.
use spicedb_operator.Base.{
  All, Bool, Bool-cases, List, Option, String, [], arith, eq_iff, eq_or_ne, false, if◌then◌else◌,
  inl, inr, none, refl, some, true, ◌==◌, ◌∷◌, ◌≡◌, ◌≢◌, ◌⊎◌,
}
use spicedb_operator.Api.Condition.{
  new_invalid_config_condition, type_validating, validating_failed,
}
use spicedb_operator.Api.Cluster.{
  Cluster, CredentialRef, ClusterCredentials, ClusterSpec, find_status_condition,
  set_status_condition, remove_status_condition,
}
use spicedb_operator.Controller.Types.{
  Context, Call, Outcome, Trace, Run, Server, Env, perform, finish, record_event, hand_on,
  next_handler, done, requeue_api_err, patch_status, event,
}
use spicedb_operator.Controller.Spec.{
  is_reported, invalid_cluster, reject, lacks_name, first_invalid, spec_error, on_error,
  validate_spec,
}
use spicedb_operator.Controller.Traces.{Meets, finish-Meets, perform-Meets, record_event-Meets}

-- A reference that is not skipped names its secret.
abbrev pub ValidRef : Option CredentialRef → Type 0
ValidRef none = Unit
ValidRef (some ref) = (ref.skip ≡ true) ⊎ (ref.secret_name ≢ "")

-- A secret and credentials exclude each other, and the references of the credentials are valid.
abbrev pub ValidCredentials : Option ClusterCredentials → String → Type 0
ValidCredentials none secret_ref = Unit
ValidCredentials (some creds) secret_ref =
    (secret_ref ≡ "")
    × ValidRef creds.datastore_uri
    × ValidRef creds.preshared_key
    × ValidRef creds.migration_secrets

unfoldable pub ValidSpec : ClusterSpec → Type 0
ValidSpec spec = ValidCredentials spec.credentials spec.secret_ref

-- The calls about a spec that is not valid: a status with the failed condition, and an event.
pub data SpecCall (env : Env) (ctx : Context) : Call → Type 0 where
  writes :
      (c : Cluster) (message : String)
      → ¬ ValidSpec ctx.cluster.spec
      → find_status_condition env.conditions c validating_failed
        ≡ some (new_invalid_config_condition "" message)
      → c.status.observed_generation ≡ ctx.cluster.generation
      → SpecCall env ctx (patch_status c)
  reports : ¬ ValidSpec ctx.cluster.spec → SpecCall env ctx (event "InvalidSpiceDBSpec")

-- Only a valid spec goes on, with the context as it is; all else stops here.
pub data SpecEnd (ctx : Context) : Outcome → Type 0 where
  goes_on : ValidSpec ctx.cluster.spec → SpecEnd ctx (hand_on next_handler ctx)
  rejected : ¬ ValidSpec ctx.cluster.spec → SpecEnd ctx done
  failed : (e : String) → ¬ ValidSpec ctx.cluster.spec → SpecEnd ctx (requeue_api_err e)

lacks_name-eq-true : (ref : Option CredentialRef) → lacks_name ref ≡ true → ¬ ValidRef ref
unfolding lacks_name
lacks_name-eq-true none h = cc
lacks_name-eq-true (some ref) h = ground (arith, eq_iff ref.secret_name "")

lacks_name-eq-false : (ref : Option CredentialRef) → lacks_name ref ≡ false → ValidRef ref
unfolding lacks_name
lacks_name-eq-false none h = tt
lacks_name-eq-false (some ref) h = ground (arith, eq_iff ref.secret_name "")

first_invalid-eq-none :
    (fs : List (String × Option CredentialRef))
    → first_invalid fs ≡ none
    → All (λ f. ValidRef f.1) fs
unfolding first_invalid
first_invalid-eq-none [] h = tt
first_invalid-eq-none ((name, ref) ∷ fs) h = elim (Bool-cases (lacks_name ref)) [
  | inl bad ↦ ground arith
  | inr good ↦ (lacks_name-eq-false ref good, first_invalid-eq-none fs (ground arith))
]

first_invalid-eq-some :
    (fs : List (String × Option CredentialRef)) {message : String}
    → first_invalid fs ≡ some message
    → ¬ All (λ f. ValidRef f.1) fs
unfolding first_invalid
first_invalid-eq-some [] {message} h = cc
first_invalid-eq-some ((name, ref) ∷ fs) {message} h = elim (Bool-cases (lacks_name ref)) [
  | inl bad ↦ λ a. lacks_name-eq-true ref bad a.0
  | inr good ↦ λ a. first_invalid-eq-some fs {message = message} (ground arith) a.1
]

spec_error-eq-none :
    (creds : Option ClusterCredentials) (secret_ref : String)
    → spec_error creds (secret_ref == "") ≡ none
    → ValidCredentials creds secret_ref
unfolding spec_error
spec_error-eq-none none s h = tt
spec_error-eq-none (some c) s h = elim (eq_or_ne s "") [
  | inl e ↦
      let passed = rw ((eq_iff s "").1 e) at h in
      let (a, (b, (d, u))) =
        first_invalid-eq-none
          (("credentials.datastoreURI", c.datastore_uri)
            ∷ ("credentials.presharedKey", c.preshared_key)
            ∷ ("credentials.migrationSecrets", c.migration_secrets)
            ∷ [])
          (ground arith) in
      (e, a, b, d)
  | inr other ↦ ground arith
]

spec_error-eq-some :
    (creds : Option ClusterCredentials) (secret_ref : String) {message : String}
    → spec_error creds (secret_ref == "") ≡ some message
    → ¬ ValidCredentials creds secret_ref
unfolding spec_error
spec_error-eq-some none s {message} h = cc
spec_error-eq-some (some c) s {message} h = λ (e, a, b, d).
    let same : (s == "") ≡ true = (eq_iff s "").1 e in
    first_invalid-eq-some
      (("credentials.datastoreURI", c.datastore_uri)
        ∷ ("credentials.presharedKey", c.preshared_key)
        ∷ ("credentials.migrationSecrets", c.migration_secrets)
        ∷ [])
      {message = message} (ground arith) (a, (b, (d, tt)))

invalid_cluster-find :
    (env : Env) (c : Cluster) (message : String)
    → find_status_condition env.conditions (invalid_cluster env c message) validating_failed
      ≡ some (new_invalid_config_condition "" message)
unfolding invalid_cluster find_status_condition set_status_condition remove_status_condition
invalid_cluster-find env c message =
    env.conditions.find-set_self (env.conditions.remove c.status.conditions type_validating)
      (new_invalid_config_condition "" message)

invalid_cluster-generation :
    (env : Env) (c : Cluster) (message : String)
    → (invalid_cluster env c message).status.observed_generation ≡ c.generation
unfolding invalid_cluster set_status_condition remove_status_condition
invalid_cluster-generation env c message = refl

reject-Meets :
    (env : Env) (server : Server) (ctx : Context) (message : String) (t : Trace)
    → ¬ ValidSpec ctx.cluster.spec
    → Meets (SpecCall env ctx) (SpecEnd ctx) t (reject env server ctx message t)
unfolding reject
reject-Meets env server ctx message t bad = go (
    is_reported (find_status_condition env.conditions ctx.cluster validating_failed)
      (new_invalid_config_condition "" message).message)
  where
    marked : Cluster
    marked = invalid_cluster env ctx.cluster message

    report : Trace → Run
    report = record_event "InvalidSpiceDBSpec" (finish done)

    go :
        (b : Bool)
        → Meets (SpecCall env ctx) (SpecEnd ctx) t (
            (if b then finish done else perform server (patch_status marked) requeue_api_err report)
              t)
    go true = finish-Meets done t (rejected bad)
    go false =
        perform-Meets server (patch_status marked) requeue_api_err report t
          (writes marked message bad (invalid_cluster-find env ctx.cluster message)
            (invalid_cluster-generation env ctx.cluster message))
          (λ e. failed e bad)
          (λ u.
            record_event-Meets "InvalidSpiceDBSpec" (finish done) u (reports bad)
              (λ v. finish-Meets done v (rejected bad)))

on_error-Meets :
    (env : Env) (server : Server) (ctx : Context) (e : Option String) (t : Trace)
    → spec_error ctx.cluster.spec.credentials (ctx.cluster.spec.secret_ref == "") ≡ e
    → Meets (SpecCall env ctx) (SpecEnd ctx) t (on_error env server ctx e t)
unfolding on_error ValidSpec
on_error-Meets env server ctx none t e =
    finish-Meets (hand_on next_handler ctx) t
      (goes_on (spec_error-eq-none ctx.cluster.spec.credentials ctx.cluster.spec.secret_ref e))
on_error-Meets env server ctx (some message) t e = reject-Meets env server ctx message t (
    spec_error-eq-some ctx.cluster.spec.credentials ctx.cluster.spec.secret_ref {message = message}
      e)

-- Whatever the API server answers, a spec goes on exactly when it is valid, with no call made and
-- the context as it was; for one that is not valid, the handler stops, and a status that it writes
-- has the failed condition and the generation of the cluster.
pub validate_spec-Meets :
    (env : Env) (server : Server) (ctx : Context) (t : Trace)
    → Meets (SpecCall env ctx) (SpecEnd ctx) t (validate_spec env server ctx t)
unfolding validate_spec
validate_spec-Meets env server ctx t =
    on_error-Meets env server ctx
      (spec_error ctx.cluster.spec.credentials (ctx.cluster.spec.secret_ref == "")) t refl
