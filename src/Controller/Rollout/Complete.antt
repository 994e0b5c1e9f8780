-- ===== src/Controller/Rollout/Complete.antt =====
-- When `DeploymentHandler` (pkg/controller/ensure_deployment.go) lets a reconciliation go on, and
-- which deployments it touches.
use spicedb_operator.Base.{
  Bool, In, List, Option, String, [], arith, at_head, at_tail, false, if◌then◌else◌, inl, inr, none,
  refl, some, true, ℕ, ◌↔◌, ◌∷◌, ◌≡◌, ◌≢◌, ◌⊎◌,
}
use spicedb_operator.Base.Map.{Map}
use spicedb_operator.Controller.Types.{Deployment, Env}
use spicedb_operator.Controller.Objects.{annotation, config_key, when_nil}
use spicedb_operator.Controller.Rollout.{
  deployment_rollout_complete, matching_deployments, extra_deployments,
}

-- Every replica that is wanted is updated and available, none is left of an older revision, and the
-- latest generation has been observed.
unfoldable pub RolledOut : Deployment → ℕ → Type 0
RolledOut d desired =
    (d.observed_generation ≡ d.generation)
    × (d.updated_replicas ≡ desired)
    × (d.status_replicas ≡ desired)
    × (d.available_replicas ≡ desired)

pub deployment_rollout_complete_iff :
    (d : Deployment) (desired : ℕ)
    → (deployment_rollout_complete d desired ≡ true) ↔ RolledOut d desired
unfolding deployment_rollout_complete RolledOut
deployment_rollout_complete_iff d desired = ground arith

-- The hash of the configuration that a deployment carries, the empty text without annotations.
abbrev pub hash_of : Deployment → String
hash_of d = annotation d.annotations config_key

pub In-matching_deployments :
    (env : Env) (d : Deployment) (ds : List Deployment) (hash : String)
    → In d (matching_deployments env ds hash)
    → In d ds × (hash_of d ≡ hash)
unfolding matching_deployments
In-matching_deployments env d [] hash m = elim m [ ]
In-matching_deployments env d (e ∷ ds) hash m =
    go (env.hash_equal (hash_of e) hash) refl (In-matching_deployments env d ds hash) m
  where
    go :
        (b : Bool)
        → env.hash_equal (hash_of e) hash ≡ b
        → (In d (matching_deployments env ds hash) → In d ds × (hash_of d ≡ hash))
        → In d
            (if b then e ∷ matching_deployments env ds hash else matching_deployments env ds hash)
        → In d (e ∷ ds) × (hash_of d ≡ hash)
    go true q rec (at_head same) =
        (at_head same, let h = (env.hash_equal_iff (hash_of e) hash).0 q in rw same h)
    go true q rec (at_tail n) = let (there, h) = rec n in (at_tail there, h)
    go false q rec n = let (there, h) = rec n in (at_tail there, h)

pub matching_deployments-eq-nil :
    (env : Env) (d : Deployment) (ds : List Deployment) (hash : String)
    → matching_deployments env ds hash ≡ []
    → In d ds
    → hash_of d ≢ hash
unfolding matching_deployments
matching_deployments-eq-nil env d [] hash q m = elim m [ ]
matching_deployments-eq-nil env d (e ∷ ds) hash q (at_head same) = λ h.
    let hit : env.hash_equal (hash_of e) hash ≡ true =
      (env.hash_equal_iff (hash_of e) hash).1 (rw (← same) h) in
    ground arith
matching_deployments-eq-nil env d (e ∷ ds) hash q (at_tail m) =
    matching_deployments-eq-nil env d ds hash (ground arith) m

-- An extra deployment is in the cache, and it has no annotations or another hash.
abbrev pub IsExtra : List Deployment → String → Deployment → Type 0
IsExtra ds hash d = In d ds × ((d.annotations ≡ none) ⊎ (hash_of d ≢ hash))

pub In-extra_deployments :
    (env : Env) (d : Deployment) (ds : List Deployment) (hash : String)
    → In d (extra_deployments env ds hash)
    → IsExtra ds hash d
unfolding extra_deployments when_nil
In-extra_deployments env d [] hash m = elim m [ ]
In-extra_deployments env d (e ∷ ds) hash m =
    outer e.annotations refl
      (inner (env.hash_equal (hash_of e) hash) refl (In-extra_deployments env d ds hash)) m
  where
    rest : List Deployment
    rest = extra_deployments env ds hash

    inner :
        (b : Bool)
        → env.hash_equal (hash_of e) hash ≡ b
        → (In d rest → IsExtra ds hash d)
        → In d (if b then rest else e ∷ rest)
        → IsExtra (e ∷ ds) hash d
    inner true q rec n = let (there, h) = rec n in (at_tail there, h)
    inner false q rec (at_head same) = (
      at_head same,
      inr (λ h.
          let hit : env.hash_equal (hash_of e) hash ≡ true =
            (env.hash_equal_iff (hash_of e) hash).1 (rw (← same) h) in
          ground arith),
    )
    inner false q rec (at_tail n) = let (there, h) = rec n in (at_tail there, h)

    outer :
        (a : Option (Map String))
        → e.annotations ≡ a
        → (In d (if env.hash_equal (hash_of e) hash then rest else e ∷ rest)
            → IsExtra (e ∷ ds) hash d)
        → In d (when_nil e a (if env.hash_equal (hash_of e) hash then rest else e ∷ rest))
        → IsExtra (e ∷ ds) hash d
    outer none q rec (at_head same) = (at_head same, inl (rw same q))
    outer none q rec (at_tail n) = rec n
    outer (some a) q rec n = rec n
