-- ===== src/Controller/Secrets/Changed.antt =====
-- What `ConfigChangedHandler` (pkg/controller/config_change.go) hands on.
use spicedb_operator.Base.{List, String, false, ◌≡◌}
use spicedb_operator.Base.Map.{Map}
use spicedb_operator.Api.Condition.{type_preconditions_failed}
use spicedb_operator.Api.Cluster.{Cluster, find_status_condition}
use spicedb_operator.Controller.Types.{
  Context, Call, Outcome, Env, hand_on, next_handler, requeue_api_err, patch_status,
}
use spicedb_operator.Controller.Secrets.{
  CredKey, HashEntry, cred_keys, hash_data, secret_hash_of, is_missing_secret,
}

-- The status of the cluster is of its generation and of the hash, and it misses no secret.
unfoldable pub UpToDate : Env → String → Cluster → Type 0
UpToDate env hash c =
    (c.status.observed_generation ≡ c.generation)
    × (c.status.secret_hash ≡ hash)
    × (is_missing_secret (find_status_condition env.conditions c type_preconditions_failed) ≡ false)

-- The handler writes the status only when that is not up to date.
pub data ChangeCall (env : Env) (ctx : Context) (hash : String) : Call → Type 0 where
  writes :
      (c : Cluster)
      → ¬ UpToDate env hash ctx.cluster
      → UpToDate env hash c
      → ChangeCall env ctx hash (patch_status c)

-- It goes on with an up-to-date cluster, the one of the context when that is up to date.
pub data ChangeEnd (env : Env) (ctx : Context) (hash : String) : Outcome → Type 0 where
  failed : (e : String) → ChangeEnd env ctx hash (requeue_api_err e)
  goes_on :
      (c : Cluster)
      → UpToDate env hash c
      → (UpToDate env hash ctx.cluster → c ≡ ctx.cluster)
      → ChangeEnd env ctx hash
          (hand_on next_handler (record ctx { secret_hash = hash; cluster = c }))

-- The hash of the values that the configuration of the cluster refers to.
abbrev pub wanted_hash :
    (List CredKey → List CredKey) → (List HashEntry → String) → Map (Map String) → Cluster → String
wanted_hash sort secure_object secrets c =
    secret_hash_of secure_object (hash_data secrets (sort (cred_keys c.spec)))
