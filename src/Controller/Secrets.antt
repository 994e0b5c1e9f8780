-- ===== src/Controller/Secrets.antt =====
-- `ConfigChangedHandler` (pkg/controller/config_change.go). The secrets are a map from their names to
-- their data, which has no entry where the cache has no secret. `slices.SortFunc` and
-- `hash.SecureObject` are parameters.
pub mod Changed
use spicedb_operator.Base.{
  Bool, List, Option, String, [], eqb, false, if◌then◌else◌, none, not, some, ◌==◌, ◌||◌, ◌∷◌,
}
use spicedb_operator.Base.Map.{Map, lookup, get_or}
use spicedb_operator.Api.Condition.{
  Condition, type_preconditions_failed, reason_missing_secret, new_validating_config_condition,
}
use spicedb_operator.Api.Cluster.{
  Cluster, CredentialRef, ClusterSpec, find_status_condition, set_status_condition,
  remove_status_condition,
}
use spicedb_operator.Controller.Types.{
  Context, Trace, Run, Server, Env, perform, finish, hand_on, next_handler, requeue_api_err,
  patch_status,
}

-- `credKey`
pub record CredKey : Type 0 where
  pub secret : String
  pub key : String

-- `hashEntry`
pub record HashEntry : Type 0 where
  pub secret : String
  pub key : String
  pub value : String

-- `if k == "" { k = <default> }`
unfoldable pub key_or : String → String → String
key_or k default = if k == "" then default else k

-- The entry of a reference that is there and not skipped, before the entries after it.
unfoldable pub add_key : Option CredentialRef → String → List CredKey → List CredKey
add_key none default rest = rest
add_key (some ref) default rest =
    if ref.skip
    then rest
    else record { secret = ref.secret_name; key = key_or ref.key default } ∷ rest

-- The entry that migration secrets inherit from the datastore, when they are not configured.
unfoldable pub inherited : Option CredentialRef → Option CredentialRef → List CredKey → List CredKey
inherited none migration rest = rest
inherited (some ref) (some m) rest = rest
inherited (some ref) none rest =
    if ref.skip then rest else record { secret = ref.secret_name; key = "migration_secrets" } ∷ rest

-- The first half of the handler: the keys that the configuration refers to.
unfoldable pub cred_keys : ClusterSpec → List CredKey
cred_keys spec = elim spec.credentials [
  | none ↦
      if spec.secret_ref == ""
      then []
      else record { secret = spec.secret_ref; key = "datastore_uri" }
        ∷ record { secret = spec.secret_ref; key = "migration_secrets" }
        ∷ record { secret = spec.secret_ref; key = "preshared_key" }
        ∷ []
  | some creds ↦ add_key creds.datastore_uri "datastore_uri" (
      inherited creds.datastore_uri creds.migration_secrets (
        add_key creds.preshared_key "preshared_key"
          (add_key creds.migration_secrets "migration_secrets" [])))
]

-- The values under the keys; a secret that is not in the cache is passed over.
unfoldable pub hash_data : Map (Map String) → List CredKey → List HashEntry
hash_data secrets [] = []
hash_data secrets (k ∷ ks) =
    let rest = hash_data secrets ks in
    elim (lookup k.secret secrets) [
      | none ↦ rest
      | some values ↦
          record { secret = k.secret; key = k.key; value = get_or "" k.key values } ∷ rest
    ]

-- `if len(hashData) > 0 { secretHash = hash.SecureObject(hashData) }`
unfoldable pub secret_hash_of : (List HashEntry → String) → List HashEntry → String
secret_hash_of secure_object [] = ""
secret_hash_of secure_object (e ∷ es) = secure_object (e ∷ es)

unfoldable pub is_missing_secret : Option Condition → Bool
is_missing_secret none = false
is_missing_secret (some c) = c.reason == reason_missing_secret

-- The test for a change.
unfoldable pub is_changed : Env → Cluster → String → Bool
is_changed env cluster hash =
    not (eqb cluster.generation cluster.status.observed_generation)
    || not (hash == cluster.status.secret_hash)
    || is_missing_secret (find_status_condition env.conditions cluster type_preconditions_failed)

-- The status that the handler writes.
unfoldable pub changed_cluster : Env → Cluster → String → Cluster
changed_cluster env cluster hash =
    let status = record (cluster.status) {
      observed_generation = cluster.generation;
      secret_hash = hash;
    } in
    set_status_condition env.conditions
      (remove_status_condition env.conditions (record cluster { status = status })
        type_preconditions_failed)
      (new_validating_config_condition hash)

-- `ConfigChangedHandler.Handle`. Where there is nothing to hash, the context gets no hash, which reads
-- as the empty text.
unfoldable pub config_changed :
    Env
    → Server
    → (List CredKey → List CredKey)
    → (List HashEntry → String)
    → Map (Map String)
    → Context
    → Trace
    → Run
config_changed env server sort secure_object secrets ctx =
    let hash =
      secret_hash_of secure_object (hash_data secrets (sort (cred_keys ctx.cluster.spec))) in
    let ctx2 = record ctx { secret_hash = hash } in
    if is_changed env ctx.cluster hash
    then perform server (patch_status (changed_cluster env ctx.cluster hash)) requeue_api_err (
        finish
          (hand_on next_handler (record ctx2 { cluster = changed_cluster env ctx.cluster hash })))
    else finish (hand_on next_handler ctx2)
