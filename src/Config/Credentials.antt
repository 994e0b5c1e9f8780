-- ===== src/Config/Credentials.antt =====
-- The credentials of a cluster (`NewConfig` in pkg/config/config.go): which secret and which key
-- each is read from, and what the secret holds there.
pub mod Reads
pub mod Usable
pub mod Values
pub mod Fetched
use spicedb_operator.Base.{
  List, Option, String, [], false, if◌then◌else◌, none, not, some, true, ◌++◌, ◌==◌, ◌∷◌,
}
use spicedb_operator.Base.Map.{Map, lookup}
use spicedb_operator.Api.Cluster.{ClusterCredentials, ClusterSpec, CredentialRef}
use spicedb_operator.Config.Types.{
  ConfigError, ResolvedCredentialRef, credential_missing, credentials_required, empty_ref,
  secret_lacks, secret_missing,
}

-- The data of the secrets by name; a nil secret is a missing one.
abbrev pub Secrets : Type 0
Secrets = Map (Map String)

-- `ResolvedCredentialRef{Skip: true}`
abbrev pub skip_ref : ResolvedCredentialRef
skip_ref = record empty_ref { skip = true }

-- `if key == "" { key = … }`
unfoldable pub key_or : String → String → String
key_or default key = if key == "" then default else key

-- A credential that was looked at: its reference, its value, and the errors.
pub record Resolved : Type 0 where
  pub ref : ResolvedCredentialRef
  pub value : String
  pub errors : List ConfigError

-- The value under the key.
unfoldable pub read_field : Map String → ResolvedCredentialRef → Resolved
read_field fields ref = elim (lookup ref.key fields) [
  | none ↦ record { ref = ref; value = ""; errors = secret_lacks ref.key ∷ [] }
  | some v ↦ record { ref = ref; value = v; errors = [] }
]

-- The name is that of the credential.
unfoldable pub read_secret : String → Option (Map String) → ResolvedCredentialRef → Resolved
read_secret name none ref = record { ref = ref; value = ""; errors = secret_missing name ∷ [] }
read_secret name (some fields) ref = read_field fields ref

-- A credential that is not skipped.
unfoldable pub resolve_set : String → String → Secrets → CredentialRef → Resolved
resolve_set name default_key secrets c =
    read_secret name (lookup c.secret_name secrets)
      (record { secret_name = c.secret_name; key = key_or default_key c.key; skip = false })

-- The datastore URI is not read for the memory engine.
unfoldable pub resolve_datastore_uri : String → Secrets → Option CredentialRef → Resolved
resolve_datastore_uri engine secrets none = record {
  ref = empty_ref;
  value = "";
  errors = credential_missing "datastoreURI" ∷ [];
}
resolve_datastore_uri engine secrets (some c) =
    if c.skip
    then record { ref = skip_ref; value = ""; errors = [] }
    else if not (engine == "memory")
    then resolve_set "datastoreURI" "datastore_uri" secrets c
    else record {
      ref = record {
        secret_name = c.secret_name;
        key = key_or "datastore_uri" c.key;
        skip = false;
      };
      value = "";
      errors = [];
    }

unfoldable pub resolve_preshared_key : Secrets → Option CredentialRef → Resolved
resolve_preshared_key secrets none = record {
  ref = empty_ref;
  value = "";
  errors = credential_missing "presharedKey" ∷ [];
}
resolve_preshared_key secrets (some c) =
    if c.skip
    then record { ref = skip_ref; value = ""; errors = [] }
    else resolve_set "presharedKey" "preshared_key" secrets c

-- Without a credential of its own, the migration reads the secret of the datastore URI.
unfoldable pub resolve_migration_secrets :
    ResolvedCredentialRef → Option CredentialRef → ResolvedCredentialRef
resolve_migration_secrets uri none =
    if uri.skip
    then skip_ref
    else record { secret_name = uri.secret_name; key = "migration_secrets"; skip = false }
resolve_migration_secrets uri (some c) = if c.skip then skip_ref else record {
  secret_name = c.secret_name;
  key = key_or "migration_secrets" c.key;
  skip = false;
}

-- `Credentials` if set, otherwise the secret that `SecretRef` names.
unfoldable pub promoted : String → Option ClusterCredentials
promoted secret_ref =
    let ref : String → CredentialRef =
      λ key. record { secret_name = secret_ref; key = key; skip = false } in
    if secret_ref == ""
    then none
    else some (record {
      datastore_uri = some (ref "datastore_uri");
      preshared_key = some (ref "preshared_key");
      migration_secrets = none;
    })

unfoldable pub chosen_credentials : ClusterSpec → Option ClusterCredentials
chosen_credentials spec = elim spec.credentials [
  | none ↦ promoted spec.secret_ref
  | some c ↦ some c
]

-- The three references, the two values, and the errors.
pub record Credentials : Type 0 where
  pub datastore_uri : Resolved
  pub preshared_key : Resolved
  pub migration_secrets_ref : ResolvedCredentialRef
  pub errors : List ConfigError

abbrev pub unresolved : Resolved
unresolved = record { ref = empty_ref; value = ""; errors = [] }

unfoldable pub resolve_chosen : String → Secrets → Option ClusterCredentials → Credentials
resolve_chosen engine secrets none = record {
  datastore_uri = unresolved;
  preshared_key = unresolved;
  migration_secrets_ref = empty_ref;
  errors = credentials_required ∷ [];
}
resolve_chosen engine secrets (some c) =
    let uri = resolve_datastore_uri engine secrets c.datastore_uri in
    let key = resolve_preshared_key secrets c.preshared_key in
    record {
      datastore_uri = uri;
      preshared_key = key;
      migration_secrets_ref = resolve_migration_secrets uri.ref c.migration_secrets;
      errors = uri.errors ++ key.errors;
    }

unfoldable pub resolve_credentials : String → Secrets → ClusterSpec → Credentials
resolve_credentials engine secrets spec = resolve_chosen engine secrets (chosen_credentials spec)
