-- ===== src/Controller/Credentials.antt =====
-- The secrets that a cluster refers to (pkg/controller/controller.go, pkg/metadata/keys.go).
pub mod Names
use spicedb_operator.Base.{
  Bool, List, Option, String, [], false, if◌then◌else◌, none, not, some, true, ◌&&◌, ◌==◌, ◌∷◌,
}
use spicedb_operator.Api.Cluster.{CredentialRef, ClusterCredentials, ClusterSpec}
use spicedb_operator.Controller.Migrations.{contains}

abbrev pub credential_type_datastore_uri : String
credential_type_datastore_uri = "datastore-uri"

abbrev pub credential_type_preshared_key : String
credential_type_preshared_key = "preshared-key"

abbrev pub credential_type_migration_secrets : String
credential_type_migration_secrets = "migration-secrets"

-- `ref != nil && !ref.Skip && ref.SecretName != ""`
unfoldable pub is_needed : Option CredentialRef → Bool
is_needed none = false
is_needed (some ref) = not ref.skip && not (ref.secret_name == "")

unfoldable pub name_of : Option CredentialRef → String
name_of none = ""
name_of (some ref) = ref.secret_name

-- The loop of `credentialSecretNames`, with the names seen so far.
unfoldable pub collect_names : List String → List (Option CredentialRef) → List String
collect_names seen [] = []
collect_names seen (ref ∷ refs) =
    let skipped = collect_names seen refs in
    let taken = collect_names (name_of ref ∷ seen) refs in
    if is_needed ref
    then (if contains seen (name_of ref) then skipped else name_of ref ∷ taken)
    else skipped

-- The cases of `credentialSecretNames`; the test says that `SecretRef` is empty.
unfoldable pub names_with : Option ClusterCredentials → Bool → ClusterSpec → List String
names_with none true spec = []
names_with none false spec = spec.secret_ref ∷ []
names_with (some creds) b spec =
    collect_names [] (creds.datastore_uri ∷ creds.preshared_key ∷ creds.migration_secrets ∷ [])

-- `credentialSecretNames`
unfoldable pub credential_secret_names : ClusterSpec → List String
credential_secret_names spec = names_with spec.credentials (spec.secret_ref == "") spec

-- `credentialSecret`
pub record CredentialSecret : Type 0 where
  pub name : String
  pub cred_type : String

-- The loop of `credentialSecretsForCluster`.
unfoldable pub collect_secrets : List (Option CredentialRef × String) → List CredentialSecret
collect_secrets [] = []
collect_secrets ((ref, cred_type) ∷ rs) =
    let rest = collect_secrets rs in
    if is_needed ref then record { name = name_of ref; cred_type = cred_type } ∷ rest else rest

-- The cases of `credentialSecretsForCluster`.
unfoldable pub secrets_with : Option ClusterCredentials → Bool → ClusterSpec → List CredentialSecret
secrets_with none true spec = []
secrets_with none false spec = record { name = spec.secret_ref; cred_type = "" } ∷ []
secrets_with (some creds) b spec = collect_secrets (
    (creds.datastore_uri, credential_type_datastore_uri)
    ∷ (creds.preshared_key, credential_type_preshared_key)
    ∷ (creds.migration_secrets, credential_type_migration_secrets)
    ∷ [])

-- `credentialSecretsForCluster`
unfoldable pub credential_secrets_for_cluster : ClusterSpec → List CredentialSecret
credential_secrets_for_cluster spec = secrets_with spec.credentials (spec.secret_ref == "") spec
