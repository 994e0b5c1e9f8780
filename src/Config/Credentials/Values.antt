-- ===== src/Config/Credentials/Values.antt =====
-- The values that the resolved credentials carry (pkg/config/config.go).
use spicedb_operator.Base.{
  Bool, Option, String, [], append-eq-nil, false, if◌then◌else◌, inl, inr, none, refl, some, true,
  ◌==◌, ◌≡◌, ◌⊎◌,
}
use spicedb_operator.Api.Cluster.{ClusterCredentials, ClusterSpec, CredentialRef}
use spicedb_operator.Config.Credentials.{
  Resolved, Secrets, chosen_credentials, resolve_chosen, resolve_credentials, resolve_datastore_uri,
  resolve_preshared_key, resolve_set, skip_ref,
}
use spicedb_operator.Config.Credentials.Reads.{IsRead, resolve_set-IsRead}

-- A skipped credential, or the one of the test.
skip-IsRead :
    (b : Bool) (secrets : Secrets) (set : Resolved)
    → (set.errors ≡ [] → IsRead secrets set)
    → (if b then record { ref = skip_ref; value = ""; errors = [] } else set).errors ≡ []
    → ((if b then record { ref = skip_ref; value = ""; errors = [] } else set).ref.skip ≡ true)
      ⊎ IsRead secrets (if b then record { ref = skip_ref; value = ""; errors = [] } else set)
skip-IsRead true secrets set h e = inl refl
skip-IsRead false secrets set h e = inr (h e)

pub preshared_key-IsRead :
    (secrets : Secrets) (o : Option CredentialRef)
    → (resolve_preshared_key secrets o).errors ≡ []
    → ((resolve_preshared_key secrets o).ref.skip ≡ true)
      ⊎ IsRead secrets (resolve_preshared_key secrets o)
unfolding resolve_preshared_key
preshared_key-IsRead secrets none h = cc
preshared_key-IsRead secrets (some c) h =
    skip-IsRead c.skip secrets (resolve_set "presharedKey" "preshared_key" secrets c)
      (λ e. (resolve_set-IsRead "presharedKey" "preshared_key" secrets c e).0) h

pub datastore_uri-IsRead :
    (engine : String) (secrets : Secrets) (o : Option CredentialRef)
    → (engine == "memory") ≡ false
    → (resolve_datastore_uri engine secrets o).errors ≡ []
    → ((resolve_datastore_uri engine secrets o).ref.skip ≡ true)
      ⊎ IsRead secrets (resolve_datastore_uri engine secrets o)
unfolding resolve_datastore_uri
datastore_uri-IsRead engine secrets none other = λ h. cc
datastore_uri-IsRead engine secrets (some c) other = rw other (
    skip-IsRead c.skip secrets (resolve_set "datastoreURI" "datastore_uri" secrets c)
      (λ e. (resolve_set-IsRead "datastoreURI" "datastore_uri" secrets c e).0))

-- Both, where the credentials give no error.
pub resolve_credentials-IsRead :
    (engine : String) (secrets : Secrets) (spec : ClusterSpec)
    → (resolve_credentials engine secrets spec).errors ≡ []
    → ((engine == "memory") ≡ false
        → ((resolve_credentials engine secrets spec).datastore_uri.ref.skip ≡ true)
          ⊎ IsRead secrets (resolve_credentials engine secrets spec).datastore_uri)
      × (((resolve_credentials engine secrets spec).preshared_key.ref.skip ≡ true)
          ⊎ IsRead secrets (resolve_credentials engine secrets spec).preshared_key)
unfolding resolve_credentials resolve_chosen
resolve_credentials-IsRead engine secrets spec = go (chosen_credentials spec)
  where
    go :
        (o : Option ClusterCredentials)
        → (resolve_chosen engine secrets o).errors ≡ []
        → ((engine == "memory") ≡ false
            → ((resolve_chosen engine secrets o).datastore_uri.ref.skip ≡ true)
              ⊎ IsRead secrets (resolve_chosen engine secrets o).datastore_uri)
          × (((resolve_chosen engine secrets o).preshared_key.ref.skip ≡ true)
              ⊎ IsRead secrets (resolve_chosen engine secrets o).preshared_key)
    go none h = cc
    go (some c) h =
        let (u, k) = append-eq-nil _ _ h in
        (
          λ other. datastore_uri-IsRead engine secrets c.datastore_uri other u,
          preshared_key-IsRead secrets c.preshared_key k,
        )
