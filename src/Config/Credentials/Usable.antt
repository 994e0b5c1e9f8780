-- ===== src/Config/Credentials/Usable.antt =====
-- Which credentials of a cluster `NewConfig` accepts (pkg/config/config.go), told from the secrets
-- alone.
use spicedb_operator.Base.{
  Bool, Option, String, [], append-eq-nil, append-nil-nil, eq_or_ne, false, if◌then◌else◌, inl, inr,
  ne_of_test, none, not, refl, some, subst, true, ◌==◌, ◌↔◌, ◌≡◌, ◌≢◌, ◌⊎◌,
}
use spicedb_operator.Api.Cluster.{ClusterCredentials, ClusterSpec, CredentialRef}
use spicedb_operator.Config.Credentials.{
  Resolved, Secrets, chosen_credentials, key_or, promoted, resolve_chosen, resolve_credentials,
  resolve_datastore_uri, resolve_preshared_key, resolve_set, skip_ref,
}
use spicedb_operator.Config.Credentials.Reads.{Holds, KeyOf, set_iff}

-- The credential is given, and it is skipped, or its secret has its key.
abbrev pub Usable : Secrets → String → Option CredentialRef → Type 0
Usable secrets default none = ⊥
Usable secrets default (some c) =
    (c.skip ≡ true)
    ⊎ ((key : String) × (value : String) × KeyOf default c.key key
        × Holds secrets c.secret_name key value)

-- The memory engine reads no datastore URI, which has to be given all the same.
abbrev pub UsableUri : String → Secrets → Option CredentialRef → Type 0
UsableUri engine secrets none = ⊥
UsableUri engine secrets (some c) = (engine ≡ "memory") ⊎ Usable secrets "datastore_uri" (some c)

-- The datastore URI and the preshared key that the cluster names can be used; or it names none, but
-- one secret, which has both under their default keys.
abbrev pub UsableFrom : String → Secrets → String → Option ClusterCredentials → Type 0
UsableFrom engine secrets secret_ref none =
    (secret_ref ≢ "")
    × ((engine ≡ "memory") ⊎ ((value : String) × Holds secrets secret_ref "datastore_uri" value))
    × ((value : String) × Holds secrets secret_ref "preshared_key" value)
UsableFrom engine secrets secret_ref (some c) =
    UsableUri engine secrets c.datastore_uri × Usable secrets "preshared_key" c.preshared_key

abbrev pub AllUsable : String → Secrets → ClusterSpec → Type 0
AllUsable engine secrets spec = UsableFrom engine secrets spec.secret_ref spec.credentials

-- A credential under a skip.
skip_iff :
    (b : Bool) (skipped set : Resolved) {P : Type 0}
    → skipped.errors ≡ []
    → ((set.errors ≡ []) ↔ P)
    → ((if b then skipped else set).errors ≡ []) ↔ ((b ≡ true) ⊎ P)
skip_iff true skipped set e h = (λ _. inl refl, λ _. e)
skip_iff false skipped set e h = (λ x. inr (h.0 x), elim [ inl x ↦ cc | inr p ↦ h.1 p ])

preshared_iff :
    (secrets : Secrets) (o : Option CredentialRef)
    → ((resolve_preshared_key secrets o).errors ≡ []) ↔ Usable secrets "preshared_key" o
unfolding resolve_preshared_key
preshared_iff secrets none = (λ h. cc, absurd)
preshared_iff secrets (some c) =
    skip_iff c.skip _ (resolve_set "presharedKey" "preshared_key" secrets c) refl
      (set_iff "presharedKey" "preshared_key" secrets c)

uri_iff :
    (engine : String) (secrets : Secrets) (o : Option CredentialRef)
    → ((resolve_datastore_uri engine secrets o).errors ≡ []) ↔ UsableUri engine secrets o
unfolding resolve_datastore_uri
uri_iff engine secrets none = (λ h. cc, absurd)
uri_iff engine secrets (some c) = elim (eq_or_ne engine "memory") [
  | inl e ↦ (λ _. inl e, λ _. memory c.skip (engine == "memory") (rw e refl))
  | inr other ↦
      let given =
        skip_iff c.skip _ (resolve_set "datastoreURI" "datastore_uri" secrets c) refl
          (set_iff "datastoreURI" "datastore_uri" secrets c) in
      rw other (
        λ h. inr (given.0 h),
        elim [ inl e ↦ absurd (ne_of_test engine "memory" other e) | inr u ↦ given.1 u ],
      )
]
  where
    memory :
        (b m : Bool)
        → m ≡ true
        → (if b
            then record { ref = skip_ref; value = ""; errors = [] }
            else if not m
            then resolve_set "datastoreURI" "datastore_uri" secrets c
            else record {
              ref = record {
                secret_name = c.secret_name;
                key = key_or "datastore_uri" c.key;
                skip = false;
              };
              value = "";
              errors = [];
            }).errors
          ≡ []
    memory true m h = refl
    memory false true h = refl
    memory false false h = cc

module _ (engine : String) (secrets : Secrets) where
  given_iff :
      (secret_ref : String) (c : ClusterCredentials)
      → ((resolve_chosen engine secrets (some c)).errors ≡ [])
        ↔ UsableFrom engine secrets secret_ref (some c)
  unfolding resolve_chosen
  given_iff secret_ref c = (
    λ h.
        let (u, k) = append-eq-nil _ _ h in
        ((uri_iff engine secrets c.datastore_uri).0 u, (preshared_iff secrets c.preshared_key).0 k),
    λ (u, k).
        append-nil-nil _ _ ((uri_iff engine secrets c.datastore_uri).1 u)
          ((preshared_iff secrets c.preshared_key).1 k),
  )

  -- A credential of the cluster's one secret, under its default key.
  shared_iff :
      (secret_ref key : String)
      → key ≢ ""
      → Usable secrets key (some (record { secret_name = secret_ref; key = key; skip = false }))
        ↔ ((value : String) × Holds secrets secret_ref key value)
  shared_iff secret_ref key named = (
    elim [
      | inl skipped ↦ cc
      | inr (k, value, of, h) ↦ (
        value,
        subst (λ x. Holds secrets secret_ref x value)
            (elim of [ inl (e, _) ↦ absurd (named e) | inr (_, e) ↦ e ]) h,
      )
    ],
    λ (value, h). inr (key, value, inr (named, refl), h),
  )

  promoted_iff :
      (secret_ref : String)
      → ((resolve_chosen engine secrets (promoted secret_ref)).errors ≡ [])
        ↔ UsableFrom engine secrets secret_ref none
  unfolding promoted resolve_chosen
  promoted_iff secret_ref = elim (eq_or_ne secret_ref "") [
    | inl e ↦ (λ h. cc (rw e at h), λ (named, _, _). absurd (named e))
    | inr other ↦
        let given = given_iff secret_ref (shared secret_ref) in
        let uri = shared_iff secret_ref "datastore_uri" (λ e. cc) in
        let key = shared_iff secret_ref "preshared_key" (λ e. cc) in
        rw (promoted, other)
          (
            λ h.
                let (u, k) = given.0 h in
                (
                  ne_of_test secret_ref "" other,
                  elim u [ inl e ↦ inl e | inr v ↦ inr (uri.0 v) ],
                  key.0 k,
                ),
            λ (_, u, k). given.1 (elim u [ inl e ↦ inl e | inr v ↦ inr (uri.1 v) ], key.1 k),
          )
  ]
    where
      shared : String → ClusterCredentials
      shared name = record {
        datastore_uri = some (record { secret_name = name; key = "datastore_uri"; skip = false });
        preshared_key = some (record { secret_name = name; key = "preshared_key"; skip = false });
        migration_secrets = none;
      }

  -- The datastore URI and the preshared key give no error exactly if they can be used. Where the
  -- cluster names its credentials, each of the two is given, and is skipped or has its key, or the
  -- default one, in its secret; otherwise the cluster names one secret, which has both under their
  -- default keys. The memory engine reads no datastore URI. Migration secrets are not checked.
  pub resolve_credentials_iff :
      (spec : ClusterSpec)
      → ((resolve_credentials engine secrets spec).errors ≡ []) ↔ AllUsable engine secrets spec
  unfolding resolve_credentials chosen_credentials
  resolve_credentials_iff spec = go spec.credentials
    where
      go :
          (o : Option ClusterCredentials)
          → ((resolve_chosen engine secrets
                (elim o [ none ↦ promoted spec.secret_ref | some c ↦ some c ])).errors
              ≡ [])
            ↔ UsableFrom engine secrets spec.secret_ref o
      go none = promoted_iff spec.secret_ref
      go (some c) = given_iff spec.secret_ref c
