-- ===== src/Config/Credentials/Fetched.antt =====
-- The secrets that `NewConfig` reads are those that the controller fetches for it
-- (pkg/config/config.go, pkg/controller/controller.go).
use spicedb_operator.Base.{
  Bool, Bool-cases, In, List, Option, Option-cases, String, [], ap, at_head, at_tail, eq_or_ne,
  false, if◌then◌else◌, inl, inr, none, refl, some, subst, subst₂, sym, true, ◌==◌, ◌∷◌, ◌≡◌, ◌⊎◌,
}
use spicedb_operator.Base.Map.{lookup}
use spicedb_operator.Api.Cluster.{ClusterCredentials, ClusterSpec, CredentialRef}
use spicedb_operator.Config.Credentials.{
  Secrets, chosen_credentials, key_or, promoted, read_secret, resolve_chosen, resolve_credentials,
  resolve_datastore_uri, resolve_preshared_key, resolve_set,
}
use spicedb_operator.Controller.Credentials.{
  collect_secrets, credential_secret_names, credential_secrets_for_cluster,
  credential_type_datastore_uri, credential_type_migration_secrets, credential_type_preshared_key,
  is_needed, name_of, names_with, secrets_with,
}
use spicedb_operator.Controller.Credentials.Names.{Names, credential_secret_names-Names}

-- The roles of the credentials, in the order of `credentialSecretsForCluster`.
abbrev roles : ClusterCredentials → List (Option CredentialRef × String)
roles c =
    (c.datastore_uri, credential_type_datastore_uri)
    ∷ (c.preshared_key, credential_type_preshared_key)
    ∷ (c.migration_secrets, credential_type_migration_secrets)
    ∷ []

collect_secrets-needed :
    (ref : Option CredentialRef) (ty : String) (rs : List (Option CredentialRef × String))
    → In (ref, ty) rs
    → is_needed ref ≡ true
    → Names (name_of ref) (collect_secrets rs)
unfolding collect_secrets
collect_secrets-needed ref ty [] i h = elim i [ ]
collect_secrets-needed ref ty ((other, kind) ∷ rs) (at_head e) h =
    let same : ref ≡ other = ap (λ p. p.0) e in
    let needed : is_needed other ≡ true = subst (λ r. is_needed r ≡ true) same h in
    rw needed (_, at_head refl, ap name_of (sym same))
collect_secrets-needed ref ty ((other, kind) ∷ rs) (at_tail i) h =
    go (is_needed other) (collect_secrets-needed ref ty rs i h)
  where
    go :
        (b : Bool)
        → Names (name_of ref) (collect_secrets rs)
        → Names (name_of ref) (
            if b
            then record { name = name_of other; cred_type = kind } ∷ collect_secrets rs
            else collect_secrets rs)
    go true (s, i, e) = (s, at_tail i, e)
    go false found = found

-- The name of a credential that is needed is fetched.
needed-In :
    (spec : ClusterSpec) (c : ClusterCredentials) (ref : Option CredentialRef) (ty : String)
    → spec.credentials ≡ some c
    → In (ref, ty) (roles c)
    → is_needed ref ≡ true
    → In (name_of ref) (credential_secret_names spec)
unfolding credential_secrets_for_cluster secrets_with
needed-In spec c ref ty e i h = ((credential_secret_names-Names spec).1 (name_of ref)).1 (
    subst (λ o. Names (name_of ref) (secrets_with o (spec.secret_ref == "") spec)) (sym e)
      (collect_secrets-needed ref ty (roles c) i h))

module _ (spec : ClusterSpec) (secrets others : Secrets) where
  -- The two maps of secrets have the same under the names that are fetched, and nothing else is
  -- said of them; no secret has the empty name.
  abbrev pub Agree : Type 0
  Agree =
      ((n : String) → In n (credential_secret_names spec) → lookup n secrets ≡ lookup n others)
      × (lookup "" secrets ≡ lookup "" others)

  resolve_set-same :
      (name default_key : String) (r : CredentialRef)
      → lookup r.secret_name secrets ≡ lookup r.secret_name others
      → resolve_set name default_key secrets r ≡ resolve_set name default_key others r
  unfolding resolve_set
  resolve_set-same name default_key r e =
      ap
        (λ o.
          read_secret name o
            (record { secret_name = r.secret_name; key = key_or default_key r.key; skip = false }))
        e

  lookup-same :
      (c : ClusterCredentials) (r : CredentialRef) (ty : String)
      → Agree
      → spec.credentials ≡ some c
      → In (some r, ty) (roles c)
      → r.skip ≡ false
      → lookup r.secret_name secrets ≡ lookup r.secret_name others
  unfolding is_needed name_of
  lookup-same c r ty (agree, empty) e i plain = elim (eq_or_ne r.secret_name "") [
    | inl unnamed ↦ subst (λ n. lookup n secrets ≡ lookup n others) (sym unnamed) empty
    | inr named ↦ agree r.secret_name (needed-In spec c (some r) ty e i (rw (plain, named) refl))
  ]

  -- The lookups of a credential that is not skipped agree.
  abbrev SameFor : Option CredentialRef → Type 0
  SameFor none = Unit
  SameFor (some r) = (r.skip ≡ true) ⊎ (lookup r.secret_name secrets ≡ lookup r.secret_name others)

  preshared_key-same :
      (o : Option CredentialRef)
      → SameFor o
      → resolve_preshared_key secrets o ≡ resolve_preshared_key others o
  unfolding resolve_preshared_key
  preshared_key-same none h = refl
  preshared_key-same (some r) (inl skipped) = rw skipped refl
  preshared_key-same (some r) (inr e) =
      rw (resolve_set-same "presharedKey" "preshared_key" r e) refl

  datastore_uri-same :
      (engine : String) (o : Option CredentialRef)
      → SameFor o
      → resolve_datastore_uri engine secrets o ≡ resolve_datastore_uri engine others o
  unfolding resolve_datastore_uri
  datastore_uri-same engine none h = refl
  datastore_uri-same engine (some r) (inl skipped) = rw skipped refl
  datastore_uri-same engine (some r) (inr e) =
      rw (resolve_set-same "datastoreURI" "datastore_uri" r e) refl

  chosen-same :
      (engine : String) (c : ClusterCredentials)
      → SameFor c.datastore_uri
      → SameFor c.preshared_key
      → resolve_chosen engine secrets (some c) ≡ resolve_chosen engine others (some c)
  unfolding resolve_chosen
  chosen-same engine c uri key =
      rw (datastore_uri-same engine c.datastore_uri uri, preshared_key-same c.preshared_key key)
        refl

  given-SameFor :
      (c : ClusterCredentials) (o : Option CredentialRef) (ty : String)
      → Agree
      → spec.credentials ≡ some c
      → In (o, ty) (roles c)
      → SameFor o
  given-SameFor c none ty agree e i = tt
  given-SameFor c (some r) ty agree e i = elim (Bool-cases r.skip) [
    | inl skipped ↦ inl skipped
    | inr plain ↦ inr (lookup-same c r ty agree e i plain)
  ]

  promoted-same :
      (engine : String)
      → Agree
      → spec.credentials ≡ none
      → resolve_chosen engine secrets (promoted spec.secret_ref)
        ≡ resolve_chosen engine others (promoted spec.secret_ref)
  unfolding promoted credential_secret_names names_with resolve_chosen
  promoted-same engine (agree, _) e = elim (eq_or_ne spec.secret_ref "") [
    | inl unnamed ↦ rw unnamed refl
    | inr named ↦
        let fetched : In spec.secret_ref
            (names_with spec.credentials (spec.secret_ref == "") spec) =
          subst₂ (λ o b. In spec.secret_ref (names_with o b spec)) (sym e) (sym named)
            (at_head refl) in
        let same = agree spec.secret_ref fetched in
        rw named (chosen-same engine _ (inr same) (inr same))
  ]

  -- The credentials that NewConfig resolves depend on the secrets that the controller fetches
  -- for the cluster, and on no other: two maps of secrets that agree on their names, and on the
  -- empty name, give the same values, references and errors.
  pub resolve_credentials-fetched :
      (engine : String)
      → ((n : String) → In n (credential_secret_names spec) → lookup n secrets ≡ lookup n others)
      → lookup "" secrets ≡ lookup "" others
      → resolve_credentials engine secrets spec ≡ resolve_credentials engine others spec
  unfolding resolve_credentials chosen_credentials
  resolve_credentials-fetched engine agree empty = elim (Option-cases spec.credentials) [
    | inl e ↦ rw e (promoted-same engine (agree, empty) e)
    | inr (c, e) ↦ rw e (
        chosen-same engine c
          (given-SameFor c c.datastore_uri credential_type_datastore_uri (agree, empty) e
            (at_head refl))
          (given-SameFor c c.preshared_key credential_type_preshared_key (agree, empty) e
            (at_tail (at_head refl))))
  ]
