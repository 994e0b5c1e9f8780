-- ===== src/Controller/Credentials/Names.antt =====
-- The two lists of secrets of a cluster agree (pkg/controller/controller.go).
use spicedb_operator.Base.{
  Bool, In, List, Option, String, [], ap, at_head, at_tail, false, if◌then◌else◌, inl, inr, none,
  refl, some, sym, true, ◌==◌, ◌↔◌, ◌∙◌, ◌∷◌, ◌≡◌, ◌⊎◌,
}
use spicedb_operator.Api.Cluster.{CredentialRef, ClusterCredentials, ClusterSpec}
use spicedb_operator.Controller.Migrations.{contains}
use spicedb_operator.Controller.Migrations.Routing.{contains_iff}
use spicedb_operator.Controller.Credentials.{
  CredentialSecret, is_needed, name_of, collect_names, credential_secret_names, collect_secrets,
  names_with, secrets_with, credential_secrets_for_cluster, credential_type_datastore_uri,
  credential_type_preshared_key, credential_type_migration_secrets,
}

-- No name stands twice in the list.
abbrev pub Distinct : List String → Type 0
Distinct [] = Unit
Distinct (x ∷ xs) = (¬ In x xs) × Distinct xs

-- A secret of the list of roles has the name.
abbrev pub Names : String → List CredentialSecret → Type 0
Names n secrets = (s : CredentialSecret) × In s secrets × (s.name ≡ n)

collect_names-new :
    (seen : List String) (refs : List (Option CredentialRef)) (n : String)
    → In n (collect_names seen refs)
    → ¬ In n seen
unfolding collect_names
collect_names-new seen [] n m = elim m [ ]
collect_names-new seen (ref ∷ refs) n m =
    go (is_needed ref) (contains seen (name_of ref)) refl (collect_names-new seen refs n)
      (collect_names-new (name_of ref ∷ seen) refs n) m
  where
    go :
        (b s : Bool)
        → contains seen (name_of ref) ≡ s
        → (In n (collect_names seen refs) → ¬ In n seen)
        → (In n (collect_names (name_of ref ∷ seen) refs) → ¬ In n (name_of ref ∷ seen))
        → In n (
            if b
            then (if s
                then collect_names seen refs
                else name_of ref ∷ collect_names (name_of ref ∷ seen) refs)
            else collect_names seen refs)
        → ¬ In n seen
    go true true e skipped taken k = skipped k
    go true false e skipped taken (at_head same) = λ i.
        let hit : contains seen (name_of ref) ≡ true =
          (contains_iff seen (name_of ref)).1 (rw (← same) i) in
        cc
    go true false e skipped taken (at_tail k) = λ i. taken k (at_tail i)
    go false s e skipped taken k = skipped k

collect_names-Distinct :
    (seen : List String) (refs : List (Option CredentialRef)) → Distinct (collect_names seen refs)
unfolding collect_names
collect_names-Distinct seen [] = tt
collect_names-Distinct seen (ref ∷ refs) =
    go (is_needed ref) (contains seen (name_of ref)) (collect_names-Distinct seen refs)
      (collect_names-Distinct (name_of ref ∷ seen) refs)
  where
    go :
        (b s : Bool)
        → Distinct (collect_names seen refs)
        → Distinct (collect_names (name_of ref ∷ seen) refs)
        → Distinct (
            if b
            then (if s
                then collect_names seen refs
                else name_of ref ∷ collect_names (name_of ref ∷ seen) refs)
            else collect_names seen refs)
    go true true skipped taken = skipped
    go true false skipped taken =
        (λ m. collect_names-new (name_of ref ∷ seen) refs (name_of ref) m (at_head refl), taken)
    go false s skipped taken = skipped

-- A list of roles, and the references of it.
abbrev refs_of : List (Option CredentialRef × String) → List (Option CredentialRef)
refs_of [] = []
refs_of ((ref, ty) ∷ rs) = ref ∷ refs_of rs

collect_names-Names :
    (seen : List String) (rs : List (Option CredentialRef × String)) (n : String)
    → In n (collect_names seen (refs_of rs))
    → Names n (collect_secrets rs)
unfolding collect_names collect_secrets
collect_names-Names seen [] n m = elim m [ ]
collect_names-Names seen ((ref, ty) ∷ rs) n m =
    go (is_needed ref) (contains seen (name_of ref)) (collect_names-Names seen rs n)
      (collect_names-Names (name_of ref ∷ seen) rs n) m
  where
    secret : CredentialSecret
    secret = record { name = name_of ref; cred_type = ty }

    later : Names n (collect_secrets rs) → Names n (secret ∷ collect_secrets rs)
    later (s, i, e) = (s, at_tail i, e)

    go :
        (b s : Bool)
        → (In n (collect_names seen (refs_of rs)) → Names n (collect_secrets rs))
        → (In n (collect_names (name_of ref ∷ seen) (refs_of rs)) → Names n (collect_secrets rs))
        → In n (
            if b
            then (if s
                then collect_names seen (refs_of rs)
                else name_of ref ∷ collect_names (name_of ref ∷ seen) (refs_of rs))
            else collect_names seen (refs_of rs))
        → Names n (if b then secret ∷ collect_secrets rs else collect_secrets rs)
    go true true skipped taken k = later (skipped k)
    go true false skipped taken (at_head same) = (secret, at_head refl, sym same)
    go true false skipped taken (at_tail k) = later (taken k)
    go false s skipped taken k = skipped k

Names-collect_names :
    (seen : List String) (rs : List (Option CredentialRef × String)) (n : String)
    → Names n (collect_secrets rs)
    → In n seen ⊎ In n (collect_names seen (refs_of rs))
unfolding collect_names collect_secrets
Names-collect_names seen [] n (s, m, e) = elim m [ ]
Names-collect_names seen ((ref, ty) ∷ rs) n h =
    go (is_needed ref) (contains seen (name_of ref)) refl (Names-collect_names seen rs n)
      (Names-collect_names (name_of ref ∷ seen) rs n) h
  where
    secret : CredentialSecret
    secret = record { name = name_of ref; cred_type = ty }

    Found : List String → List String → Type 0
    Found s names = In n s ⊎ In n names

    shift :
        Found (name_of ref ∷ seen) (collect_names (name_of ref ∷ seen) (refs_of rs))
        → Found seen (name_of ref ∷ collect_names (name_of ref ∷ seen) (refs_of rs))
    shift (inl (at_head e)) = inr (at_head e)
    shift (inl (at_tail m)) = inl m
    shift (inr m) = inr (at_tail m)

    go :
        (b s : Bool)
        → contains seen (name_of ref) ≡ s
        → (Names n (collect_secrets rs) → Found seen (collect_names seen (refs_of rs)))
        → (Names n (collect_secrets rs)
            → Found (name_of ref ∷ seen) (collect_names (name_of ref ∷ seen) (refs_of rs)))
        → Names n (if b then secret ∷ collect_secrets rs else collect_secrets rs)
        → Found seen (
            if b
            then (if s
                then collect_names seen (refs_of rs)
                else name_of ref ∷ collect_names (name_of ref ∷ seen) (refs_of rs))
            else collect_names seen (refs_of rs))
    go true true c skipped taken (x, at_head same, e) = inl (
        let hit = (contains_iff seen (name_of ref)).0 c in
        let named : name_of ref ≡ n = ap (λ y. y.name) (sym same) ∙ e in rw (← named) hit)
    go true true c skipped taken (x, at_tail m, e) = skipped (x, m, e)
    go true false c skipped taken (x, at_head same, e) =
        let named : name_of ref ≡ n = ap (λ y. y.name) (sym same) ∙ e in inr (at_head (sym named))
    go true false c skipped taken (x, at_tail m, e) = shift (taken (x, m, e))
    go false s c skipped taken k = skipped k

new_names :
    (rs : List (Option CredentialRef × String)) (n : String)
    → In n [] ⊎ In n (collect_names [] (refs_of rs))
    → In n (collect_names [] (refs_of rs))
new_names rs n (inl m) = elim m [ ]
new_names rs n (inr m) = m

roles_agree :
    (rs : List (Option CredentialRef × String))
    → Distinct (collect_names [] (refs_of rs))
      × ((n : String) → In n (collect_names [] (refs_of rs)) ↔ Names n (collect_secrets rs))
roles_agree rs = (
  collect_names-Distinct [] (refs_of rs),
  λ n. (collect_names-Names [] rs n, λ h. new_names rs n (Names-collect_names [] rs n h)),
)

-- The names of the secrets of a cluster are distinct, and they are exactly the names of the secrets
-- in the list with one entry for each role.
pub credential_secret_names-Names :
    (spec : ClusterSpec)
    → Distinct (credential_secret_names spec)
      × ((n : String)
          → In n (credential_secret_names spec) ↔ Names n (credential_secrets_for_cluster spec))
unfolding credential_secret_names credential_secrets_for_cluster names_with secrets_with
credential_secret_names-Names spec = go spec.credentials (spec.secret_ref == "")
  where
    single : CredentialSecret
    single = record { name = spec.secret_ref; cred_type = "" }

    go :
        (c : Option ClusterCredentials) (b : Bool)
        → Distinct (names_with c b spec)
          × ((n : String) → In n (names_with c b spec) ↔ Names n (secrets_with c b spec))
    go none true = (tt, λ n. (λ m. elim m [ ], λ (s, m, e). elim m [ ]))
    go none false = (
      (λ m. elim m [ ], tt),
      λ n. (
        λ m. elim m [ at_head e ↦ (single, at_head refl, sym e) | at_tail k ↦ elim k [ ] ],
        λ (s, m, e). elim m [
          | at_head same ↦ at_head (sym e ∙ ap (λ y. y.name) same)
          | at_tail k ↦ elim k [ ]
        ],
      ),
    )
    go (some creds) b = roles_agree (
        (creds.datastore_uri, credential_type_datastore_uri)
        ∷ (creds.preshared_key, credential_type_preshared_key)
        ∷ (creds.migration_secrets, credential_type_migration_secrets)
        ∷ [])
