-- ===== src/Config/Credentials/Reads.antt =====
-- When a credential is read without an error (pkg/config/config.go), told from the secrets alone.
use spicedb_operator.Base.{
  Option, String, [], arith, eq_or_ne, false, inl, inr, ne_of_test, none, refl, some, subst, subst₂,
  test_of_ne, ◌↔◌, ◌∷◌, ◌≡◌, ◌≢◌, ◌⊎◌,
}
use spicedb_operator.Base.Map.{Map, lookup}
use spicedb_operator.Api.Cluster.{CredentialRef}
use spicedb_operator.Config.Credentials.{
  Resolved, Secrets, key_or, read_field, read_secret, resolve_set,
}
use spicedb_operator.Config.Types.{ResolvedCredentialRef, secret_lacks}

-- The secret is there, and has the key with the value.
abbrev pub Holds : Secrets → String → String → String → Type 0
Holds secrets name key value =
    (fields : Map String) × (lookup name secrets ≡ some fields) × (lookup key fields ≡ some value)

-- The key is the given one, or the default for an empty one.
abbrev pub KeyOf : String → String → String → Type 0
KeyOf default given key = ((given ≡ "") × (key ≡ default)) ⊎ ((given ≢ "") × (key ≡ given))

key_or-KeyOf : (default given : String) → KeyOf default given (key_or default given)
unfolding key_or
key_or-KeyOf default given = elim (eq_or_ne given "") [
  | inl e ↦ inl (e, rw e refl)
  | inr other ↦ inr (ne_of_test given "" other, rw other refl)
]

KeyOf-key_or : (default given key : String) → KeyOf default given key → key ≡ key_or default given
unfolding key_or
KeyOf-key_or default given key (inl (e, k)) = rw (e, k) refl
KeyOf-key_or default given key (inr (other, k)) = rw (test_of_ne given "" other) k

read_field-eq-nil :
    (fields : Map String) (ref : ResolvedCredentialRef)
    → (read_field fields ref).errors ≡ []
    → lookup ref.key fields ≡ some (read_field fields ref).value
unfolding read_field
read_field-eq-nil fields ref = go (lookup ref.key fields)
  where
    go :
        (o : Option String)
        → (elim o as (λ _. Resolved) [
          | none ↦ record { ref = ref; value = ""; errors = secret_lacks ref.key ∷ [] }
          | some v ↦ record { ref = ref; value = v; errors = [] }
        ]).errors
          ≡ []
        → o
          ≡ some
              (elim o as (λ _. Resolved) [
                | none ↦ record { ref = ref; value = ""; errors = secret_lacks ref.key ∷ [] }
                | some v ↦ record { ref = ref; value = v; errors = [] }
              ]).value
    go none h = cc
    go (some v) h = refl

-- What the resolved credential says of the secrets.
abbrev pub IsRead : Secrets → Resolved → Type 0
IsRead secrets r = Holds secrets r.ref.secret_name r.ref.key r.value

read_field-ref :
    (fields : Map String) (ref : ResolvedCredentialRef) → (read_field fields ref).ref ≡ ref
unfolding read_field
read_field-ref fields ref = ground arith

pub resolve_set-IsRead :
    (name default_key : String) (secrets : Secrets) (c : CredentialRef)
    → (resolve_set name default_key secrets c).errors ≡ []
    → IsRead secrets (resolve_set name default_key secrets c)
      × ((resolve_set name default_key secrets c).ref.secret_name ≡ c.secret_name)
      × ((resolve_set name default_key secrets c).ref.key ≡ key_or default_key c.key)
unfolding resolve_set read_secret
resolve_set-IsRead name default_key secrets c = go (lookup c.secret_name secrets) refl
  where
    ref : ResolvedCredentialRef
    ref = record { secret_name = c.secret_name; key = key_or default_key c.key; skip = false }

    go :
        (o : Option (Map String))
        → lookup c.secret_name secrets ≡ o
        → (read_secret name o ref).errors ≡ []
        → IsRead secrets (read_secret name o ref)
          × ((read_secret name o ref).ref.secret_name ≡ c.secret_name)
          × ((read_secret name o ref).ref.key ≡ key_or default_key c.key)
    go none e h = cc
    go (some fields) e h =
        rw (read_field-ref fields ref) ((fields, e, read_field-eq-nil fields ref h), refl, refl)

-- A secret that holds the key is read without an error.
resolve_set-eq-nil :
    (name default_key value : String) (secrets : Secrets) (c : CredentialRef)
    → Holds secrets c.secret_name (key_or default_key c.key) value
    → (resolve_set name default_key secrets c).errors ≡ []
unfolding resolve_set read_secret read_field
resolve_set-eq-nil name default_key value secrets c (fields, e, h) =
    rw (e, read_secret, read_field, h) refl

-- A credential that is not skipped.
pub set_iff :
    (name default_key : String) (secrets : Secrets) (c : CredentialRef)
    → ((resolve_set name default_key secrets c).errors ≡ []) ↔ (
        (key : String) × (value : String) × KeyOf default_key c.key key
        × Holds secrets c.secret_name key value)
set_iff name default_key secrets c = (
  λ h.
      let (read, en, ek) = resolve_set-IsRead name default_key secrets c h in
      (
        key_or default_key c.key,
        (resolve_set name default_key secrets c).value,
        key_or-KeyOf default_key c.key,
        subst₂ (λ n k. Holds secrets n k (resolve_set name default_key secrets c).value) en ek read,
      ),
  λ (key, value, k, h).
      let e = KeyOf-key_or default_key c.key key k in
      resolve_set-eq-nil name default_key value secrets c
        (subst (λ x. Holds secrets c.secret_name x value) e h),
)
