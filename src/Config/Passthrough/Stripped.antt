-- ===== src/Config/Passthrough/Stripped.antt =====
-- Which settings are stripped, and that of the log path (pkg/config/config.go).
use spicedb_operator.Base.{
  Bool, In, List, Option-cases, String, [], any, at_head, at_tail, eq_or_ne, eq_refl, false,
  if◌then◌else◌, inl, inr, ne_of_test, none, refl, some, subst, sym, test_of_ne, true, ◌&&◌, ◌==◌,
  ◌||◌, ◌∙◌, ◌∷◌, ◌≡◌,
}
use spicedb_operator.Base.Map.{Map, delete, get_or, insert, lookup, lookup-delete, lookup-insert}
use spicedb_operator.Base.Text.{equal_fold}
use spicedb_operator.Config.Passthrough.{keys, strip_all, strip_key, strip_values, with_log_path}

-- A sensitive name, in upper or lower case.
abbrev pub sensitive : String → Bool
sensitive j = any (equal_fold j) strip_values

pub keys-In {ℓ} :
    {V : Type ℓ} (j : String) (m : Map V) {v : V} → lookup j m ≡ some v → In j (keys m)
unfolding lookup keys
keys-In j [] h = cc
keys-In j ((k, w) ∷ m) {v} h = elim (eq_or_ne k j) [
  | inl e ↦ at_head (sym e)
  | inr other ↦
      at_tail
        (keys-In j m {v = v} (subst (λ b. (if b then some w else lookup j m) ≡ some v) other h))
]

lookup-strip_key :
    (k j : String) (names : List String) (m : Map String)
    → lookup j (strip_key k names m)
      ≡ (if any (equal_fold k) names && k == j then none else lookup j m)
unfolding strip_key
lookup-strip_key k j [] m = refl
lookup-strip_key k j (s ∷ names) m =
    go (equal_fold k s) (any (equal_fold k) names) (k == j) (lookup-strip_key k j names m)
      (lookup-strip_key k j names (delete k m)) (lookup-delete k j m)
  where
    go :
        (this others same : Bool)
        → lookup j (strip_key k names m) ≡ (if others && same then none else lookup j m)
        → lookup j (strip_key k names (delete k m))
          ≡ (if others && same then none else lookup j (delete k m))
        → lookup j (delete k m) ≡ (if same then none else lookup j m)
        → lookup j (if this then strip_key k names (delete k m) else strip_key k names m)
          ≡ (if (this || others) && same then none else lookup j m)
    go true true true h g d = g
    go true true false h g d = g ∙ d
    go true false true h g d = g ∙ d
    go true false false h g d = g ∙ d
    go false others same h g d = h

-- A key that is not sensitive stays.
pub lookup-strip_all-keeps :
    (j : String) (ks : List String) (m : Map String)
    → sensitive j ≡ false
    → lookup j (strip_all ks m) ≡ lookup j m
unfolding strip_all
lookup-strip_all-keeps j [] m h = refl
lookup-strip_all-keeps j (k ∷ ks) m h =
    lookup-strip_all-keeps j ks (strip_key k strip_values m) h
    ∙ lookup-strip_key k j strip_values m
    ∙ elim (eq_or_ne k j) [
      | inl e ↦ rw (subst (λ x. sensitive x ≡ false) (sym e) h) refl
      | inr other ↦ unused (sensitive k) (k == j) other
    ]
  where
    unused : (b c : Bool) → c ≡ false → (if b && c then none else lookup j m) ≡ lookup j m
    unused true true e = cc
    unused true false e = refl
    unused false c e = refl

pub strip_all-none :
    (j : String) (ks : List String) (m : Map String)
    → lookup j m ≡ none
    → lookup j (strip_all ks m) ≡ none
unfolding strip_all
strip_all-none j [] m h = h
strip_all-none j (k ∷ ks) m h =
    strip_all-none j ks (strip_key k strip_values m)
      (lookup-strip_key k j strip_values m ∙ either (sensitive k && k == j))
  where
    either : (b : Bool) → (if b then none else lookup j m) ≡ none
    either true = refl
    either false = h

-- A sensitive key goes.
pub strip_all-In :
    (j : String) (ks : List String) (m : Map String)
    → sensitive j ≡ true
    → In j ks
    → lookup j (strip_all ks m) ≡ none
unfolding strip_all
strip_all-In j [] m h i = elim i [ ]
strip_all-In j (k ∷ ks) m h (at_head e) = strip_all-none j ks (strip_key k strip_values m) (
    lookup-strip_key k j strip_values m
    ∙ gone (sensitive k) (k == j) (subst (λ x. sensitive x ≡ true) e h) (rw e (eq_refl k)))
  where
    gone : (b c : Bool) → b ≡ true → c ≡ true → (if b && c then none else lookup j m) ≡ none
    gone true true e f = refl
    gone true false e f = cc
    gone false c e f = cc
strip_all-In j (k ∷ ks) m h (at_tail i) = strip_all-In j ks (strip_key k strip_values m) h i

pub lookup-strip_all-hides :
    (j : String) (m : Map String) → sensitive j ≡ true → lookup j (strip_all (keys m) m) ≡ none
lookup-strip_all-hides j m h = elim (Option-cases (lookup j m)) [
  | inl missing ↦ strip_all-none j (keys m) m missing
  | inr (v, found) ↦ strip_all-In j (keys m) m h (keys-In j m found)
]

pub lookup-with_log_path :
    (j : String) (m : Map String)
    → (j == "terminationLogPath") ≡ false
    → lookup j (with_log_path m) ≡ lookup j m
unfolding with_log_path
lookup-with_log_path j m h = go (get_or "" "terminationLogPath" m == "")
  where
    other : ("terminationLogPath" == j) ≡ false
    other = test_of_ne "terminationLogPath" j (λ e. ne_of_test j "terminationLogPath" h (sym e))

    go :
        (b : Bool)
        → lookup j (if b then insert "terminationLogPath" "/dev/termination-log" m else m)
          ≡ lookup j m
    go true = lookup-insert "terminationLogPath" j "/dev/termination-log" m ∙ rw other refl
    go false = refl
