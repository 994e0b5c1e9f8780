-- ===== src/Config/Passthrough/Passed.antt =====
-- Which settings are passed on to SpiceDB (pkg/config/config.go).
use mathlib.Core.Bool.{false≢true}
use spicedb_operator.Base.{
  In, List, Option, Option-cases, String, [], ap, at_head, at_tail, eq_or_ne, eq_refl, false, inl,
  inr, ne_of_test, none, refl, some, subst, sym, test_of_ne, true, ◌==◌, ◌∙◌, ◌∷◌, ◌≡◌, ◌≢◌,
}
use spicedb_operator.Base.Map.{Map, delete, insert, lookup, lookup-delete, lookup-insert}
use spicedb_operator.Base.Text.{equal_fold}
use spicedb_operator.Config.Passthrough.{finish_passthrough, keys, pass_all}
use spicedb_operator.Config.Passthrough.Stripped.{
  keys-In, lookup-strip_all-hides, lookup-strip_all-keeps, lookup-with_log_path, sensitive,
}
use spicedb_operator.Config.Values.{RawConfig, Scalar, Value, pop_any, print_value}

-- What is passed on under a key that the loop visits, or does not.
module _ (show_object : Map Scalar → String) where
  abbrev pub passed_or : Option String → Option Value → Option String
  passed_or before none = before
  passed_or before (some v) = some (print_value show_object v)

  pass_all-skip :
      (k : String) (ks : List String) (p : Map String) (config : RawConfig)
      → lookup k config ≡ none
      → pass_all show_object (k ∷ ks) p config ≡ pass_all show_object ks p config
  unfolding pass_all
  pass_all-skip k ks p config e = rw (e, pass_all) refl

  pop_any-some :
      (k : String) (config : RawConfig) {v : Value}
      → lookup k config ≡ some v
      → pop_any show_object k config ≡ (print_value show_object v, delete k config)
  unfolding pop_any
  pop_any-some k config e = rw (e, pop_any) refl

  pass_all-take :
      (k : String) (ks : List String) (p : Map String) (config : RawConfig) {v : Value}
      → lookup k config ≡ some v
      → pass_all show_object (k ∷ ks) p config
        ≡ pass_all show_object ks (insert k (print_value show_object v) p) (delete k config)
  unfolding pass_all
  pass_all-take k ks p config e = rw (e, pass_all, pop_any-some k config e) refl

  pass_all-gone :
      (j : String) (ks : List String) (p : Map String) (config : RawConfig)
      → lookup j config ≡ none
      → lookup j (pass_all show_object ks p config) ≡ lookup j p
  unfolding pass_all
  pass_all-gone j [] p config h = refl
  pass_all-gone j (k ∷ ks) p config h = elim (Option-cases (lookup k config)) [
    | inl e ↦ rw (pass_all-skip k ks p config e) (pass_all-gone j ks p config h)
    | inr (v, e) ↦ elim (eq_or_ne k j) [
      | inl same ↦ cc
      | inr other ↦ rw (pass_all-take k ks p config e) (
          pass_all-gone j ks (insert k (print_value show_object v) p) (delete k config)
            (lookup-delete k j config ∙ rw other h)
          ∙ (lookup-insert k j (print_value show_object v) p ∙ rw other refl))
    ]
  ]

  In-later : (k j : String) (ks : List String) → (k == j) ≡ false → In j (k ∷ ks) → In j ks
  In-later k j ks other (at_head e) = absurd (ne_of_test k j other (sym e))
  In-later k j ks other (at_tail i) = i

  pass_all-In :
      (j : String) (ks : List String) (p : Map String) (config : RawConfig) {v : Value}
      → lookup j config ≡ some v
      → In j ks
      → lookup j (pass_all show_object ks p config) ≡ some (print_value show_object v)
  pass_all-In j [] p config h i = elim i [ ]
  pass_all-In j (k ∷ ks) p config {v} h i = elim (Option-cases (lookup k config)) [
    | inl e ↦ elim (eq_or_ne k j) [
      | inl same ↦ cc
      | inr other ↦
          rw (pass_all-skip k ks p config e) (pass_all-In j ks p config h (In-later k j ks other i))
    ]
    | inr (w, e) ↦ rw (pass_all-take k ks p config e) (elim (eq_or_ne k j) [
      | inl same ↦
          pass_all-gone j ks (insert k (print_value show_object w) p) (delete k config)
            (lookup-delete k j config ∙ rw (same, eq_refl j) refl)
          ∙ (lookup-insert k j (print_value show_object w) p
              ∙ rw (same, eq_refl j)
                  (ap (passed_or none) (sym e ∙ ap (λ x. lookup x config) same ∙ h)))
      | inr other ↦
          pass_all-In j ks (insert k (print_value show_object w) p) (delete k config)
            (lookup-delete k j config ∙ rw other h) (In-later k j ks other i)
    ])
  ]

  lookup-pass_all :
      (j : String) (p : Map String) (config : RawConfig)
      → lookup j (pass_all show_object (keys config) p config)
        ≡ passed_or (lookup j p) (lookup j config)
  lookup-pass_all j p config = go (lookup j config) refl
    where
      go :
          (o : Option Value)
          → lookup j config ≡ o
          → lookup j (pass_all show_object (keys config) p config) ≡ passed_or (lookup j p) o
      go none e = pass_all-gone j (keys config) p config e
      go (some v) e = pass_all-In j (keys config) p config e (keys-In j config e)

  -- A key that is neither sensitive nor that of the log path has the text of what the user set, or
  -- what the code set before.
  pub finish_passthrough-keeps :
      (j : String) (p : Map String) (config : RawConfig)
      → sensitive j ≡ false
      → (j == "terminationLogPath") ≡ false
      → lookup j (finish_passthrough show_object p config)
        ≡ passed_or (lookup j p) (lookup j config)
  unfolding finish_passthrough
  finish_passthrough-keeps j p config h other =
      lookup-with_log_path j _ other
      ∙ (lookup-strip_all-keeps j _ (pass_all show_object (keys config) p config) h
          ∙ lookup-pass_all j p config)

  -- A sensitive key is not passed on.
  pub finish_passthrough-hides :
      (j : String) (p : Map String) (config : RawConfig)
      → sensitive j ≡ true
      → lookup j (finish_passthrough show_object p config) ≡ none
  unfolding finish_passthrough equal_fold
  finish_passthrough-hides j p config h =
      lookup-with_log_path j _
        (test_of_ne j "terminationLogPath" (λ e. no (subst (λ x. sensitive x ≡ true) e h)))
      ∙ lookup-strip_all-hides j (pass_all show_object (keys config) p config) h
    where
      no : sensitive "terminationLogPath" ≢ true
      no = false≢true
