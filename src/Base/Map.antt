-- ===== src/Base/Map.antt =====
-- Go maps with string keys, as association lists. The order of the entries stands for the order in
-- which `range` visits them, which Go leaves open: what is proved holds for every order.
use Prim.Native.String.{String}
use mathlib.Core.Path.{◌≡◌, refl}
use mathlib.Core.Bool.{Bool, true, false}
use mathlib.Core.Option.{Option, none, some}
use mathlib.Core.List.{List, [], ◌∷◌}
use native.Mathlib.Omega.{arith}
use text.Mathlib.Text.{◌==◌}
use text.Mathlib.TextEquality.{eq_iff}
use spicedb_operator.Base.Tests.{if◌then◌else◌}

abbrev pub Map {ℓ} : Type ℓ → Type ℓ
Map V = List (String × V)

module _ {ℓ} {V : Type ℓ} where
  -- `v, ok := m[k]`
  unfoldable pub lookup : String → Map V → Option V
  lookup name [] = none
  lookup name ((label, value) ∷ others) = if label == name then some value else lookup name others

  -- `m[k]`, with the zero value for a missing key
  unfoldable pub get_or : V → String → Map V → V
  unfolding lookup
  get_or d k m = elim (lookup k m) [ none ↦ d | some v ↦ v ]

  -- `_, ok := m[k]`
  unfoldable pub has : String → Map V → Bool
  unfolding lookup
  has k m = elim (lookup k m) [ none ↦ false | some v ↦ true ]

  -- `m[k] = v`
  unfoldable pub insert : String → V → Map V → Map V
  insert name new [] = (name, new) ∷ []
  insert name new ((label, value) ∷ others) =
      if label == name then (name, new) ∷ others else (label, value) ∷ insert name new others

  -- `delete(m, k)`
  unfoldable pub delete : String → Map V → Map V
  delete k [] = []
  delete k ((j, v) ∷ m) = let rest = delete k m in if j == k then rest else (j, v) ∷ rest

  pub lookup-insert :
      (name asked : String) (new : V) (entries : Map V)
      → lookup asked (insert name new entries)
        ≡ (if name == asked then some new else lookup asked entries)
  unfolding lookup insert
  lookup-insert name asked new [] = refl
  lookup-insert name asked new ((label, value) ∷ others) =
      let later = lookup-insert name asked new others in
      ground (arith, later, eq_iff label asked, eq_iff label name, eq_iff name asked)

  pub lookup-delete :
      (k j : String) (m : Map V) → lookup j (delete k m) ≡ (if k == j then none else lookup j m)
  unfolding lookup delete
  lookup-delete k j [] = ground arith
  lookup-delete k j ((i, w) ∷ m) =
      ground (arith, eq_iff k j, eq_iff i k, eq_iff i j, lookup-delete k j m)

  -- The key test of a map that lacks the key, or that has it.
  pub has-eq-false : (k : String) (m : Map V) → has k m ≡ false → lookup k m ≡ none
  unfolding has
  has-eq-false k m h = ground arith

  pub has-eq-true : (k : String) (m : Map V) → has k m ≡ true → (v : V) × (lookup k m ≡ some v)
  unfolding has
  has-eq-true k m h = ground arith

  pub has_of_lookup : (k : String) (m : Map V) {v : V} → lookup k m ≡ some v → has k m ≡ true
  unfolding has
  has_of_lookup k m h = ground arith
