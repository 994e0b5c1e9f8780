-- ===== src/Config/Patches/Counts.antt =====
-- What `ApplyPatches` says of the patches that it applied (pkg/config/patch.go).
use spicedb_operator.Base.{
  >>=-eq-ok, Bool, List, Option, Result, String, [], arith, eq_refl, eqb, err, false, filterb,
  if◌then◌else◌, inl, inr, length, not, ok, panic, refl, some, subst, suc, timeout, true, zero, ℕ,
  ◌&&◌, ◌++◌, ◌+◌, ◌<◌, ◌==◌, ◌>>=◌, ◌∷◌, ◌≡◌, ◌⊎◌,
}
use spicedb_operator.Api.Cluster.{Patch}
use spicedb_operator.Config.Patches.{
  Applied, PatchError, PatchLibrary, TypeMeta, answer, apply_all, apply_one, apply_patches,
  apply_to, converting_error, is_for, no_kind, no_type_info, or_error,
}

module _ {Meta : Type 0} (lib : PatchLibrary Meta) where
  -- The loop accounts for each patch of the kind, and changes nothing if it applies none.
  abbrev Accounts : String → List Patch → String → String × ℕ × List PatchError → Type 0
  Accounts kind patches initial (encoded, count, errors) =
      (count + length errors ≡ length (filterb (is_for lib kind) patches))
      × ((0 < count) ⊎ (encoded ≡ initial))

  apply_all-Accounts :
      (kind : String) (api_version : Option String) (i : ℕ) (patches : List Patch)
      (initial : String) {r : String × ℕ × List PatchError}
      → apply_all lib kind api_version i patches initial ≡ ok r
      → Accounts kind patches initial r
  unfolding apply_all
  apply_all-Accounts kind api_version i [] initial {r} = λ e.
      let start : (initial, 0, []) ≡ r = cc in
      subst (Accounts kind [] initial) start (refl, inr refl)
  apply_all-Accounts kind api_version i (p ∷ ps) initial {r} =
      go (is_for lib kind p) (apply_one lib kind api_version i p initial)
        (λ document s e. apply_all-Accounts kind api_version (suc i) ps document {r = s} e)
    where
      others : String → Result PatchError (String × ℕ × List PatchError)
      others = apply_all lib kind api_version (suc i) ps

      go :
          (b : Bool) (one : Result PatchError String)
          → ((document : String) (s : String × ℕ × List PatchError)
              → others document ≡ ok s
              → Accounts kind ps document s)
          → (if b
              then elim one as (λ _. Result PatchError (String × ℕ × List PatchError)) [
                | ok patched ↦ others patched >>= λ s. ok (s.0, suc s.1, s.2)
                | err x ↦ others initial >>= λ s. ok (s.0, s.1, x ∷ s.2)
                | panic ↦ panic
                | timeout ↦ timeout
              ]
              else others initial)
            ≡ ok r
          → (r.1 + length r.2
              ≡ length (elim b as (λ _. List Patch) [
                | false ↦ filterb (is_for lib kind) ps
                | true ↦ p ∷ filterb (is_for lib kind) ps
              ]))
            × ((0 < r.1) ⊎ (r.0 ≡ initial))
      go false one ih e = ih initial r e
      go true (ok patched) ih e =
          let (s, first, last) = >>=-eq-ok (others patched) (λ s. ok (s.0, suc s.1, s.2)) e in
          let done : (s.0, suc s.1, s.2) ≡ r = cc in
          let (counted, _) = ih patched s first in
          subst
            (λ x.
              (x.1 + length x.2 ≡ suc (length (filterb (is_for lib kind) ps)))
              × ((0 < x.1) ⊎ (x.0 ≡ initial)))
            done (omega (arith, counted), inl (omega arith))
      go true (err x) ih e =
          let (s, first, last) = >>=-eq-ok (others initial) (λ s. ok (s.0, s.1, x ∷ s.2)) e in
          let done : (s.0, s.1, x ∷ s.2) ≡ r = cc in
          let (counted, unchanged) = ih initial s first in
          subst
            (λ x.
              (x.1 + length x.2 ≡ suc (length (filterb (is_for lib kind) ps)))
              × ((0 < x.1) ⊎ (x.0 ≡ initial)))
            done (omega (arith, counted), unchanged)
      go true panic ih e = cc
      go true timeout ih e = cc

  -- Where the object has a kind, each patch of its kind is applied or has an error of its own, and
  -- the answer says that the object differs exactly if its bytes do, whatever was counted.
  pub apply_patches-counts :
      (initial kind : String) (meta : TypeMeta) (patches : List Patch) {a : Applied}
      → lib.type_meta initial ≡ some meta
      → meta.kind ≡ some kind
      → apply_patches lib (some initial) patches ≡ ok a
      → ((failed : List PatchError) × (a.errors ≡ failed ++ converting_error lib a.encoded)
          × (a.count + length failed ≡ length (filterb (is_for lib kind) patches)))
        × (a.diff ≡ not (a.encoded == initial))
  unfolding apply_patches apply_to answer
  apply_patches-counts initial kind meta patches {a} m k e =
      let known : (or_error no_kind meta.kind >>= λ z.
      apply_to lib z meta.api_version patches initial)
          ≡ ok a =
        subst
          (λ x.
            (or_error no_type_info x >>= λ t.
            or_error no_kind t.kind >>= λ z. apply_to lib z t.api_version patches initial)
            ≡ ok a)
          m e in
      let to : apply_to lib kind meta.api_version patches initial ≡ ok a =
        subst
          (λ y.
            (or_error no_kind y >>= λ z. apply_to lib z meta.api_version patches initial) ≡ ok a)
          k known in
      let (r, first, last) =
        >>=-eq-ok (apply_all lib kind meta.api_version 0 patches initial)
          (λ r. ok (answer lib initial r)) to in
      let (counted, changed) = apply_all-Accounts kind meta.api_version 0 patches initial first in
      let done : answer lib initial r ≡ a = cc in
      subst
        (λ x.
          ((failed : List PatchError) × (x.errors ≡ failed ++ converting_error lib x.encoded)
            × (x.count + length failed ≡ length (filterb (is_for lib kind) patches)))
          × (x.diff ≡ not (x.encoded == initial)))
        done ((r.2, refl, counted), differs r.1 r.0 changed)
    where
      differs :
          (count : ℕ) (encoded : String)
          → (0 < count) ⊎ (encoded ≡ initial)
          → (not (eqb count 0) && not (encoded == initial)) ≡ not (encoded == initial)
      differs zero encoded (inl h) = ground arith
      differs zero encoded (inr h) = rw (h, eq_refl initial) refl
      differs (suc n) encoded h = ground arith
