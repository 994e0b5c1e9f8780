-- ===== src/Config/Patches.antt =====
-- The patches of a cluster (`ApplyPatches` in pkg/config/patch.go and `fixDeploymentPatches` in
-- pkg/config/config.go). The libraries for JSON, YAML and patches are parameters: each function
-- answers none where the library's answers an error. A document stands for its bytes.
pub mod Counts
use spicedb_operator.Base.{
  Bool, List, Option, Result, String, [], eqb, err, if◌then◌else◌, none, not, ok, panic, some, suc,
  timeout, ℕ, ◌&&◌, ◌++◌, ◌==◌, ◌>>=◌, ◌||◌, ◌∷◌,
}
use spicedb_operator.Base.Text.{contains_text, joined}
use spicedb_operator.Api.Cluster.{Patch}

-- What a decoded patch is: without an operation, it is a strategic merge patch.
pub data PatchKind : Type 0 where
  strategic_merge : PatchKind
  json6902 : PatchKind

-- `TypeMetaApplyConfiguration`
pub record TypeMeta : Type 0 where
  pub kind : Option String
  pub api_version : Option String

pub record PatchLibrary (Meta : Type 0) : Type 0 where
  -- `json.Unmarshal` into `TypeMetaApplyConfiguration`
  pub type_meta : String → Option TypeMeta
  -- `decoder.Decode` into a JSON patch operation, whose kind may be unknown
  pub decode : String → Option PatchKind
  -- `json6902patch.Apply`: the patch, and the document
  pub apply_operation : String → String → Option String
  -- `utilyaml.ToJSON`
  pub to_json : String → Option String
  -- `schema.ParseGroupVersion` and `resolver.LookupPatchMeta`
  pub parse_group_version : String → Option String
  pub lookup_patch_meta : String → String → Option Meta
  -- `StrategicMergePatchUsingLookupPatchMeta`: the document, the patch, and the metadata
  pub merge : String → String → Meta → Option String
  -- whether `json.Unmarshal` accepts the document as the object
  pub converts_back : String → Bool
  -- the replacement of the first container's name by `spicedb`
  pub rename_container : String → Option String

-- The errors, with the position of the patch.
pub data PatchError : Type 0 where
  marshalling no_type_info no_kind converting_back : PatchError
  decoding converting applying resolving : ℕ → PatchError

-- The results of `ApplyPatches`, with the bytes that become `out`.
pub record Applied : Type 0 where
  pub count : ℕ
  pub diff : Bool
  pub errors : List PatchError
  pub encoded : String

-- `wildcard`
abbrev pub wildcard : String
wildcard = "*"

-- A library call, and the error with which the loop goes on to the next patch.
abbrev pub or_error {ℓ} : {A : Type ℓ} → PatchError → Option A → Result PatchError A
or_error e none = err e
or_error e (some a) = ok a

-- `*typeMeta.APIVersion`
abbrev pub deref : Option String → Result PatchError String
deref none = panic
deref (some s) = ok s

module _ {Meta : Type 0} (lib : PatchLibrary Meta) where
  -- `p.Kind == *typeMeta.Kind || p.Kind == wildcard`
  unfoldable pub is_for : String → Patch → Bool
  is_for kind p = p.kind == kind || p.kind == wildcard

  -- The body of the loop for a strategic merge patch.
  unfoldable pub apply_merge :
      String → Option String → ℕ → Patch → String → Result PatchError String
  apply_merge kind api_version i p encoded =
      or_error (converting i) (lib.to_json p.patch) >>= λ json. deref api_version >>= λ version.
      or_error (applying i) (lib.parse_group_version version) >>= λ group_version.
      or_error (resolving i) (lib.lookup_patch_meta group_version kind) >>= λ meta.
      or_error (applying i) (lib.merge encoded json meta)

  -- The body of the loop for a patch of the object's kind: the document after it.
  unfoldable pub apply_one : String → Option String → ℕ → Patch → String → Result PatchError String
  apply_one kind api_version i p encoded = elim (lib.decode p.patch) [
    | none ↦ err (decoding i)
    | some strategic_merge ↦ apply_merge kind api_version i p encoded
    | some json6902 ↦ or_error (applying i) (lib.apply_operation p.patch encoded)
  ]

  -- The loop: the document, how many patches were applied, and the errors of the others.
  unfoldable pub apply_all :
      String
      → Option String
      → ℕ
      → List Patch
      → String
      → Result PatchError (String × ℕ × List PatchError)
  apply_all kind api_version i [] encoded = ok (encoded, 0, [])
  apply_all kind api_version i (p ∷ ps) encoded =
      let others = apply_all kind api_version (suc i) ps in
      if is_for kind p
      then elim (apply_one kind api_version i p encoded) [
        | ok patched ↦ others patched >>= λ r. ok (r.0, suc r.1, r.2)
        | err e ↦ others encoded >>= λ r. ok (r.0, r.1, e ∷ r.2)
        | panic ↦ panic
        | timeout ↦ timeout
      ]
      else others encoded

  unfoldable pub converting_error : String → List PatchError
  converting_error encoded = if lib.converts_back encoded then [] else converting_back ∷ []

  -- The results, after the loop.
  unfoldable pub answer : String → String × ℕ × List PatchError → Applied
  answer initial (encoded, count, errors) = record {
    count = count;
    diff = not (eqb count 0) && not (encoded == initial);
    errors = errors ++ converting_error encoded;
    encoded = encoded;
  }

  -- `ApplyPatches` from the point where the kind is known.
  unfoldable pub apply_to : String → Option String → List Patch → String → Result PatchError Applied
  apply_to kind api_version patches initial =
      apply_all kind api_version 0 patches initial >>= λ r. ok (answer initial r)

  -- `ApplyPatches`, on what `json.Marshal` makes of the object
  unfoldable pub apply_patches : Option String → List Patch → Result PatchError Applied
  apply_patches none patches = err marshalling
  apply_patches (some initial) patches = or_error no_type_info (lib.type_meta initial) >>= λ meta.
      or_error no_kind meta.kind >>= λ kind. apply_to kind meta.api_version patches initial

  -- A patch that may use the old name of the container, with its new name.
  unfoldable pub renamed : Patch → Patch
  renamed p = elim (lib.decode p.patch) [
    | none ↦ p
    | some json6902 ↦ p
    | some strategic_merge ↦ elim (lib.to_json p.patch) [
      | none ↦ p
      | some json ↦ elim (lib.rename_container json) [
        | none ↦ p
        | some modified ↦ record p { patch = modified }
      ]
    ]
  ]

  unfoldable pub fix_patch : String → Patch → Patch
  fix_patch name p =
      if not (p.kind == "Deployment") && not (p.kind == wildcard)
      then p
      else if not (contains_text p.patch (joined name "-spicedb"))
      then p
      else renamed p

  -- `fixDeploymentPatches`
  unfoldable pub fix_deployment_patches : String → List Patch → List Patch
  fix_deployment_patches name [] = []
  fix_deployment_patches name (p ∷ ps) = fix_patch name p ∷ fix_deployment_patches name ps
