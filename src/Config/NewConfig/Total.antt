-- ===== src/Config/NewConfig/Total.antt =====
-- `NewConfig` always returns (pkg/config/config.go, pkg/config/patch.go).
use spicedb_operator.Base.{
  All, Bool, List, Option, Result, Returns, Returns->>=, String, [], err, false, if◌then◌else◌,
  none, ok, panic, some, subst, suc, sym, timeout, true, ℕ, ◌>>=◌, ◌∷◌, ◌≡◌, ◌≢◌,
}
use spicedb_operator.Base.Map.{Map}
use spicedb_operator.Api.Cluster.{Cluster, Patch, rollout_in_progress}
use spicedb_operator.Api.Condition.{ConditionOps}
use spicedb_operator.Config.Credentials.{Secrets}
use spicedb_operator.Config.NewConfig.{
  Checks, check_objects, count_applied, draft, finish, from_raw, new_config, target_for,
  with_target,
}
use spicedb_operator.Config.Patches.{
  Applied, PatchError, PatchLibrary, TypeMeta, apply_all, apply_merge, apply_one, apply_patches,
  apply_to, applying, converting, decoding, is_for, json6902, no_kind, no_type_info, or_error,
  resolving, strategic_merge,
}
use spicedb_operator.Config.Readings.{Read, read_first}
use spicedb_operator.Config.Types.{Config, ConfigError, OperatorConfig, Outcome, empty_config}
use spicedb_operator.Config.Values.{RawConfig, Scalar}
use spicedb_operator.Updates.Graph.{default_channel_for_datastore}
use spicedb_operator.Updates.Target.{Target}
use spicedb_operator.Updates.Target.Total.{compute_target-Returns}
use spicedb_operator.Updates.Types.{Error}

-- The object's bytes say of which version of the API they are.
abbrev pub HasVersion : Option TypeMeta → Type 0
HasVersion none = Unit
HasVersion (some t) = (version : String) × (t.api_version ≡ some version)

module _ {Meta : Type 0} (lib : PatchLibrary Meta) where
  abbrev pub Typed : Option String → Type 0
  Typed none = Unit
  Typed (some document) = HasVersion (lib.type_meta document)

  or_error-Returns {ℓ} : {A : Type ℓ} (e : PatchError) (o : Option A) → Returns (or_error e o)
  or_error-Returns e none = tt
  or_error-Returns e (some a) = tt

  apply_one-Returns :
      (kind version : String) (i : ℕ) (p : Patch) (encoded : String)
      → Returns (apply_one lib kind (some version) i p encoded)
  unfolding apply_one apply_merge
  apply_one-Returns kind version i p encoded =
      elim (lib.decode p.patch)
        as (λ d. Returns (elim d as (λ _. Result PatchError String) [
          | none ↦ err (decoding i)
          | some strategic_merge ↦ apply_merge lib kind (some version) i p encoded
          | some json6902 ↦ or_error (applying i) (lib.apply_operation p.patch encoded)
        ])) [
          | none ↦ tt
          | some strategic_merge ↦
              Returns->>= _ _ (or_error-Returns (converting i) (lib.to_json p.patch)) (λ json _.
                Returns->>= _ _ (or_error-Returns (applying i) (lib.parse_group_version version))
                  (λ group _.
                    Returns->>= _ _
                      (or_error-Returns (resolving i) (lib.lookup_patch_meta group kind))
                      (λ meta _. or_error-Returns (applying i) (lib.merge encoded json meta))))
          | some json6902 ↦ or_error-Returns (applying i) (lib.apply_operation p.patch encoded)
        ]

  apply_all-Returns :
      (kind version : String) (i : ℕ) (patches : List Patch) (encoded : String)
      → Returns (apply_all lib kind (some version) i patches encoded)
  unfolding apply_all
  apply_all-Returns kind version i [] encoded = tt
  apply_all-Returns kind version i (p ∷ ps) encoded =
      go (is_for lib kind p) (apply_one lib kind (some version) i p encoded)
        (apply_one-Returns kind version i p encoded)
        (λ document. apply_all-Returns kind version (suc i) ps document)
    where
      others : String → Result PatchError (String × ℕ × List PatchError)
      others = apply_all lib kind (some version) (suc i) ps

      go :
          (b : Bool) (one : Result PatchError String)
          → Returns one
          → ((document : String) → Returns (others document))
          → Returns (
              if b
              then elim one as (λ _. Result PatchError (String × ℕ × List PatchError)) [
                | ok patched ↦ others patched >>= λ s. ok (s.0, suc s.1, s.2)
                | err x ↦ others encoded >>= λ s. ok (s.0, s.1, x ∷ s.2)
                | panic ↦ panic
                | timeout ↦ timeout
              ]
              else others encoded)
      go false one h ih = ih encoded
      go true (ok patched) h ih = Returns->>= (others patched) _ (ih patched) (λ s _. tt)
      go true (err x) h ih = Returns->>= (others encoded) _ (ih encoded) (λ s _. tt)
      go true panic h ih = h
      go true timeout h ih = h

  apply_patches-Returns :
      (o : Option String) (patches : List Patch) → Typed o → Returns (apply_patches lib o patches)
  unfolding apply_patches apply_to
  apply_patches-Returns none patches h = tt
  apply_patches-Returns (some initial) patches h = go (lib.type_meta initial) h
    where
      go :
          (m : Option TypeMeta)
          → HasVersion m
          → Returns (
              or_error no_type_info m >>= λ meta. or_error no_kind meta.kind >>= λ kind.
              apply_to lib kind meta.api_version patches initial)
      go none h = tt
      go (some meta) (version, e) = Returns->>= _ _ (or_error-Returns no_kind meta.kind) (λ kind _.
          subst (λ v. Returns (apply_to lib kind v patches initial)) (sym e)
            (Returns->>= (apply_all lib kind (some version) 0 patches initial) _
              (apply_all-Returns kind version 0 patches initial) (λ s _. tt)))

  module _ (ops : ConditionOps) (show_object : Map Scalar → String) where
    check_objects-Returns :
        (os : List (Option String)) (patches : List Patch)
        → All Typed os
        → Returns (check_objects lib ops show_object os patches)
    unfolding check_objects count_applied
    check_objects-Returns [] patches h = tt
    check_objects-Returns (o ∷ os) patches (typed, h) =
        Returns->>= (check_objects lib ops show_object os patches) _
          (check_objects-Returns os patches h)
          (λ c _. counted (apply_patches lib o patches) c (apply_patches-Returns o patches typed))
      where
        counted :
            (r : Result PatchError Applied) (c : Checks)
            → Returns r
            → Returns (count_applied lib ops show_object r c)
        counted (ok a) c h = tt
        counted (err e) c h = tt
        counted panic c h = h
        counted timeout c h = h

    -- `NewConfig` always returns, with a configuration or with errors, if no default channel of
    -- an engine has an empty name and the objects that are patched say their version: the choice of
    -- the release neither panics nor loops, and no patch reads a version that is not there.
    pub new_config-Returns :
        (unmarshal : String → Option RawConfig) (objects : Config → List (Option String))
        (operator : OperatorConfig) (cluster : Cluster) (secrets : Secrets)
        → ((engine name : String)
            → default_channel_for_datastore operator.update_graph engine ≡ ok name
            → name ≢ "")
        → ((c : Config) → All Typed (objects c))
        → Returns (new_config lib ops show_object unmarshal objects operator cluster secrets)
    unfolding new_config from_raw target_for with_target finish
    new_config-Returns unmarshal objects operator cluster secrets named typed =
        start cluster.spec.config
      where
        chosen :
            (r : Read) (t : Result Error Target)
            → Returns t
            → Returns (with_target lib ops show_object objects cluster secrets r t)
        chosen r (ok target) h =
            let d = draft lib ops show_object cluster secrets r target in
            Returns->>= (check_objects lib ops show_object (objects d.config) d.config.patches) _
              (check_objects-Returns (objects d.config) d.config.patches (typed d.config))
              (λ c _. tt)
        chosen r (err e) h = tt
        chosen r panic h = h
        chosen r timeout h = h

        unmarshalled :
            (raw : Option RawConfig)
            → Returns (from_raw lib ops show_object objects operator cluster secrets raw)
        unmarshalled none = tt
        unmarshalled (some config) =
            let r = read_first config in
            chosen r (target_for lib ops show_object operator cluster r) (
              compute_target-Returns operator.update_graph operator.image_name
                cluster.spec.base_image r.image cluster.spec.version cluster.spec.channel
                r.texts.datastore_engine cluster.status.current_version
                (rollout_in_progress ops cluster) (named r.texts.datastore_engine))

        start :
            (text : Option String)
            → Returns (elim text as (λ _. Result ConfigError Outcome) [
              | none ↦ ok (record { config = none; warnings = []; errors = empty_config ∷ [] })
              | some text ↦
                  from_raw lib ops show_object objects operator cluster secrets (unmarshal text)
            ])
        start none = tt
        start (some text) = unmarshalled (unmarshal text)
