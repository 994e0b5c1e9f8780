-- ===== src/Config/NewConfig/Sound.antt =====
-- What holds of every configuration that `NewConfig` returns (pkg/config/config.go).
use Prim.Native.Char.{Char, char}
use text.Mathlib.TextLemmas.{cons≢nil}
use spicedb_operator.Base.{
  Bool, Bool-cases, List, Option, String, [], append-eq-nil, arith, false, if◌then◌else◌, inl, inr,
  none, not, ok, refl, some, subst, test_of_ne, true, ◌&&◌, ◌++◌, ◌==◌, ◌∷◌, ◌≡◌, ◌⊎◌,
}
use spicedb_operator.Base.Int.{Fits, exceeds_one}
use spicedb_operator.Base.Map.{Map}
use spicedb_operator.Base.Text.{joined}
use spicedb_operator.Api.Cluster.{Cluster}
use spicedb_operator.Api.Condition.{ConditionOps}
use spicedb_operator.Config.Credentials.{Secrets}
use spicedb_operator.Config.Credentials.Reads.{Holds}
use spicedb_operator.Config.Credentials.Values.{resolve_credentials-IsRead}
use spicedb_operator.Config.Defaults.{
  dispatch_enabled_key, extra_pod_annotations_key, extra_pod_labels_key,
  extra_service_account_annotations_key, replicas_key, replicas_key_for_memory, skip_migrations_key,
  skip_tls_warning_key,
}
use spicedb_operator.Config.Keys.{int32_limit, pop_int}
use spicedb_operator.Config.Keys.Bounds.{pop_int-Fits}
use spicedb_operator.Config.Literals.{
  engine_errors, image_errors, make_migration_config, make_spice_config, target_image,
}
use spicedb_operator.Config.NewConfig.{draft, new_config}
use spicedb_operator.Config.NewConfig.Steps.{new_config-eq-some}
use spicedb_operator.Config.Patches.{PatchLibrary}
use spicedb_operator.Config.Readings.{Read, read_first, read_settings}
use spicedb_operator.Config.Stages.{
  both, checked, checked_set, read_pdb, read_pdb_object, read_pdb_value, read_replicas,
}
use spicedb_operator.Config.Types.{
  Config, ConfigError, IntOrString, OperatorConfig, Outcome, no_update_in_channel,
  too_many_replicas,
}
use spicedb_operator.Config.Values.{RawConfig, Scalar, Value, leaf, object}
use spicedb_operator.Updates.Target.{Target}
use spicedb_operator.Updates.Types.{State}

-- The engine and the image are given; with the memory engine there is one replica at most, and the
-- field `dispatch_enabled` is false; the replicas fit an int32; the disruption budget has one bound
-- at most; the datastore URI, unless the engine is memory, and the preshared key are each skipped
-- or the value that the secret of the reference holds under its key.
abbrev pub Sound : Secrets → Config → Type 0
Sound secrets c =
    let m = c.migration_config in
    let s = c.spice_config in
    ((m.datastore_engine == "") ≡ false)
    × ((m.target_spice_db_image == "") ≡ false)
    × (((m.datastore_engine == "memory") ≡ false)
        ⊎ ((s.dispatch_enabled ≡ false) × (exceeds_one s.replicas ≡ false)))
    × Fits int32_limit s.replicas
    × ((s.pdb.max_unavailable ≡ none) ⊎ (s.pdb.min_available ≡ none))
    × (((m.datastore_engine == "memory") ≡ true)
        ⊎ ((s.datastore_uri_ref.skip ≡ true)
            ⊎ Holds secrets s.datastore_uri_ref.secret_name s.datastore_uri_ref.key
                m.datastore_uri))
    × ((s.preshared_key_ref.skip ≡ true)
        ⊎ Holds secrets s.preshared_key_ref.secret_name s.preshared_key_ref.key s.preshared_key)

engine_errors-eq-nil : (engine : String) → engine_errors engine ≡ [] → (engine == "") ≡ false
unfolding engine_errors
engine_errors-eq-nil engine h = ground arith

joined-ne-nil : (s t : String) (c : Char) → (joined s (String.◌∷◌ c t) == "") ≡ false
joined-ne-nil String.[] t c = test_of_ne _ "" cons≢nil
joined-ne-nil (String.◌∷◌ d s) t c = test_of_ne _ "" cons≢nil

image_errors-eq-nil :
    (base_image : String) (s : State)
    → image_errors s ≡ []
    → (target_image base_image s == "") ≡ false
unfolding image_errors target_image
image_errors-eq-nil base_image s = go (s.digest == "") (s.tag == "")
  where
    go :
        (no_digest no_tag : Bool)
        → (if no_digest && no_tag then no_update_in_channel ∷ [] else []) ≡ []
        → ((if not no_digest
              then joined base_image (joined "@" s.digest)
              else if not no_tag
              then joined base_image (joined ":" s.tag)
              else "")
            == "")
          ≡ false
    go true true h = cc
    go true false h = joined-ne-nil base_image s.tag (char 58 tt)
    go false no_tag h = joined-ne-nil base_image s.digest (char 64 tt)

-- The settings, where they give no error.
too_many-eq-nil :
    (many in_memory : Bool) (errors : List ConfigError)
    → errors ++ (if many && in_memory then too_many_replicas ∷ [] else []) ≡ []
    → (in_memory ≡ false) ⊎ (many ≡ false)
too_many-eq-nil true true [] h = cc
too_many-eq-nil true true (e ∷ errors) h = cc
too_many-eq-nil false in_memory errors h = inr refl
too_many-eq-nil true false errors h = inl refl

both-eq-nil : (x y : Option IntOrString) → both x y ≡ [] → (x ≡ none) ⊎ (y ≡ none)
unfolding both
both-eq-nil none y h = inl refl
both-eq-nil (some x) none h = inr refl
both-eq-nil (some x) (some y) h = cc

read_pdb_value-eq-nil :
    (o : Option Value)
    → (read_pdb_value o).1 ≡ []
    → ((read_pdb_value o).0.max_unavailable ≡ none) ⊎ ((read_pdb_value o).0.min_available ≡ none)
unfolding read_pdb_value read_pdb_object
read_pdb_value-eq-nil none h = inl refl
read_pdb_value-eq-nil (some (leaf s)) h = inl refl
read_pdb_value-eq-nil (some (object m)) h = both-eq-nil _ _ (append-eq-nil _ _ h).1

read_settings-eq-nil :
    (show_object : Map Scalar → String) (engine : String) (config : RawConfig)
    → (read_settings show_object engine config).errors ≡ []
    → (((engine == "memory") ≡ false)
        ⊎ (((read_settings show_object engine config).dispatch_enabled ≡ false)
            × (exceeds_one (read_settings show_object engine config).replicas ≡ false)))
      × Fits int32_limit (read_settings show_object engine config).replicas
      × (((read_settings show_object engine config).pdb.max_unavailable ≡ none)
          ⊎ ((read_settings show_object engine config).pdb.min_available ≡ none))
unfolding read_settings read_replicas read_pdb
read_settings-eq-nil show_object engine config h =
    let tls = (checked skip_tls_warning_key (checked dispatch_enabled_key config).2).2 in
    let replicas = read_replicas show_object engine tls in
    let skip = checked skip_migrations_key replicas.2 in
    let labels = checked_set "pod" "label" extra_pod_labels_key skip.2 in
    let annotations = checked_set "pod" "annotation" extra_pod_annotations_key labels.3 in
    let account =
      checked_set "service account" "annotation" extra_service_account_annotations_key
        annotations.3 in
    let (replica, h1) = append-eq-nil replicas.1 _ h in
    let h2 = (append-eq-nil skip.1 _ h1).1 in
    let h3 = (append-eq-nil labels.1 _ h2).1 in
    let h4 = (append-eq-nil annotations.1 _ h3).1 in
    let h5 = (append-eq-nil account.1 _ h4).1 in
    (
      elim (too_many-eq-nil _ _ _ replica) [
        | inl other ↦ inl other
        | inr few ↦ elim (Bool-cases (engine == "memory")) [
          | inl e ↦ inr (rw e refl, few)
          | inr other ↦ inl other
        ]
      ],
      pop_int_of-Fits (engine == "memory") _,
      read_pdb_value-eq-nil _ h5,
    )
  where
    pop_int_of-Fits :
        (b : Bool) (rest : RawConfig)
        → Fits int32_limit
            (pop_int show_object (if b then replicas_key_for_memory else replicas_key) rest).value
    pop_int_of-Fits true rest =
        (pop_int-Fits show_object replicas_key_for_memory rest (omega arith)).0
    pop_int_of-Fits false rest = (pop_int-Fits show_object replicas_key rest (omega arith)).0

module _ {Meta : Type 0} (lib : PatchLibrary Meta) (ops : ConditionOps)
    (show_object : Map Scalar → String) where
  draft-Sound :
      (cluster : Cluster) (secrets : Secrets) (r : Read) (target : Target)
      → (draft lib ops show_object cluster secrets r target).errors ≡ []
      → Sound secrets (draft lib ops show_object cluster secrets r target).config
  unfolding draft make_migration_config make_spice_config
  draft-Sound cluster secrets r target h =
      let (engine, h1) = append-eq-nil _ _ h in
      let (_, h2) = append-eq-nil _ _ h1 in
      let (image, h3) = append-eq-nil _ _ h2 in
      let (_, h4) = append-eq-nil _ _ h3 in
      let (credentials, settings) = append-eq-nil _ _ h4 in
      let (memory, fits, pdb) =
        read_settings-eq-nil show_object r.texts.datastore_engine r.rest settings in
      let (uri, key) =
        resolve_credentials-IsRead r.texts.datastore_engine secrets cluster.spec credentials in
      (
        engine_errors-eq-nil r.texts.datastore_engine engine,
        image_errors-eq-nil target.base_image target.state image,
        memory,
        fits,
        pdb,
        elim (Bool-cases (r.texts.datastore_engine == "memory")) [
          | inl e ↦ inl e
          | inr other ↦ inr (uri other)
        ],
        key,
      )

  -- A configuration that is returned is sound: its engine and image are given; with the memory
  -- engine it has one replica at most and the field `dispatch_enabled` is false, whatever a setting
  -- of the user passes on; the replicas fit an int32; the disruption budget has one bound at most;
  -- the datastore URI, unless the engine is memory, and the preshared key are each skipped or the
  -- value that its secret holds. Migration secrets are not read.
  pub new_config-Sound :
      (unmarshal : String → Option RawConfig) (objects : Config → List (Option String))
      (operator : OperatorConfig) (cluster : Cluster) (secrets : Secrets) {o : Outcome}
      {made : Config}
      → new_config lib ops show_object unmarshal objects operator cluster secrets ≡ ok o
      → o.config ≡ some made
      → Sound secrets made
  new_config-Sound unmarshal objects operator cluster secrets e h =
      let (config, target, _, _, errors, same) =
        new_config-eq-some lib ops show_object unmarshal objects operator cluster secrets e h in
      subst (Sound secrets) same (draft-Sound cluster secrets (read_first config) target errors)
