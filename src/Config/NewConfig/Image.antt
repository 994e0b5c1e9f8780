-- ===== src/Config/NewConfig/Image.antt =====
-- The image of a configuration that names one (pkg/config/config.go, pkg/updates/file.go).
use Prim.Native.Char.{char}
use spicedb_operator.Base.{
  Bool, List, Option, String, [], ap, drop, false, inl, inr, none, not, ok, refl, some, sym,
  take_while, true, ◌==◌, ◌||◌, ◌∙◌, ◌∷◌, ◌≡◌, ◌⊎◌,
}
use spicedb_operator.Base.Map.{Map, lookup}
use spicedb_operator.Base.Text.{joined}
use spicedb_operator.Base.Text.Laws.{Lacks, Lacks-joined, cut-joined, cut_whole}
use spicedb_operator.Api.Cluster.{Cluster, rollout_in_progress}
use spicedb_operator.Api.Condition.{ConditionOps}
use spicedb_operator.Api.Version.{Version}
use spicedb_operator.Config.Credentials.{Secrets}
use spicedb_operator.Config.Keys.{peek, pop_bool, pop_text, text_or}
use spicedb_operator.Config.Literals.{make_migration_config, target_image}
use spicedb_operator.Config.NewConfig.{draft, new_config, target_for}
use spicedb_operator.Config.NewConfig.Lookups.{first_keys, lookup-delete_all, lookup-drop_ignored}
use spicedb_operator.Config.NewConfig.Steps.{new_config-eq-some, unmarshal_text}
use spicedb_operator.Config.Patches.{PatchLibrary}
use spicedb_operator.Config.Readings.{read_first}
use spicedb_operator.Config.Stages.{defaulting, read_texts}
use spicedb_operator.Config.Types.{Config, OperatorConfig, Outcome}
use spicedb_operator.Config.Values.{RawConfig, Scalar, Value, leaf, str}
use spicedb_operator.Updates.Target.{compute_target, explode_image, without_target}
use spicedb_operator.Updates.Types.{UpdateGraph, empty_state}

-- An image with a tag, or with a digest, whose name has no separator.
abbrev pub Pinned : String → Type 0
Pinned image =
    (base : String) × (label : String) × ((label == "") ≡ false)
    × Lacks b':' base
    × Lacks b'@' base
    × (((image ≡ joined base (String.◌∷◌ (char 58 tt) label)) × Lacks b'@' label)
        ⊎ (image ≡ joined base (String.◌∷◌ (char 64 tt) label)))

explode_image-tag :
    (base tag : String)
    → Lacks b':' base
    → Lacks b'@' base
    → Lacks b'@' tag
    → explode_image (joined base (String.◌∷◌ (char 58 tt) tag)) ≡ (base, tag, "")
unfolding explode_image
explode_image-tag base tag colon at tag_at =
    rw
      (
        cut_whole b'@' (joined base (String.◌∷◌ (char 58 tt) tag))
            (Lacks-joined b'@' base (String.◌∷◌ (char 58 tt) tag) at (refl, tag_at)),
        cut-joined b':' (char 58 tt) base tag refl colon,
      )
      refl

explode_image-digest :
    (base digest : String)
    → Lacks b':' base
    → Lacks b'@' base
    → explode_image (joined base (String.◌∷◌ (char 64 tt) digest)) ≡ (base, "", digest)
unfolding explode_image
explode_image-digest base digest colon at =
    rw (cut-joined b'@' (char 64 tt) base digest refl at, cut_whole b':' base colon) refl

-- Such an image is the target, whatever the channels say.
compute_target-exploded :
    (g : UpdateGraph) (operator_image cluster_base_image image version channel engine : String)
    (current : Option Version) (rolling : Bool) (base tag digest : String)
    → explode_image image ≡ (base, tag, digest)
    → (not (digest == "") || not (tag == "")) ≡ true
    → compute_target g operator_image cluster_base_image image version channel engine current
        rolling
      ≡ without_target base (record empty_state { tag = tag; digest = digest }) none
unfolding compute_target
compute_target-exploded g operator_image cluster_base_image image version channel engine current
      rolling base tag digest exploded given =
    rw (exploded, given) refl

target_image-Pinned :
    (image : String)
    → Pinned image
    → (base : String) × (tag : String) × (digest : String) × (explode_image image
        ≡ (base, tag, digest))
      × ((not (digest == "") || not (tag == "")) ≡ true)
      × (target_image base (record empty_state { tag = tag; digest = digest }) ≡ image)
unfolding target_image
target_image-Pinned image (base, label, given, colon, at, inl (same, label_at)) = (
  base,
  label,
  "",
  ap explode_image same ∙ explode_image-tag base label colon at label_at,
  rw given refl,
  rw given (sym same),
)
target_image-Pinned image (base, label, given, colon, at, inr same) = (
  base,
  "",
  label,
  ap explode_image same ∙ explode_image-digest base label colon at,
  rw given refl,
  rw given (sym same),
)

read_first-image :
    (image : String) (config : RawConfig)
    → lookup "image" config ≡ some (leaf (str image))
    → (read_first config).image ≡ image
unfolding read_first read_texts defaulting pop_text pop_bool peek text_or
read_first-image image config h = ap found (
    lookup-delete_all "image" (take_while (λ k. not (k == "image")) (drop 2 first_keys)) _ (
      refl,
      (
        refl,
        (
          refl,
          (
            refl,
            (
              refl,
              (
                refl,
                (refl, (refl, (refl, (refl, (refl, (refl, (refl, (refl, (refl, (refl, tt)))))))))),
              ),
            ),
          ),
        ),
      ),
    )
    ∙ (lookup-drop_ignored "image" ("version" ∷ "channel" ∷ []) config (refl, (refl, tt)) ∙ h))
  where
    found : Option Value → String
    found o = text_or "" (elim o as (λ _. Value) [ none ↦ leaf (str "") | some v ↦ v ])

module _ {Meta : Type 0} (lib : PatchLibrary Meta) (ops : ConditionOps)
    (show_object : Map Scalar → String) where
  -- Where the configuration names an image with a tag or a digest, that image runs, as it is
  -- written: neither a channel nor a base image has a say.
  pub new_config-runs_image :
      (unmarshal : String → Option RawConfig) (objects : Config → List (Option String))
      (operator : OperatorConfig) (cluster : Cluster) (secrets : Secrets) {o : Outcome}
      {made : Config} {text image : String} {config : RawConfig}
      → new_config lib ops show_object unmarshal objects operator cluster secrets ≡ ok o
      → o.config ≡ some made
      → cluster.spec.config ≡ some text
      → unmarshal text ≡ some config
      → lookup "image" config ≡ some (leaf (str image))
      → Pinned image
      → made.migration_config.target_spice_db_image ≡ image
  unfolding target_for draft make_migration_config
  new_config-runs_image unmarshal objects operator cluster secrets {made} {image} {config} e h given
        raw named pinned =
      let (found, target, origin, chosen, _, same) =
        new_config-eq-some lib ops show_object unmarshal objects operator cluster secrets e h in
      let unmarshalled : some found ≡ some config =
        sym origin ∙ (ap (unmarshal_text unmarshal) given ∙ raw) in
      let the_same : found ≡ config = cc in
      let (base, tag, digest, exploded, written, whole) = target_image-Pinned image pinned in
      let r = read_first found in
      let read : r.image ≡ image =
        ap (λ c. (read_first c).image) the_same ∙ read_first-image image config named in
      let computed =
        compute_target-exploded operator.update_graph operator.image_name cluster.spec.base_image
          r.image cluster.spec.version cluster.spec.channel r.texts.datastore_engine
          cluster.status.current_version (rollout_in_progress ops cluster) base tag digest
          (ap explode_image read ∙ exploded) written in
      let target_is : without_target base (record empty_state { tag = tag; digest = digest }) none
          ≡ ok target =
        sym computed ∙ chosen in
      let state_is : target.state ≡ record empty_state { tag = tag; digest = digest } = cc in
      let base_is : target.base_image ≡ base = cc in
      ap (λ c. c.migration_config.target_spice_db_image) (sym same)
      ∙ (ap (λ b. target_image b target.state) base_is ∙ (ap (target_image base) state_is ∙ whole))
