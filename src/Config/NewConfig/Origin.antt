-- ===== src/Config/NewConfig/Origin.antt =====
-- The settings of the user that reach SpiceDB, and those that do not (pkg/config/config.go).
use spicedb_operator.Base.{
  List, Option, String, any, ap, false, ne_of_test, none, ok, refl, some, subst, subst₂, sym,
  test_of_ne, true, ◌∙◌, ◌≡◌,
}
use spicedb_operator.Base.Map.{Map, lookup}
use spicedb_operator.Base.Text.{equal_fold}
use spicedb_operator.Api.Cluster.{Cluster}
use spicedb_operator.Api.Condition.{ConditionOps}
use spicedb_operator.Config.Credentials.{Secrets}
use spicedb_operator.Config.Literals.{make_spice_config, own_settings}
use spicedb_operator.Config.NewConfig.{draft, new_config}
use spicedb_operator.Config.NewConfig.Lookups.{
  NoneOf, first_keys, lookup-own_settings, lookup-read_first, lookup-read_settings, own_keys,
  path_keys, settings_keys,
}
use spicedb_operator.Config.NewConfig.Steps.{new_config-eq-some, unmarshal_text}
use spicedb_operator.Config.Passthrough.{strip_values}
use spicedb_operator.Config.Passthrough.Passed.{
  finish_passthrough-hides, finish_passthrough-keeps, passed_or,
}
use spicedb_operator.Config.Patches.{PatchLibrary}
use spicedb_operator.Config.Readings.{read_first, read_settings}
use spicedb_operator.Config.Types.{Config, OperatorConfig, Outcome}
use spicedb_operator.Config.Values.{RawConfig, Scalar, Value, print_value}
use spicedb_operator.Updates.Target.{Target}

module _ {Meta : Type 0} (lib : PatchLibrary Meta) (ops : ConditionOps)
    (show_object : Map Scalar → String) where
  -- No setting whose key is that of a secret value, in upper or lower case, reaches SpiceDB.
  pub new_config-hides :
      (unmarshal : String → Option RawConfig) (objects : Config → List (Option String))
      (operator : OperatorConfig) (cluster : Cluster) (secrets : Secrets) {o : Outcome}
      {made : Config}
      → new_config lib ops show_object unmarshal objects operator cluster secrets ≡ ok o
      → o.config ≡ some made
      → (j : String) → any (equal_fold j) strip_values ≡ true
      → lookup j made.spice_config.passthrough ≡ none
  unfolding draft make_spice_config
  new_config-hides unmarshal objects operator cluster secrets e h j hidden =
      let (config, target, _, _, _, same) =
        new_config-eq-some lib ops show_object unmarshal objects operator cluster secrets e h in
      subst (λ c. lookup j c.spice_config.passthrough ≡ none) same
        (finish_passthrough-hides show_object j _ _ hidden)

  -- The text of a value, where there is one.
  abbrev printed : Option Value → Option String
  printed none = none
  printed (some v) = some (print_value show_object v)

  draft-passes_on :
      (cluster : Cluster) (secrets : Secrets) (config : RawConfig) (target : Target) (j : String)
      → any (equal_fold j) strip_values ≡ false
      → NoneOf first_keys j
      → NoneOf settings_keys j
      → NoneOf path_keys j
      → NoneOf own_keys j
      → lookup j
          (draft lib ops show_object cluster secrets
            (read_first config)
            target).config.spice_config.passthrough
        ≡ printed (lookup j config)
  unfolding draft make_spice_config
  draft-passes_on cluster secrets config target j plain first settings paths
        (engine, (dispatch, (spanner, (ca, (telemetry, (migration, (log, _))))))) =
      let r = read_first config in
      let s = read_settings show_object r.texts.datastore_engine r.rest in
      let set = own_settings r.texts s target.state.phase s.rest in
      let (unset, left) =
        lookup-own_settings j target.state.phase r.texts s s.rest
          (engine, (dispatch, (spanner, (ca, (telemetry, (migration, (log, tt))))))) paths in
      finish_passthrough-keeps show_object j set.0 set.2 plain
        (test_of_ne j "terminationLogPath" (λ e. ne_of_test "terminationLogPath" j log (sym e)))
      ∙ (ap (λ x. passed_or show_object x (lookup j set.2)) unset
          ∙ (same_as (lookup j set.2)
              ∙ ap printed (
                  left
                  ∙ (lookup-read_settings show_object r.texts.datastore_engine j r.rest settings
                      ∙ lookup-read_first j config first))))
    where
      same_as : (v : Option Value) → passed_or show_object none v ≡ printed v
      same_as none = refl
      same_as (some v) = refl

  -- A setting of the user whose key is none of those that the operator reads or sets, and not
  -- that of a secret value, reaches SpiceDB as the text of its value, and none is made up.
  pub new_config-passes_on :
      (unmarshal : String → Option RawConfig) (objects : Config → List (Option String))
      (operator : OperatorConfig) (cluster : Cluster) (secrets : Secrets) {o : Outcome}
      {made : Config} {text : String} {config : RawConfig}
      → new_config lib ops show_object unmarshal objects operator cluster secrets ≡ ok o
      → o.config ≡ some made
      → cluster.spec.config ≡ some text
      → unmarshal text ≡ some config
      → (j : String) → any (equal_fold j) strip_values ≡ false
      → NoneOf first_keys j
      → NoneOf settings_keys j
      → NoneOf path_keys j
      → NoneOf own_keys j
      → lookup j made.spice_config.passthrough ≡ printed (lookup j config)
  new_config-passes_on unmarshal objects operator cluster secrets {made} {config} e h given raw j
        plain first settings paths own =
      let (found, target, origin, _, _, same) =
        new_config-eq-some lib ops show_object unmarshal objects operator cluster secrets e h in
      let unmarshalled : some found ≡ some config =
        sym origin ∙ (ap (unmarshal_text unmarshal) given ∙ raw) in
      let the_same : found ≡ config = cc in
      subst₂ (λ c d. lookup j c.spice_config.passthrough ≡ printed (lookup j d)) same the_same
        (draft-passes_on cluster secrets found target j plain first settings paths own)
