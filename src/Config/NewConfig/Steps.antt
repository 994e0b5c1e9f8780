-- ===== src/Config/NewConfig/Steps.antt =====
-- What `NewConfig` did where it returned a configuration (pkg/config/config.go).
use spicedb_operator.Base.{
  List, Option, Result, String, [], append-eq-nil, err, none, ok, panic, refl, some, timeout, ◌++◌,
  ◌>>=◌, ◌∷◌, ◌≡◌,
}
use spicedb_operator.Base.Map.{Map}
use spicedb_operator.Api.Cluster.{Cluster}
use spicedb_operator.Api.Condition.{ConditionOps}
use spicedb_operator.Config.Credentials.{Secrets}
use spicedb_operator.Config.NewConfig.{
  Checks, Draft, check_objects, draft, finish, finished, from_raw, new_config, outcome, target_for,
  with_target,
}
use spicedb_operator.Config.Patches.{PatchLibrary}
use spicedb_operator.Config.Readings.{read_first}
use spicedb_operator.Config.Types.{
  Config, ConfigError, ConfigWarning, OperatorConfig, Outcome, empty_config,
}
use spicedb_operator.Config.Values.{RawConfig, Scalar}
use spicedb_operator.Updates.Target.{Target}
use spicedb_operator.Updates.Types.{Error}

outcome-eq-some :
    (config made : Config) (errors : List ConfigError) (warnings : List ConfigWarning)
    → (outcome config errors warnings).config ≡ some made
    → (errors ≡ []) × (config ≡ made)
unfolding outcome
outcome-eq-some config made [] warnings h = (refl, cc)
outcome-eq-some config made (e ∷ errors) warnings h = cc

finished-eq-ok :
    (d : Draft) (r : Result ConfigError Checks) (o : Outcome) (made : Config)
    → (r >>= λ c. ok (finished d c)) ≡ ok o
    → o.config ≡ some made
    → (d.errors ≡ []) × (d.config ≡ made)
unfolding finished
finished-eq-ok d (ok c) o made e h =
    let same : (finished d c).config ≡ some made = cc in
    let (errors, made_so) = outcome-eq-some d.config made (d.errors ++ c.errors) _ same in
    ((append-eq-nil d.errors c.errors errors).0, made_so)
finished-eq-ok d (err x) o made e h = cc
finished-eq-ok d panic o made e h = cc
finished-eq-ok d timeout o made e h = cc

-- The raw configuration of a cluster.
abbrev pub unmarshal_text : (String → Option RawConfig) → Option String → Option RawConfig
unmarshal_text unmarshal none = none
unmarshal_text unmarshal (some text) = unmarshal text

module _ {Meta : Type 0} (lib : PatchLibrary Meta) (ops : ConditionOps)
    (show_object : Map Scalar → String) where
  finish-eq-ok :
      (objects : Config → List (Option String)) (d : Draft) {o : Outcome} {made : Config}
      → finish lib ops show_object objects d ≡ ok o
      → o.config ≡ some made
      → (d.errors ≡ []) × (d.config ≡ made)
  unfolding finish
  finish-eq-ok objects d {o} {made} e h =
      finished-eq-ok d (check_objects lib ops show_object (objects d.config) d.config.patches) o
        made e h

  -- The draft of the raw configuration for the release that `ComputeTarget` chose, without errors.
  abbrev pub IsDraft : OperatorConfig → Cluster → Secrets → Config → Option RawConfig → Type 0
  IsDraft operator cluster secrets made raw =
      (config : RawConfig) × (target : Target) × (raw ≡ some config)
      × (target_for lib ops show_object operator cluster (read_first config) ≡ ok target)
      × ((draft lib ops show_object cluster secrets (read_first config) target).errors ≡ [])
      × ((draft lib ops show_object cluster secrets (read_first config) target).config ≡ made)

  -- The configuration is the draft of the release that `ComputeTarget` chose, without errors.
  pub new_config-eq-some :
      (unmarshal : String → Option RawConfig) (objects : Config → List (Option String))
      (operator : OperatorConfig) (cluster : Cluster) (secrets : Secrets) {o : Outcome}
      {made : Config}
      → new_config lib ops show_object unmarshal objects operator cluster secrets ≡ ok o
      → o.config ≡ some made
      → IsDraft operator cluster secrets made (unmarshal_text unmarshal cluster.spec.config)
  unfolding new_config from_raw with_target
  new_config-eq-some unmarshal objects operator cluster secrets {o} {made} =
      start cluster.spec.config
    where
      chosen :
          (config : RawConfig) (r : Result Error Target)
          → target_for lib ops show_object operator cluster (read_first config) ≡ r
          → with_target lib ops show_object objects cluster secrets (read_first config) r ≡ ok o
          → o.config ≡ some made
          → IsDraft operator cluster secrets made (some config)
      chosen config (ok target) t e h =
          let (errors, same) = finish-eq-ok objects _ e h in (config, target, refl, t, errors, same)
      chosen config (err x) t e h = cc
      chosen config panic t e h = cc
      chosen config timeout t e h = cc

      unmarshalled :
          (raw : Option RawConfig)
          → from_raw lib ops show_object objects operator cluster secrets raw ≡ ok o
          → o.config ≡ some made
          → IsDraft operator cluster secrets made raw
      unmarshalled none e h = cc
      unmarshalled (some config) e h = chosen config _ refl e h

      start :
          (text : Option String)
          → (elim text as (λ _. Result ConfigError Outcome) [
            | none ↦ ok (record { config = none; warnings = []; errors = empty_config ∷ [] })
            | some text ↦
                from_raw lib ops show_object objects operator cluster secrets (unmarshal text)
          ])
            ≡ ok o
          → o.config ≡ some made
          → IsDraft operator cluster secrets made (unmarshal_text unmarshal text)
      start none e h = cc
      start (some text) e h = unmarshalled (unmarshal text) e h
