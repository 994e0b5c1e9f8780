-- ===== src/Config/NewConfig/Lookups.antt =====
-- The keys that the stages of `NewConfig` take and set, and what they leave of the others
-- (pkg/config/config.go).
use spicedb_operator.Base.{
  All, Bool, List, String, [], drop, false, if◌then◌else◌, map, none, not, refl, true, ◌&&◌, ◌==◌,
  ◌∙◌, ◌∷◌, ◌≡◌,
}
use spicedb_operator.Base.Map.{Map, delete, has, insert, lookup, lookup-delete, lookup-insert}
use spicedb_operator.Base.Text.{joined}
use spicedb_operator.Config.Defaults.{replicas_key, replicas_key_for_memory}
use spicedb_operator.Config.Keys.{TextKey, pop_bool, pop_int, pop_set, pop_text}
use spicedb_operator.Config.Literals.{own_settings, put_if, tls_path_keys}
use spicedb_operator.Config.Passthrough.{pop_onto}
use spicedb_operator.Config.Readings.{Settings, read_first, read_settings}
use spicedb_operator.Config.Stages.{
  Texts, checked, checked_set, defaulting, drop_ignored, read_pdb, read_replicas, read_texts,
}
use spicedb_operator.Config.Types.{ignored_key}
use spicedb_operator.Config.Values.{RawConfig, Scalar, format_bool}

-- The keys that the code takes before the release is chosen, and those that it takes after it.
abbrev pub first_keys : List String
first_keys =
    "version" ∷ "channel" ∷ "tlsSecretName" ∷ "serviceAccountName" ∷ "dispatchUpstreamCASecretName"
    ∷ "dispatchUpstreamCAFilePath" ∷ "telemetryCASecretName" ∷ "envPrefix" ∷ "cmd" ∷ "logLevel"
    ∷ "migrationLogLevel" ∷ "spannerCredentials" ∷ "datastoreTLSSecretName" ∷ "targetMigration"
    ∷ "datastoreMigrationPhase" ∷ "datastoreEngine" ∷ "projectLabels" ∷ "projectAnnotations"
    ∷ "image" ∷ []

abbrev pub settings_keys : List String
settings_keys =
    "dispatchEnabled" ∷ "skipTLSWarning" ∷ "replicas" ∷ "skipMigrations" ∷ "extraPodLabels"
    ∷ "extraPodAnnotations" ∷ "extraServiceAccountAnnotations" ∷ "pdb" ∷ []

-- The settings that the code sets itself.
abbrev pub own_keys : List String
own_keys =
    "datastoreEngine" ∷ "dispatchClusterEnabled" ∷ "datastoreSpannerCredentials"
    ∷ "dispatchUpstreamCAPath" ∷ "telemetryCAOverridePath" ∷ "datastoreMigrationPhase"
    ∷ "terminationLogPath" ∷ []

-- The paths of the TLS files.
abbrev pub path_keys : List String
path_keys = map (λ k. k.key) tls_path_keys

-- The key is none of these.
abbrev pub NoneOf : List String → String → Type 0
NoneOf ks j = All (λ k. (k == j) ≡ false) ks

lookup-delete-other {ℓ} :
    {V : Type ℓ} (k j : String) (m : Map V) → (k == j) ≡ false → lookup j (delete k m) ≡ lookup j m
lookup-delete-other k j m h = lookup-delete k j m ∙ rw h refl

-- The map without the keys.
abbrev pub delete_all {ℓ} : {V : Type ℓ} → List String → Map V → Map V
delete_all [] m = m
delete_all (k ∷ ks) m = delete_all ks (delete k m)

pub lookup-delete_all {ℓ} :
    {V : Type ℓ} (j : String) (ks : List String) (m : Map V)
    → NoneOf ks j
    → lookup j (delete_all ks m) ≡ lookup j m
lookup-delete_all j [] m h = refl
lookup-delete_all j (k ∷ ks) m (other, h) =
    lookup-delete_all j ks (delete k m) h ∙ lookup-delete-other k j m other

pub lookup-drop_ignored :
    (j : String) (ks : List String) (config : RawConfig)
    → NoneOf ks j
    → lookup j (drop_ignored ks config).1 ≡ lookup j config
unfolding drop_ignored
lookup-drop_ignored j [] config h = refl
lookup-drop_ignored j (k ∷ ks) config (other, h) =
    elim (has k config)
      as (λ b.
        lookup j
          (if b
            then (
              ignored_key k ∷ (drop_ignored ks (delete k config)).0,
              (drop_ignored ks (delete k config)).1,
            )
            else drop_ignored ks config).1
        ≡ lookup j config) [
          | true ↦
              lookup-drop_ignored j ks (delete k config) h ∙ lookup-delete-other k j config other
          | false ↦ lookup-drop_ignored j ks config h
        ]

lookup-put_if :
    (b : Bool) (k j v : String) (m : Map String)
    → (k == j) ≡ false
    → lookup j (put_if b k v m) ≡ lookup j m
lookup-put_if true k j v m h = lookup-insert k j v m ∙ rw h refl
lookup-put_if false k j v m h = refl

lookup-pop_onto :
    (j : String) (ks : List TextKey) (p : Map String) (config : RawConfig)
    → NoneOf (map (λ k. k.key) ks) j
    → (lookup j (pop_onto ks p config).0 ≡ lookup j p)
      × (lookup j (pop_onto ks p config).1 ≡ lookup j config)
unfolding pop_onto pop_text
lookup-pop_onto j [] p config h = (refl, refl)
lookup-pop_onto j (k ∷ ks) p config (other, h) =
    let v = (pop_text k config).0 in
    let (set, left) = lookup-pop_onto j ks (insert k.key v p) (delete k.key config) h in
    (set ∙ lookup-put_if true k.key j v p other, left ∙ lookup-delete-other k.key j config other)

pub lookup-read_first :
    (j : String) (config : RawConfig)
    → NoneOf first_keys j
    → lookup j (read_first config).rest ≡ lookup j config
unfolding read_first read_texts defaulting pop_text pop_bool
lookup-read_first j config (version, (channel, h)) =
    lookup-delete_all j (drop 2 first_keys) (drop_ignored ("version" ∷ "channel" ∷ []) config).1 h
    ∙ lookup-drop_ignored j ("version" ∷ "channel" ∷ []) config (version, (channel, tt))

pub lookup-read_settings :
    (show_object : Map Scalar → String) (engine j : String) (config : RawConfig)
    → NoneOf settings_keys j
    → lookup j (read_settings show_object engine config).rest ≡ lookup j config
unfolding read_settings read_replicas read_pdb checked checked_set pop_bool pop_int pop_set
lookup-read_settings show_object engine j config h = go (engine == "memory")
  where
    go :
        (b : Bool)
        → lookup j (
            delete_all (drop 3 settings_keys) (
              delete
                (if b then replicas_key_for_memory else replicas_key).key
                (delete "skipTLSWarning" (delete "dispatchEnabled" config))))
          ≡ lookup j config
    go true = lookup-delete_all j settings_keys config h
    go false = lookup-delete_all j settings_keys config h

pub lookup-own_settings :
    (j phase : String) (t : Texts) (s : Settings) (config : RawConfig)
    → NoneOf own_keys j
    → NoneOf path_keys j
    → (lookup j (own_settings t s phase config).0 ≡ none)
      × (lookup j (own_settings t s phase config).2 ≡ lookup j config)
unfolding own_settings lookup
lookup-own_settings j phase t s config
      (engine, (dispatch, (spanner, (ca, (telemetry, (migration, _)))))) paths =
    go (not (t.tls_secret_name == ""))
  where
    first : Map String
    first =
        put_if (not (t.spanner_credentials == "")) "datastoreSpannerCredentials"
          "/spanner-credentials/credentials.json"
          (insert "dispatchClusterEnabled" (format_bool s.dispatch_enabled)
            (insert "datastoreEngine" t.datastore_engine []))

    first-none : lookup j first ≡ none
    first-none =
        lookup-put_if (not (t.spanner_credentials == "")) "datastoreSpannerCredentials" j _ _
          spanner
        ∙ (lookup-put_if true "dispatchClusterEnabled" j (format_bool s.dispatch_enabled) _ dispatch
            ∙ lookup-put_if true "datastoreEngine" j t.datastore_engine [] engine)

    after :
        (m : Map String)
        → lookup j m ≡ none
        → lookup j (
            put_if (not (phase == "")) "datastoreMigrationPhase" phase (
              put_if
                (not (t.telemetry_ca == ""))
                "telemetryCAOverridePath"
                "/telemetry-tls/tls.crt"
                (put_if
                  (not (t.dispatch_ca == "") && s.dispatch_enabled)
                  "dispatchUpstreamCAPath"
                  (joined "/dispatch-tls/" t.dispatch_ca_file_path)
                  m)))
          ≡ none
    after m h =
        lookup-put_if (not (phase == "")) "datastoreMigrationPhase" j phase _ migration
        ∙ (lookup-put_if (not (t.telemetry_ca == "")) "telemetryCAOverridePath" j _ _ telemetry
            ∙ (lookup-put_if (not (t.dispatch_ca == "") && s.dispatch_enabled)
                  "dispatchUpstreamCAPath" j _ m ca
                ∙ h))

    go :
        (b : Bool)
        → (lookup j (
              put_if (not (phase == "")) "datastoreMigrationPhase" phase (
                put_if
                  (not (t.telemetry_ca == ""))
                  "telemetryCAOverridePath"
                  "/telemetry-tls/tls.crt"
                  (put_if
                    (not (t.dispatch_ca == "") && s.dispatch_enabled)
                    "dispatchUpstreamCAPath"
                    (joined "/dispatch-tls/" t.dispatch_ca_file_path)
                    (if b then (pop_onto tls_path_keys first config).0 else first))))
            ≡ none)
          × (lookup j (if b then (pop_onto tls_path_keys first config).1 else config)
              ≡ lookup j config)
    go true =
        let (set, left) = lookup-pop_onto j tls_path_keys first config paths in
        (after _ (set ∙ first-none), left)
    go false = (after first first-none, refl)
