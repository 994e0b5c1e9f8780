-- ===== src/Config/Passthrough.antt =====
-- The settings that `NewConfig` passes on to SpiceDB as they are (pkg/config/config.go).
pub mod Stripped
pub mod Passed
use spicedb_operator.Base.{List, String, [], if◌then◌else◌, none, some, ◌==◌, ◌∷◌}
use spicedb_operator.Base.Map.{Map, delete, get_or, insert, lookup}
use spicedb_operator.Base.Text.{equal_fold}
use spicedb_operator.Config.Keys.{TextKey, pop_text}
use spicedb_operator.Config.Values.{RawConfig, Scalar, pop_any}

-- The keys that `range` visits.
unfoldable pub keys {ℓ} : {V : Type ℓ} → Map V → List String
keys [] = []
keys ((k, v) ∷ m) = k ∷ keys m

-- `for _, k := range passthroughKeys`
unfoldable pub pop_onto : List TextKey → Map String → RawConfig → Map String × RawConfig
pop_onto [] passthrough config = (passthrough, config)
pop_onto (k ∷ ks) passthrough config =
    let (value, rest) = pop_text k config in pop_onto ks (insert k.key value passthrough) rest

-- `for k := range config`, where a key that is gone is not visited
unfoldable pub pass_all : (Map Scalar → String) → List String → Map String → RawConfig → Map String
pass_all show_object [] passthrough config = passthrough
pass_all show_object (k ∷ ks) passthrough config =
    let gone = pass_all show_object ks passthrough config in
    let (value, rest) = pop_any show_object k config in
    let passed = pass_all show_object ks (insert k value passthrough) rest in
    elim (lookup k config) [ none ↦ gone | some v ↦ passed ]

-- `stripValues`
abbrev pub strip_values : List String
strip_values =
    "datastoreConnUri" ∷ "grpcPresharedKey" ∷ "presharedKey" ∷ "preshared_key" ∷ "datastore_uri"
    ∷ []

-- The loop over the sensitive names, for one key.
unfoldable pub strip_key : String → List String → Map String → Map String
strip_key k [] passthrough = passthrough
strip_key k (s ∷ names) passthrough =
    let rest = strip_key k names in
    if equal_fold k s then rest (delete k passthrough) else rest passthrough

-- The loop over the keys.
unfoldable pub strip_all : List String → Map String → Map String
strip_all [] passthrough = passthrough
strip_all (k ∷ ks) passthrough = strip_all ks (strip_key k strip_values passthrough)

-- The termination log path as Kubernetes has it.
unfoldable pub with_log_path : Map String → Map String
with_log_path passthrough =
    if get_or "" "terminationLogPath" passthrough == ""
    then insert "terminationLogPath" "/dev/termination-log" passthrough
    else passthrough

-- From the rest of the configuration to the end of the settings.
unfoldable pub finish_passthrough : (Map Scalar → String) → Map String → RawConfig → Map String
finish_passthrough show_object passthrough config =
    let passed = pass_all show_object (keys config) passthrough config in
    with_log_path (strip_all (keys passed) passed)
