-- ===== src/Config/Env.antt =====
-- The environment of SpiceDB and of its migration (pkg/config/config.go). The splitting of a name
-- into its words, upper case, and the sort of the keys are functions of other packages.
use spicedb_operator.Base.{Bool, List, String, [], false, if◌then◌else◌, map, true, ◌++◌, ◌==◌, ◌∷◌}
use spicedb_operator.Base.Map.{Map, get_or}
use spicedb_operator.Base.Text.{joined}
use spicedb_operator.Config.Passthrough.{keys}
use spicedb_operator.Config.Types.{Config, ResolvedCredentialRef}

-- Where the value of a variable comes from.
pub data EnvValue : Type 0 where
  literal : String → EnvValue
  -- the field of the pod at a path
  field_ref : String → EnvValue
  -- a key of a secret, which may be left out if it is optional
  secret_key_ref : String → String → Bool → EnvValue

pub record EnvVar : Type 0 where
  pub name : String
  pub value : EnvValue

abbrev pub env_var : String → EnvValue → EnvVar
env_var name value = record { name = name; value = value }

-- `strings.TrimSuffix(s, "_")`
unfoldable pub trim_underscore : String → String
trim_underscore String.[] = ""
trim_underscore (String.◌∷◌ c s) =
    if String.◌∷◌ c s == "_" then "" else String.◌∷◌ c (trim_underscore s)

-- `strings.Join(parts, "_")`
unfoldable pub join_underscore : List String → String
join_underscore [] = ""
join_underscore (p ∷ []) = p
join_underscore (p ∷ (q ∷ ps)) = joined p (joined "_" (join_underscore (q ∷ ps)))

abbrev pub variable : String → String → String
variable env_prefix suffix = joined env_prefix suffix

-- A variable read from a secret, unless its credential is skipped.
abbrev pub from_ref : String → Bool → ResolvedCredentialRef → List EnvVar
from_ref name optional ref =
    if ref.skip then [] else env_var name (secret_key_ref ref.secret_name ref.key optional) ∷ []

module _ (words : String → List String) (upper : String → String)
    (sort : List String → List String) where
  -- `toEnvVarName`
  unfoldable pub to_env_var_name : String → String → String
  to_env_var_name env_prefix key =
      join_underscore (upper (trim_underscore env_prefix) ∷ map upper (words key))

  -- The settings that are passed on, by their sorted keys.
  unfoldable pub passthrough_env : String → Map String → List String → List EnvVar
  passthrough_env env_prefix passthrough [] = []
  passthrough_env env_prefix passthrough (k ∷ ks) =
      env_var (to_env_var_name env_prefix k) (literal (get_or "" k passthrough))
      ∷ passthrough_env env_prefix passthrough ks

  -- `toEnvVarApplyConfiguration`
  unfoldable pub to_env_var_apply_configuration : Config → List EnvVar
  to_env_var_apply_configuration c =
      let s = c.spice_config in
      env_var (variable s.env_prefix "_POD_NAME") (field_ref "metadata.name")
      ∷ env_var (variable s.env_prefix "_LOG_LEVEL") (literal s.log_level)
      ∷ (from_ref (variable s.env_prefix "_GRPC_PRESHARED_KEY") false s.preshared_key_ref
          ++ ((if c.migration_config.datastore_engine == "memory"
                then []
                else from_ref (variable s.env_prefix "_DATASTORE_CONN_URI") false
                    s.datastore_uri_ref)
              ++ ((if s.dispatch_enabled
                    then env_var (variable s.env_prefix "_DISPATCH_UPSTREAM_ADDR") (
                        literal (
                          joined "kubernetes:///"
                            (joined s.name (joined "." (joined s.namespace ":dispatch")))))
                      ∷ []
                    else [])
                  ++ passthrough_env s.env_prefix s.passthrough (sort (keys s.passthrough)))))

  -- The variables of `unpatchedMigrationJob`.
  unfoldable pub migration_env : Config → List EnvVar
  migration_env c =
      let s = c.spice_config in
      env_var (variable s.env_prefix "_LOG_LEVEL") (literal c.migration_config.migration_log_level)
      ∷ (from_ref (variable s.env_prefix "_DATASTORE_CONN_URI") false s.datastore_uri_ref
          ++ (from_ref (variable s.env_prefix "_SECRETS") true s.migration_secrets_ref
              ++ passthrough_env s.env_prefix s.passthrough (sort (keys s.passthrough))))
