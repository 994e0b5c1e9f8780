-- ===== src/Config/Tried.antt =====
-- The objects on which `NewConfig` tries the patches of a cluster ahead of time
-- (pkg/config/config.go), which is the list of objects that `new_config` takes. Their JSON and the
-- hash of the empty text are parameters.
use spicedb_operator.Base.{List, Option, String, [], map, ◌∷◌}
use spicedb_operator.Config.Objects.{unpatched_deployment, unpatched_migration_job}
use spicedb_operator.Config.Owned.{
  Role, RoleBinding, Service, ServiceAccount, unpatched_role, unpatched_role_binding,
  unpatched_service, unpatched_service_account,
}
use spicedb_operator.Config.Types.{Config}
use spicedb_operator.Config.Workloads.{ObjectLibrary, Workload}

pub data Tried : Type 0 where
  account : ServiceAccount → Tried
  a_role : Role → Tried
  binding : RoleBinding → Tried
  a_service : Service → Tried
  job : Workload → Tried
  a_deployment : Workload → Tried

module _ (ops : ObjectLibrary) (empty_hash : String) where
  unfoldable pub tried_objects : Config → List Tried
  tried_objects c =
      account (unpatched_service_account ops c)
      ∷ a_role (unpatched_role ops c)
      ∷ binding (unpatched_role_binding ops c)
      ∷ a_service (unpatched_service ops c)
      ∷ job (unpatched_migration_job ops c empty_hash)
      ∷ a_deployment (unpatched_deployment ops c empty_hash empty_hash)
      ∷ []

  -- The JSON of each, none where `json.Marshal` fails.
  unfoldable pub encoded_objects : (Tried → Option String) → Config → List (Option String)
  encoded_objects encode c = map encode (tried_objects c)
