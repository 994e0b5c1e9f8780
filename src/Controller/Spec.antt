-- ===== src/Controller/Spec.antt =====
-- `ValidateSpecHandler` (pkg/controller/validate_spec.go).
pub mod Valid
use Prim.Native.String.{◌++◌}
use spicedb_operator.Base.{
  Bool, List, Option, String, [], false, if◌then◌else◌, none, not, some, true, ◌&&◌, ◌==◌, ◌∷◌,
}
use spicedb_operator.Api.Condition.{
  Condition, Message, equal_messages, new_invalid_config_condition, type_validating,
  validating_failed,
}
use spicedb_operator.Api.Cluster.{
  Cluster, CredentialRef, ClusterCredentials, find_status_condition, set_status_condition,
  remove_status_condition,
}
use spicedb_operator.Controller.Types.{
  Context, Trace, Run, Server, Env, perform, finish, record_event, hand_on, next_handler, done,
  requeue_api_err, patch_status,
}

-- `existing != nil && existing.Message == failedCondition.Message`
unfoldable pub is_reported : Option Condition → Message → Bool
is_reported none message = false
is_reported (some c) message = equal_messages c.message message

-- The status with the failed condition, for the generation of the cluster.
unfoldable pub invalid_cluster : Env → Cluster → String → Cluster
invalid_cluster env cluster message =
    let status = record (cluster.status) { observed_generation = cluster.generation } in
    set_status_condition env.conditions
      (remove_status_condition env.conditions (record cluster { status = status }) type_validating)
      (new_invalid_config_condition "" message)

-- What the handler does about a spec that is not valid; both branches of the source do the same.
unfoldable pub reject : Env → Server → Context → String → Trace → Run
reject env server ctx message =
    let failed = new_invalid_config_condition "" message in
    if is_reported (find_status_condition env.conditions ctx.cluster validating_failed)
      failed.message
    then finish done
    else perform server (patch_status (invalid_cluster env ctx.cluster message)) requeue_api_err
        (record_event "InvalidSpiceDBSpec" (finish done))

-- `f.ref != nil && !f.ref.Skip && f.ref.SecretName == ""`
unfoldable pub lacks_name : Option CredentialRef → Bool
lacks_name none = false
lacks_name (some ref) = not ref.skip && ref.secret_name == ""

-- The loop over the fields: the message about the first that lacks its name.
unfoldable pub first_invalid : List (String × Option CredentialRef) → Option String
first_invalid [] = none
first_invalid ((name, ref) ∷ fs) =
    if lacks_name ref
    then some (name ++ ": secretName must be set when skip is false")
    else first_invalid fs

-- What is wrong with the spec, if anything.
unfoldable pub spec_error : Option ClusterCredentials → Bool → Option String
spec_error none b = none
spec_error (some creds) false =
    some "secretName and credentials are mutually exclusive; set only one"
spec_error (some creds) true = first_invalid (
    ("credentials.datastoreURI", creds.datastore_uri)
    ∷ ("credentials.presharedKey", creds.preshared_key)
    ∷ ("credentials.migrationSecrets", creds.migration_secrets)
    ∷ [])

unfoldable pub on_error : Env → Server → Context → Option String → Trace → Run
on_error env server ctx none = finish (hand_on next_handler ctx)
on_error env server ctx (some message) = reject env server ctx message

-- `ValidateSpecHandler.Handle`
unfoldable pub validate_spec : Env → Server → Context → Trace → Run
validate_spec env server ctx =
    on_error env server ctx
      (spec_error ctx.cluster.spec.credentials (ctx.cluster.spec.secret_ref == ""))
