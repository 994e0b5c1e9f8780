-- ===== src/Config/Owned.antt =====
-- The service account, the role, its binding, and the service of a configuration
-- (pkg/config/config.go). What `ApplyPatches` leaves of an object is a function of it.
pub mod Kept
use spicedb_operator.Base.{List, Option, String, [], none, some, ℕ, ◌++◌, ◌∷◌}
use spicedb_operator.Base.Map.{Map}
use spicedb_operator.Config.Objects.{common, container_ports, own_labels, owner_ref}
use spicedb_operator.Config.Types.{Config}
use spicedb_operator.Config.Workloads.{ObjectLibrary, OwnerReference}

pub record Meta : Type 0 where
  pub name : String
  pub namespace : String
  pub owners : List OwnerReference
  pub labels : Map String
  pub annotations : Map String

pub record PolicyRule : Type 0 where
  pub api_groups : List String
  pub resources : List String
  pub verbs : List String

pub record ServiceAccount : Type 0 where
  pub meta : Meta

pub record Role : Type 0 where
  pub meta : Meta
  pub rules : List PolicyRule

-- The kind and the name of the role, and the namespaces and names of the service accounts.
pub record RoleBinding : Type 0 where
  pub meta : Meta
  pub role_ref : String × String
  pub subjects : List (String × String)

pub record ServiceSpec : Type 0 where
  pub selector : Map String
  pub ports : List (String × ℕ)

pub record Service : Type 0 where
  pub meta : Meta
  pub spec : Option ServiceSpec

abbrev pub read_rule : String → String → PolicyRule
read_rule group resource = record {
  api_groups = group ∷ [];
  resources = resource ∷ [];
  verbs = "get" ∷ "list" ∷ "watch" ∷ [];
}

module _ (ops : ObjectLibrary) where
  -- The metadata before the patches, and what is put back after them.
  unfoldable pub fresh_meta : Config → String → String → Map String → Meta
  fresh_meta c name component annotations = record {
    name = name;
    namespace = c.spice_config.namespace;
    owners = [];
    labels = ops.put (common ops c c.spice_config.name) (ops.put (own_labels ops c component) []);
    annotations = annotations;
  }

  unfoldable pub secured : Config → String → String → Meta → Meta
  secured c name component m = record {
    name = name;
    namespace = c.spice_config.namespace;
    owners = m.owners ++ (owner_ref c ∷ []);
    labels = ops.put (own_labels ops c component) m.labels;
    annotations = m.annotations;
  }

  -- `unpatchedServiceAccount` and `ServiceAccount`
  unfoldable pub unpatched_service_account : Config → ServiceAccount
  unpatched_service_account c = record {
    meta =
        fresh_meta c c.spice_config.service_account_name "spicedb-serviceaccount"
          (ops.put c.spice_config.extra_service_account_annotations []);
  }

  unfoldable pub service_account : (ServiceAccount → ServiceAccount) → Config → ServiceAccount
  service_account patched c =
      let sa = patched (unpatched_service_account c) in
      record sa {
        meta = secured c c.spice_config.service_account_name "spicedb-serviceaccount" sa.meta;
      }

  -- `unpatchedRole` and `Role`
  unfoldable pub unpatched_role : Config → Role
  unpatched_role c = record {
    meta = fresh_meta c c.spice_config.name "spicedb-role" [];
    rules = read_rule "" "endpoints" ∷ read_rule "discovery.k8s.io" "endpointslices" ∷ [];
  }

  unfoldable pub role : (Role → Role) → Config → Role
  role patched c =
      let r = patched (unpatched_role c) in
      record r { meta = secured c c.spice_config.name "spicedb-role" r.meta }

  -- `unpatchedRoleBinding` and `RoleBinding`
  unfoldable pub unpatched_role_binding : Config → RoleBinding
  unpatched_role_binding c = record {
    meta = fresh_meta c c.spice_config.name "spicedb-rolebinding" [];
    role_ref = ("Role", c.spice_config.name);
    subjects = (c.spice_config.namespace, c.spice_config.service_account_name) ∷ [];
  }

  unfoldable pub role_binding : (RoleBinding → RoleBinding) → Config → RoleBinding
  role_binding patched c =
      let rb = patched (unpatched_role_binding c) in
      record rb { meta = secured c c.spice_config.name "spicedb-rolebinding" rb.meta }

  -- `unpatchedService` and `Service`
  unfoldable pub service_spec : Config → ServiceSpec
  service_spec c = record {
    selector = ops.put (own_labels ops c "spicedb") [];
    ports = container_ports c;
  }

  unfoldable pub unpatched_service : Config → Service
  unpatched_service c = record {
    meta = fresh_meta c c.spice_config.name "spicedb-service" [];
    spec = some (service_spec c);
  }

  abbrev pub service_spec_or : ServiceSpec → Option ServiceSpec → ServiceSpec
  service_spec_or default none = default
  service_spec_or default (some s) = s

  unfoldable pub service : (Service → Service) → Config → Service
  service patched c =
      let s = patched (unpatched_service c) in
      let spec = service_spec_or (service_spec c) s.spec in
      record {
        meta = secured c c.spice_config.name "spicedb-service" s.meta;
        spec = some (record spec { selector = ops.put (own_labels ops c "spicedb") spec.selector });
      }
