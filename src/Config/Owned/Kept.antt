-- ===== src/Config/Owned/Kept.antt =====
-- How the objects of a configuration find each other (pkg/config/config.go).
use spicedb_operator.Base.{In, In-append_right, String, [], at_head, refl, some, ◌∷◌, ◌≡◌}
use spicedb_operator.Base.Map.{lookup}
use spicedb_operator.Config.Labels.{
  component_label_key, labels_for_component, operator_managed_label_key, owner_label_key,
}
use spicedb_operator.Config.Objects.{deployment, owner_ref}
use spicedb_operator.Config.Objects.Critical.{put-here}
use spicedb_operator.Config.Owned.{
  Meta, Role, RoleBinding, Service, ServiceAccount, ServiceSpec, role, role_binding, secured,
  service, service_account,
}
use spicedb_operator.Config.Types.{Config}
use spicedb_operator.Config.Workloads.{ObjectLibrary, PodTemplate, Workload, WorkloadSpec}

module _ (ops : ObjectLibrary) where
  -- The name, the owner and the labels by which the operator finds an object.
  abbrev pub KeepsMeta : Config → String → String → Meta → Type 0
  KeepsMeta c name component m =
      (m.name ≡ name)
      × (m.namespace ≡ c.spice_config.namespace)
      × In (owner_ref c) m.owners
      × (lookup owner_label_key m.labels ≡ some c.spice_config.name)
      × (lookup component_label_key m.labels ≡ some component)
      × (lookup operator_managed_label_key m.labels ≡ some "operator")

  secured-KeepsMeta :
      (c : Config) (name component : String) (m : Meta)
      → KeepsMeta c name component (secured ops c name component m)
  unfolding secured labels_for_component lookup
  secured-KeepsMeta c name component m =
      let own = labels_for_component c.spice_config.name component in
      (
        refl,
        refl,
        In-append_right (owner_ref c) m.owners (owner_ref c ∷ []) (at_head refl),
        put-here ops owner_label_key c.spice_config.name own m.labels refl,
        put-here ops component_label_key component own m.labels refl,
        put-here ops operator_managed_label_key "operator" own m.labels refl,
      )

  -- Whatever the patches make of the service account, the role, its binding and the service, each has
  -- its name, its owner, and the labels by which the operator finds it.
  pub owned-KeepsMeta :
      (patch_account : ServiceAccount → ServiceAccount) (patch_role : Role → Role)
      (patch_binding : RoleBinding → RoleBinding) (patch_service : Service → Service) (c : Config)
      → KeepsMeta c c.spice_config.service_account_name "spicedb-serviceaccount"
          (service_account ops patch_account c).meta
        × KeepsMeta c c.spice_config.name "spicedb-role" (role ops patch_role c).meta
        × KeepsMeta c c.spice_config.name "spicedb-rolebinding"
            (role_binding ops patch_binding c).meta
        × KeepsMeta c c.spice_config.name "spicedb-service" (service ops patch_service c).meta
  unfolding service_account role role_binding service
  owned-KeepsMeta patch_account patch_role patch_binding patch_service c = (
    secured-KeepsMeta c c.spice_config.service_account_name "spicedb-serviceaccount" _,
    secured-KeepsMeta c c.spice_config.name "spicedb-role" _,
    secured-KeepsMeta c c.spice_config.name "spicedb-rolebinding" _,
    secured-KeepsMeta c c.spice_config.name "spicedb-service" _,
  )

  -- Whatever the patches make of the service and of the deployment, the service has a selector and
  -- the deployment a template, and under the keys that the operator sets both have the same.
  pub service-selects :
      (patch_service : Service → Service) (patch_deployment : Workload → Workload) (c : Config)
      (migration_hash secret_hash : String)
      → (spec : ServiceSpec) × (workload : WorkloadSpec) × (template : PodTemplate) × ((service ops
            patch_service c).spec
          ≡ some spec)
        × ((deployment ops patch_deployment c migration_hash secret_hash).spec ≡ some workload)
        × (workload.template ≡ some template)
        × ((lookup owner_label_key spec.selector ≡ some c.spice_config.name)
            × (lookup owner_label_key template.labels ≡ some c.spice_config.name))
        × ((lookup component_label_key spec.selector ≡ some "spicedb")
            × (lookup component_label_key template.labels ≡ some "spicedb"))
        × ((lookup operator_managed_label_key spec.selector ≡ some "operator")
            × (lookup operator_managed_label_key template.labels ≡ some "operator"))
  unfolding service deployment labels_for_component lookup
  service-selects patch_service patch_deployment c migration_hash secret_hash =
      let own = labels_for_component c.spice_config.name "spicedb" in
      (
        _,
        _,
        _,
        refl,
        refl,
        refl,
        (put-here ops owner_label_key _ own _ refl, put-here ops owner_label_key _ own _ refl),
        (
          put-here ops component_label_key _ own _ refl,
          put-here ops component_label_key _ own _ refl,
        ),
        (
          put-here ops operator_managed_label_key _ own _ refl,
          put-here ops operator_managed_label_key _ own _ refl,
        ),
      )
