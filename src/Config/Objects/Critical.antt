-- ===== src/Config/Objects/Critical.antt =====
-- What no patch can change in the deployment and in the migration job (pkg/config/config.go).
use spicedb_operator.Base.{
  Bool, In, In-append_right, String, [], at_head, false, if◌then◌else◌, inl, inr, none, refl, some,
  subst, sym, true, ◌↔◌, ◌∙◌, ◌∷◌, ◌≡◌, ◌⊎◌,
}
use spicedb_operator.Base.Map.{Map, get_or, lookup}
use spicedb_operator.Config.Labels.{
  component_label_key, deployment_name, instance_label_key, job_name, labels_for_component,
  operator_managed_label_key, owner_label_key, secret_requirements_key,
  target_migration_annotation_key,
}
use spicedb_operator.Config.Objects.{claimed_migration, deployment, migration_job, owner_ref}
use spicedb_operator.Config.Types.{Config}
use spicedb_operator.Config.Workloads.{
  LabelSelector, ObjectLibrary, PodTemplate, Workload, WorkloadSpec,
}
use spicedb_operator.Controller.Migrations.{carries_hash}
use spicedb_operator.Controller.Objects.{annotation, migration_requirements_key}
use spicedb_operator.Controller.Types.{Env}

-- The entries of a map that was put together last.
module _ (ops : ObjectLibrary) where
  pub put-here :
      (k v : String) (new old : Map String)
      → lookup k new ≡ some v
      → lookup k (ops.put new old) ≡ some v
  put-here k v new old h = ops.lookup-put k new old ∙ rw h refl

  -- Below another map that lacks the key.
  put-below :
      (k v : String) (new old : Map String)
      → lookup k new ≡ none
      → lookup k old ≡ some v
      → lookup k (ops.put new old) ≡ some v
  put-below k v new old h g = ops.lookup-put k new old ∙ rw h g

get_or-some : (k : String) (m : Map String) {v : String} → lookup k m ≡ some v → get_or "" k m ≡ v
unfolding get_or
get_or-some k m h = rw (h, get_or) refl

module _ (ops : ObjectLibrary) where
  -- The deployment's name, namespace and owner; the owner's, the component's and the operator's
  -- label, by which the operator finds it; its claim of a migration; and a selector and a template
  -- that both have the instance label with the deployment's name, the template with the three labels
  -- and the hash of the secrets and the target migration. The selector may have more, from a patch.
  abbrev pub KeepsDeployment : Config → String → String → Workload → Type 0
  KeepsDeployment c migration_hash secret_hash d =
      let name = deployment_name c.spice_config.name in
      (d.name ≡ name)
      × (d.namespace ≡ c.spice_config.namespace)
      × In (owner_ref c) d.owners
      × (lookup owner_label_key d.labels ≡ some c.spice_config.name)
      × (lookup component_label_key d.labels ≡ some "spicedb")
      × (lookup operator_managed_label_key d.labels ≡ some "operator")
      × (lookup migration_requirements_key d.annotations
          ≡ some (claimed_migration c migration_hash))
      × ((spec : WorkloadSpec) × (selector : LabelSelector) × (template : PodTemplate) × (d.spec
            ≡ some spec)
          × (spec.selector ≡ some selector)
          × (spec.template ≡ some template)
          × (lookup instance_label_key selector.match_labels ≡ some name)
          × (lookup instance_label_key template.labels ≡ some name)
          × (lookup owner_label_key template.labels ≡ some c.spice_config.name)
          × (lookup component_label_key template.labels ≡ some "spicedb")
          × (lookup operator_managed_label_key template.labels ≡ some "operator")
          × (lookup secret_requirements_key template.annotations ≡ some secret_hash)
          × (lookup target_migration_annotation_key template.annotations
              ≡ some c.migration_config.target_migration))

  -- Whatever the patches make of the deployment, it has its name, namespace and owner, the three
  -- labels by which the operator finds it, and the claim of its migration; it has a selector and a
  -- template, which agree on the instance label; and the template has the three labels, the hash of
  -- the secrets and the target migration. What else a patch makes the selector require is not said.
  pub deployment-KeepsDeployment :
      (patched : Workload → Workload) (c : Config) (migration_hash secret_hash : String)
      → KeepsDeployment c migration_hash secret_hash
          (deployment ops patched c migration_hash secret_hash)
  unfolding deployment labels_for_component lookup
  deployment-KeepsDeployment patched c migration_hash secret_hash =
      let own = labels_for_component c.spice_config.name "spicedb" in
      let instance = (instance_label_key, deployment_name c.spice_config.name) ∷ [] in
      let claim = (migration_requirements_key, claimed_migration c migration_hash) ∷ [] in
      let hashes =
        (secret_requirements_key, secret_hash)
        ∷ (target_migration_annotation_key, c.migration_config.target_migration)
        ∷ [] in
      (
        refl,
        refl,
        In-append_right (owner_ref c) _ (owner_ref c ∷ []) (at_head refl),
        put-here ops owner_label_key _ own _ refl,
        put-here ops component_label_key _ own _ refl,
        put-here ops operator_managed_label_key _ own _ refl,
        put-here ops migration_requirements_key _ claim _ refl,
        (
          _,
          _,
          _,
          refl,
          refl,
          refl,
          put-here ops instance_label_key _ instance _ refl,
          put-below ops instance_label_key _ own _ refl
              (put-here ops instance_label_key _ instance _ refl),
          put-here ops owner_label_key _ own _ refl,
          put-here ops component_label_key _ own _ refl,
          put-here ops operator_managed_label_key _ own _ refl,
          put-here ops secret_requirements_key _ hashes _ refl,
          put-here ops target_migration_annotation_key _ hashes _ refl,
        ),
      )

  -- The migration check takes the deployment, patched or not, for proof that a migration has run
  -- exactly if the hash is that of the migration and migrations were not skipped, or the hash is
  -- "skipped" and they were.
  pub deployment-carries_hash :
      (env : Env) (patched : Workload → Workload) (c : Config)
      (migration_hash secret_hash asked : String)
      → (carries_hash env
            (some (deployment ops patched c migration_hash secret_hash).annotations)
            asked
          ≡ true)
        ↔ (((c.spice_config.skip_migrations ≡ true) × ("skipped" ≡ asked))
            ⊎ ((c.spice_config.skip_migrations ≡ false) × (migration_hash ≡ asked)))
  unfolding carries_hash annotation claimed_migration
  deployment-carries_hash env patched c migration_hash secret_hash asked =
      subst
        (λ x. (env.secure_equal x asked ≡ true) ↔ (
          ((c.spice_config.skip_migrations ≡ true) × ("skipped" ≡ asked))
          ⊎ ((c.spice_config.skip_migrations ≡ false) × (migration_hash ≡ asked))))
        (sym claimed) (go c.spice_config.skip_migrations)
    where
      d : Workload
      d = deployment ops patched c migration_hash secret_hash

      claimed :
          get_or "" migration_requirements_key d.annotations
          ≡ (if c.spice_config.skip_migrations then "skipped" else migration_hash)
      claimed =
          get_or-some migration_requirements_key d.annotations
            (deployment-KeepsDeployment patched c migration_hash secret_hash).6

      go :
          (b : Bool)
          → (env.secure_equal (if b then "skipped" else migration_hash) asked ≡ true)
            ↔ (((b ≡ true) × ("skipped" ≡ asked)) ⊎ ((b ≡ false) × (migration_hash ≡ asked)))
      go true = (
        λ h. inl (refl, (env.secure_equal_iff "skipped" asked).0 h),
        elim [ inl (_, e) ↦ (env.secure_equal_iff "skipped" asked).1 e | inr (e, _) ↦ cc ],
      )
      go false = (
        λ h. inr (refl, (env.secure_equal_iff migration_hash asked).0 h),
        elim [ inl (e, _) ↦ cc | inr (_, e) ↦ (env.secure_equal_iff migration_hash asked).1 e ],
      )

  -- The migration job's name, namespace, owner and hash, and the owner's, the component's and the
  -- operator's label, by which the operator finds it, on the job and on its template.
  abbrev pub KeepsJob : Config → String → Workload → Type 0
  KeepsJob c migration_hash j =
      (j.name ≡ job_name c migration_hash)
      × (j.namespace ≡ c.spice_config.namespace)
      × In (owner_ref c) j.owners
      × (lookup owner_label_key j.labels ≡ some c.spice_config.name)
      × (lookup component_label_key j.labels ≡ some "migration-job")
      × (lookup operator_managed_label_key j.labels ≡ some "operator")
      × (lookup migration_requirements_key j.annotations ≡ some migration_hash)
      × ((spec : WorkloadSpec) × (template : PodTemplate) × (j.spec ≡ some spec)
          × (spec.template ≡ some template)
          × (lookup owner_label_key template.labels ≡ some c.spice_config.name)
          × (lookup component_label_key template.labels ≡ some "migration-job")
          × (lookup operator_managed_label_key template.labels ≡ some "operator"))

  -- Whatever the patches make of the migration job, it has its name, namespace and owner, the three
  -- labels by which the operator finds it, the hash of its migration, and a template with the three
  -- labels.
  pub migration_job-KeepsJob :
      (patched : Workload → Workload) (c : Config) (migration_hash : String)
      → KeepsJob c migration_hash (migration_job ops patched c migration_hash)
  unfolding migration_job labels_for_component lookup
  migration_job-KeepsJob patched c migration_hash =
      let own = labels_for_component c.spice_config.name "migration-job" in
      (
        refl,
        refl,
        In-append_right (owner_ref c) _ (owner_ref c ∷ []) (at_head refl),
        put-here ops owner_label_key _ own _ refl,
        put-here ops component_label_key _ own _ refl,
        put-here ops operator_managed_label_key _ own _ refl,
        put-here ops migration_requirements_key _
            ((migration_requirements_key, migration_hash) ∷ []) _ refl,
        (
          _,
          _,
          refl,
          refl,
          put-here ops owner_label_key _ own _ refl,
          put-here ops component_label_key _ own _ refl,
          put-here ops operator_managed_label_key _ own _ refl,
        ),
      )
