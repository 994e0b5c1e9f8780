-- ===== src/Config/Budget.antt =====
-- The disruption budget of a configuration (`PodDisruptionBudget` in pkg/config/config.go).
pub mod Patched
use spicedb_operator.Base.{List, Option, Result, String, [], none, ok, panic, some, ◌++◌, ◌∷◌}
use spicedb_operator.Base.Int.{pos}
use spicedb_operator.Base.Map.{Map}
use spicedb_operator.Config.Labels.{
  deployment_name, instance_label_key, labels_for_component, pdb_name,
}
use spicedb_operator.Config.Objects.{common, owner_ref}
use spicedb_operator.Config.Types.{Config, ConfigError, IntOrString, PdbConfig, from_int}
use spicedb_operator.Config.Workloads.{
  LabelSelector, ObjectLibrary, OwnerReference, of_labels, with_match_labels,
}

pub record BudgetSpec : Type 0 where
  pub selector : Option LabelSelector
  pub max_unavailable : Option IntOrString
  pub min_available : Option IntOrString

pub record Budget : Type 0 where
  pub name : String
  pub namespace : String
  pub owners : List OwnerReference
  pub labels : Map String
  pub spec : Option BudgetSpec

-- The switch on the bounds.
unfoldable pub bounded : PdbConfig → LabelSelector → BudgetSpec
bounded pdb selector = elim pdb.max_unavailable [
  | some m ↦ record { selector = some selector; max_unavailable = some m; min_available = none }
  | none ↦ elim pdb.min_available [
    | some m ↦ record { selector = some selector; max_unavailable = none; min_available = some m }
    | none ↦ record {
      selector = some selector;
      max_unavailable = some (from_int (pos 1));
      min_available = none;
    }
  ]
]

module _ (ops : ObjectLibrary) where
  abbrev pub pods_of : Config → Map String
  pods_of c = (instance_label_key, deployment_name c.spice_config.name) ∷ []

  abbrev pub budget_labels : Config → Map String
  budget_labels c = labels_for_component c.spice_config.name "spicedb-pdb"

  -- `unpatchedPDB`
  unfoldable pub unpatched_pdb : Config → Budget
  unpatched_pdb c = record {
    name = pdb_name c.spice_config.name;
    namespace = c.spice_config.namespace;
    owners = [];
    labels = ops.put (budget_labels c) [];
    spec = some (bounded c.spice_config.pdb (with_match_labels ops (pods_of c) (of_labels [])));
  }

  -- `d.Spec.Selector.WithMatchLabels`: a nil selector is dereferenced
  unfoldable pub with_pods :
      Config → Budget → BudgetSpec → Option LabelSelector → Result ConfigError Budget
  with_pods c d spec none = panic
  with_pods c d spec (some selector) = ok (record {
    name = pdb_name c.spice_config.name;
    namespace = c.spice_config.namespace;
    owners = d.owners ++ (owner_ref c ∷ []);
    labels =
        ops.put (budget_labels c) (ops.put (common ops c (pdb_name c.spice_config.name)) d.labels);
    spec = some (record spec { selector = some (with_match_labels ops (pods_of c) selector) });
  })

  -- `d.Spec.Selector`: a nil spec is dereferenced
  unfoldable pub with_spec : Config → Budget → Option BudgetSpec → Result ConfigError Budget
  with_spec c d none = panic
  with_spec c d (some spec) = with_pods c d spec spec.selector

  -- `PodDisruptionBudget`
  unfoldable pub pod_disruption_budget : (Budget → Budget) → Config → Result ConfigError Budget
  pod_disruption_budget patched c = let d = patched (unpatched_pdb c) in with_spec c d d.spec
