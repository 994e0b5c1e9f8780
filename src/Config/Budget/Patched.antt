-- ===== src/Config/Budget/Patched.antt =====
-- What patches can do to the disruption budget (pkg/config/config.go).
use spicedb_operator.Base.{Option, Returns, ap, none, none-ne-some, refl, some, sym, ◌↔◌, ◌∙◌, ◌≡◌}
use spicedb_operator.Config.Budget.{
  Budget, BudgetSpec, pod_disruption_budget, unpatched_pdb, with_pods, with_spec,
}
use spicedb_operator.Config.Types.{Config}
use spicedb_operator.Config.Workloads.{LabelSelector, ObjectLibrary}

module _ (ops : ObjectLibrary) where
  -- The budget has a spec, and a selector in it.
  abbrev pub HasSelector : Budget → Type 0
  HasSelector d =
      (spec : BudgetSpec) × (selector : LabelSelector) × (d.spec ≡ some spec)
      × (spec.selector ≡ some selector)

  -- `PodDisruptionBudget` returns exactly if the patches leave the spec and its selector: it reads
  -- both without a test, and panics on a patch that removes one.
  pub pod_disruption_budget-Returns :
      (patched : Budget → Budget) (c : Config)
      → Returns (pod_disruption_budget ops patched c) ↔ HasSelector (patched (unpatched_pdb ops c))
  unfolding pod_disruption_budget with_spec with_pods
  pod_disruption_budget-Returns patched c =
      go (patched (unpatched_pdb ops c)) (patched (unpatched_pdb ops c)).spec refl
    where
      selected :
          (d : Budget) (spec : BudgetSpec) (o : Option LabelSelector)
          → d.spec ≡ some spec
          → spec.selector ≡ o
          → Returns (with_pods ops c d spec o) ↔ HasSelector d
      selected d spec none e h =
          (absurd, λ (found, selector, f, g). absurd (clash found selector f g))
        where
          clash :
              (found : BudgetSpec) (selector : LabelSelector)
              → d.spec ≡ some found
              → found.selector ≡ some selector
              → ⊥
          clash found selector f g =
              let same : found ≡ spec = cc in
              none-ne-some (sym h ∙ (ap (λ s. s.selector) (sym same) ∙ g))
      selected d spec (some selector) e h = (λ _. (spec, selector, e, h), λ _. tt)

      go :
          (d : Budget) (o : Option BudgetSpec)
          → d.spec ≡ o
          → Returns (with_spec ops c d o) ↔ HasSelector d
      go d none e = (absurd, λ (found, _, f, _). none-ne-some (sym e ∙ f))
      go d (some spec) e = selected d spec spec.selector e refl
