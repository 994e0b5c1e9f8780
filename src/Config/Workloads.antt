-- ===== src/Config/Workloads.antt =====
-- What jobs and deployments are made of, and the functions of other packages by which the objects are
-- built (pkg/config/config.go).
use spicedb_operator.Base.{Bool, List, Option, String, [], none, some, ℕ, ◌≡◌}
use spicedb_operator.Base.Int.{ℤ}
use spicedb_operator.Base.Map.{Map, lookup}
use spicedb_operator.Config.Env.{EnvVar}
use spicedb_operator.Config.Volumes.{Volume, VolumeMount}

pub record OwnerReference : Type 0 where
  pub name : String
  pub kind : String
  pub uid : String

pub record Container : Type 0 where
  pub name : String
  pub image : String
  pub command : List String
  pub env : List EnvVar
  pub ports : List (String × ℕ)
  pub volume_mounts : List VolumeMount
  -- the command of both probes, if there are any
  pub probe : List String

pub record PodTemplate : Type 0 where
  pub labels : Map String
  pub annotations : Map String
  pub service_account_name : String
  pub containers : List Container
  pub volumes : List Volume

-- An entry of `matchExpressions`, which the code never sets.
pub record LabelSelectorRequirement : Type 0 where
  pub key : String
  pub operator : String
  pub values : List String

-- `metav1.LabelSelector`: the code sets labels only, a patch may set both.
pub record LabelSelector : Type 0 where
  pub match_labels : Map String
  pub match_expressions : List LabelSelectorRequirement

-- The parts of the specs of jobs and deployments that the code sets.
pub record WorkloadSpec : Type 0 where
  pub replicas : Option ℤ
  pub selector : Option LabelSelector
  pub template : Option PodTemplate

pub record Workload : Type 0 where
  pub name : String
  pub namespace : String
  pub owners : List OwnerReference
  pub labels : Map String
  pub annotations : Map String
  pub spec : Option WorkloadSpec

-- The selector of these labels, without expressions.
abbrev pub of_labels : Map String → LabelSelector
of_labels labels = record { match_labels = labels; match_expressions = [] }

-- The functions of other packages by which the objects are built.
pub record ObjectLibrary : Type 0 where
  -- `WithLabels`, `WithAnnotations` and `WithMatchLabels` of client-go: the entries are put into the
  -- map, and take the place of those with the same key
  pub put : Map String → Map String → Map String
  pub lookup-put :
      (k : String) (new old : Map String)
      → lookup k (put new old) ≡ elim (lookup k new) [ none ↦ lookup k old | some v ↦ some v ]
  -- `camelcase.Split`, `strings.ToUpper` and `sort.Strings`
  pub words : String → List String
  pub upper : String → String
  pub sort : List String → List String
  -- `slug.Make` with dots kept, and `validation.IsValidLabelValue`
  pub clean : String → String
  pub is_valid_label_value : String → Bool

module _ (ops : ObjectLibrary) where
  -- `WithMatchLabels`: the expressions stay
  abbrev pub with_match_labels : Map String → LabelSelector → LabelSelector
  with_match_labels labels selector = record selector {
    match_labels = ops.put labels selector.match_labels;
  }
