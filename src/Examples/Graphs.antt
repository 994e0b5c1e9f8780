-- ===== src/Examples/Graphs.antt =====
-- Small update graphs, and the theorems on pkg/updates and the path tool applied to them.
use spicedb_operator.Base.{
  In, List, Option, Returns, String, [], ap, arith, at_head, at_tail, eq_or_ne, err, false, filterb,
  if◌then◌else◌, inl, inr, last_or, leb, ne_of_test, none, ok, refl, some, subst, sym, take_while,
  true, ℕ, ◌<◌, ◌∙◌, ◌∷◌, ◌≡◌, ◌≢◌, ◌⊎◌,
}
use spicedb_operator.Base.Map
use spicedb_operator.Base.Map.{Map}
use spicedb_operator.Base.Text.{cut, equal_fold}
use spicedb_operator.Api.Version.{Version}
use spicedb_operator.Updates.Types.{
  State, EdgeSet, Channel, UpdateGraph, empty_state, channel_cycle,
}
use spicedb_operator.Updates.Memory.{
  MemorySource, NodeSet, new_memory_source, new_node_set, check_targets, check_edges,
  from_validated_nodes, validate_all_nodes_path_to_head, validate_paths, chase, node_at, node_of,
  state, edges_of, next_version, scan_without_migrations, next_version_without_migrations,
  latest_version, index_nodes, keep_edges, subgraph_from, subgraph,
}
use spicedb_operator.Updates.Memory.Validate.{IsSource, new_memory_source-IsSource}
use spicedb_operator.Updates.Memory.Validate.{new_memory_source-Returns}
use spicedb_operator.Updates.Memory.Pinned.{subgraph-state, subgraph-next_version}
use spicedb_operator.Updates.Memory.Steps.{needs_no_migration, next_version_without_migrations_lem}
use spicedb_operator.Updates.Memory.Subgraph.{at_or_below}
use spicedb_operator.Updates.Graph.{
  is_default_for, find_default, default_channel_for_datastore, is_channel, find_source,
  source_for_channel,
}
use spicedb_operator.Updates.Graph.Laws.{FirstServing, source_for_channel_sound}
use spicedb_operator.Updates.Target.{
  Target, explode_image, first_non_empty, pick_channel, open_source, from_channel, compute_target,
  from_source, next_step, take_step, narrow, unless_rolling, locate_in, locate_current,
  install_explicit,
}
use spicedb_operator.Api.Version.{attribute_next, attribute_migration, attribute_latest}
use spicedb_operator.Updates.Available.Total.{available_versions-Returns}
use spicedb_operator.Updates.Target.Total.{compute_target-Returns}
use spicedb_operator.Updates.Target.Safety.{compute_target_safe}
use spicedb_operator.Updates.Target.Steps.{IsStep}
use spicedb_operator.Updates.Available.{
  direct_entry, next_entry, latest_entry, other_entry, channel_entry, channel_entries,
  available_versions,
}
use spicedb_operator.UpgradePath.{PathStep, walk}
use spicedb_operator.UpgradePath.Walk.{IsOrdered, walk_ends}

-- The tests compute.
sources : Unit {0}
unfolding new_memory_source new_node_set check_targets check_edges from_validated_nodes
    validate_all_nodes_path_to_head validate_paths chase node_at node_of state edges_of next_version
    scan_without_migrations next_version_without_migrations latest_version index_nodes keep_edges
    subgraph_from subgraph Map.lookup Map.get_or Map.has Map.insert
sources = tt

graphs : Unit {0}
unfolding sources cut equal_fold is_default_for find_default default_channel_for_datastore
    is_channel find_source source_for_channel explode_image first_non_empty pick_channel open_source
    from_channel compute_target from_source next_step take_step narrow unless_rolling locate_in
    locate_current install_explicit direct_entry next_entry latest_entry other_entry channel_entry
    channel_entries available_versions
graphs = tt

abbrev node : String → String → State
node id migration = record {
  id = id;
  tag = id;
  migration = migration;
  phase = "";
  digest = "";
  deprecated = false;
}

-- Four releases, of which the older two run on one migration, and the newer two on another.
abbrev nodes : List State
nodes = node "v4" "b" ∷ node "v3" "b" ∷ node "v2" "a" ∷ node "v1" "a" ∷ []

abbrev edges : EdgeSet
edges = ("v1", "v2" ∷ "v3" ∷ []) ∷ ("v2", "v3" ∷ []) ∷ ("v3", "v4" ∷ []) ∷ []

abbrev node_set : NodeSet
node_set = ("v4", 0) ∷ ("v3", 1) ∷ ("v2", 2) ∷ ("v1", 3) ∷ []

abbrev source : MemorySource
source = record { ordered_nodes = nodes; nodes = node_set; edges = edges }

source_is_made : new_memory_source nodes edges ≡ ok source
unfolding sources
source_is_made = refl

-- Two versions that lead to each other are refused.
cycle_is_refused :
    new_memory_source nodes (("v3", "v4" ∷ []) ∷ ("v1", "v2" ∷ []) ∷ ("v2", "v1" ∷ []) ∷ [])
    ≡ err (channel_cycle ("v2" ∷ "v1" ∷ "v1" ∷ []))
unfolding sources
cycle_is_refused = refl

new_memory_source-IsSource_example :
    IsSource source × (source.ordered_nodes ≡ nodes) × (source.edges ≡ edges)
new_memory_source-IsSource_example =
    new_memory_source-IsSource nodes edges {m = source} source_is_made

new_memory_source-Returns_example : Returns (new_memory_source nodes (("v1", "v1" ∷ []) ∷ []))
new_memory_source-Returns_example = new_memory_source-Returns nodes (("v1", "v1" ∷ []) ∷ [])

source-IsSource : IsSource source
source-IsSource =
    let (valid, _, _) = new_memory_source-IsSource nodes edges {m = source} source_is_made in valid

-- The source as it is seen with version v3 pinned.
abbrev pinned : MemorySource
pinned = record {
  ordered_nodes = node "v3" "b" ∷ node "v2" "a" ∷ node "v1" "a" ∷ [];
  nodes = ("v3", 0) ∷ ("v2", 1) ∷ ("v1", 2) ∷ [];
  edges = ("v1", "v2" ∷ "v3" ∷ []) ∷ ("v2", "v3" ∷ []) ∷ ("v3", []) ∷ [];
}

pinned_is_made : subgraph source "v3" ≡ ok pinned
unfolding sources
pinned_is_made = refl

v3_is_known : Map.lookup "v3" source.nodes ≡ some 1
unfolding sources
v3_is_known = refl

subgraph-state_example : state pinned "v4" ≡ (if leb 1 0 then state source "v4" else ok empty_state)
unfolding sources
subgraph-state_example =
    subgraph-state source "v3" 1 source-IsSource.indexed (λ e. cc) v3_is_known pinned_is_made "v4"
      refl

subgraph-next_version_example : next_version pinned "v1" ≡ (
    if at_or_below source 1 "v1"
    then last_or "" (filterb (at_or_below source 1) (edges_of source.edges "v1"))
    else "")
subgraph-next_version_example =
    subgraph-next_version source "v3" 1 source-IsSource.indexed (λ e. cc) v3_is_known pinned_is_made
      "v1"

v1_is_known : Map.has "v1" source.nodes ≡ true
unfolding sources
v1_is_known = refl

next_version_without_migrations_example :
    next_version_without_migrations source "v1"
    ≡ ok (last_or "" (take_while (needs_no_migration source "v1") (edges_of source.edges "v1")))
next_version_without_migrations_example =
    next_version_without_migrations_lem source "v1" source-IsSource v1_is_known

steps_test :
    (next_version source "v1" ≡ "v3")
    × (next_version_without_migrations source "v1" ≡ ok "v2")
    × (next_version_without_migrations source "v2" ≡ ok "")
    × (latest_version source "v1" ≡ "v4")
unfolding sources
steps_test = (refl, refl, refl, refl)

abbrev graph : UpdateGraph
graph = record {
  channels =
      record {
        name = "stable";
        metadata_is_nil = false;
        metadata = ("datastore", "postgres") ∷ ("default", "true") ∷ [];
        edges = edges;
        nodes = nodes;
      }
      ∷ [];
}

source_is_found : source_for_channel graph "Postgres" "STABLE" ≡ ok source
unfolding graphs
source_is_found = refl

source_for_channel_sound_example :
    (c : Channel) × FirstServing "Postgres" "STABLE" c graph.channels
    × IsSource source
    × (source.ordered_nodes ≡ c.nodes)
    × (source.edges ≡ c.edges)
source_for_channel_sound_example =
    source_for_channel_sound graph "Postgres" "STABLE" {m = source} source_is_found

abbrev v1 : Version
v1 = record { name = "v1"; channel = "stable"; attributes = []; description = "" }

abbrev v3 : Version
v3 = record { name = "v3"; channel = "stable"; attributes = "migration" ∷ []; description = "" }

abbrev target_v3 : Target
target_v3 = record { base_image = "spicedb"; target = some v3; state = node "v3" "b"; error = none }

-- From v1, with v3 pinned, the newest edge leads to v3, and the step has a migration.
target_is_v3 :
    compute_target graph "spicedb" "" "" "v3" "" "postgres" (some v1) false ≡ ok target_v3
unfolding graphs
target_is_v3 = refl

compute_target_safe_example :
    (v3.name ≡ v1.name)
    ⊎ ((m : MemorySource) × (source_for_channel graph "postgres" v3.channel ≡ ok m)
        × IsStep m "v3" v1.name v3.name)
compute_target_safe_example =
    compute_target_safe graph "spicedb" "" "" "v3" "" "postgres" v1 false {t = target_v3} (λ e. cc)
      target_is_v3 v3 refl

default_is_named :
    (name : String) → default_channel_for_datastore graph "postgres" ≡ ok name → name ≢ ""
unfolding graphs
default_is_named name h =
    let same : "stable" ≡ name = ground arith in
    subst (λ c. c ≢ "") same (ne_of_test "stable" "" refl)

compute_target-Returns_example :
    Returns (compute_target graph "spicedb" "" "" "v9" "" "postgres" (some v1) false)
compute_target-Returns_example =
    compute_target-Returns graph "spicedb" "" "" "v9" "" "postgres" (some v1) false default_is_named

available_versions-Returns_example :
    Returns (available_versions graph "postgres" (record v1 { name = "unknown" }))
available_versions-Returns_example =
    available_versions-Returns graph "postgres" (record v1 { name = "unknown" })

offers_test :
    available_versions graph "postgres" v1
    ≡ ok (
        record {
          name = "v2";
          channel = "stable";
          attributes = attribute_next ∷ [];
          description = "direct update with no migrations";
        }
        ∷ record {
          name = "v3";
          channel = "stable";
          attributes = attribute_next ∷ attribute_migration ∷ [];
          description = "update will run a migration";
        }
        ∷ record {
          name = "v4";
          channel = "stable";
          attributes = attribute_latest ∷ attribute_migration ∷ [];
          description = "head of the channel, multiple updates will run in sequence";
        }
        ∷ [])
unfolding graphs
offers_test = refl

-- Two releases, in order.
abbrev pair : MemorySource
pair = record {
  ordered_nodes = node "v2" "a" ∷ node "v1" "a" ∷ [];
  nodes = ("v2", 0) ∷ ("v1", 1) ∷ [];
  edges = ("v1", "v2" ∷ []) ∷ [];
}

pair_is_made : new_memory_source pair.ordered_nodes pair.edges ≡ ok pair
unfolding sources
pair_is_made = refl

pair_is_pinned : subgraph pair "v2" ≡ ok pair
unfolding sources
pair_is_pinned = refl

pair-IsSource : IsSource pair
pair-IsSource =
    let (valid, _, _) =
      new_memory_source-IsSource pair.ordered_nodes pair.edges {m = pair} pair_is_made in
    valid

pair-IsOrdered : IsOrdered pair
unfolding sources
pair-IsOrdered = record { newer = λ from to i j edge here there. go from to i j edge here there }
  where
    go :
        (from to : String) (i j : ℕ)
        → In to (edges_of pair.edges from)
        → Map.lookup from pair.nodes ≡ some i
        → Map.lookup to pair.nodes ≡ some j
        → j < i
    go from to i j edge here there = elim (eq_or_ne "v1" from) [
      | inl e ↦ first to i j (rw (sym e) at edge) (rw (sym e) at here) there
      | inr other ↦
          let empty : edges_of pair.edges from ≡ [] = ground (arith, other) in
          elim (subst (λ l. In to l) empty edge) [ ]
    ]
      where
        first :
            (to : String) (i j : ℕ)
            → In to ("v2" ∷ [])
            → some 1 ≡ some i
            → Map.lookup to pair.nodes ≡ some j
            → j < i
        first to i j (at_head e) here there =
            let newest : some 0 ≡ some j = sym (ap (λ k. Map.lookup k pair.nodes) e) ∙ there in
            ground arith
        first to i j (at_tail m) here there = elim m [ ]

v2_is_known : Map.lookup "v2" pair.nodes ≡ some 0
unfolding sources
v2_is_known = refl

v1_is_second : Map.lookup "v1" pair.nodes ≡ some 1
unfolding sources
v1_is_second = refl

walk_ends_example : (found : Option (List PathStep)) × (walk 2 pair pair [] "v1" "v2" ≡ ok found)
walk_ends_example =
    walk_ends pair pair "v2" 0 pair-IsSource (λ e. cc) v2_is_known pair_is_pinned 2 [] "v1"
      pair-IsOrdered v1_is_second (omega arith)

-- A channel whose edges between a and b are no trap for the way to its head, but one for the way to
-- the release below the head.
abbrev winding : MemorySource
winding = record {
  ordered_nodes = node "h" "" ∷ node "t" "" ∷ node "a" "" ∷ node "b" "" ∷ [];
  nodes = ("h", 0) ∷ ("t", 1) ∷ ("a", 2) ∷ ("b", 3) ∷ [];
  edges = ("t", "h" ∷ []) ∷ ("a", "b" ∷ "h" ∷ []) ∷ ("b", "a" ∷ "h" ∷ []) ∷ [];
}

abbrev wound : MemorySource
wound = record {
  ordered_nodes = node "t" "" ∷ node "a" "" ∷ node "b" "" ∷ [];
  nodes = ("t", 0) ∷ ("a", 1) ∷ ("b", 2) ∷ [];
  edges = ("t", []) ∷ ("a", "b" ∷ []) ∷ ("b", "a" ∷ []) ∷ [];
}

wound_is_made : subgraph winding "t" ≡ ok wound
unfolding sources
wound_is_made = refl

abbrev AOrB : String → Type 0
AOrB c = (c ≡ "a") ⊎ (c ≡ "b")
