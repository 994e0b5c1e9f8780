-- ===== src/Updates/Memory.antt =====
-- pkg/updates/memory.go: `MemorySource`, the oracle that answers update questions.
pub mod Index
pub mod Chase
pub mod Validate
pub mod Subgraph
pub mod Pinned
pub mod Steps
use spicedb_operator.Base.{
  Bool, List, Result, String, [], any, drop, err, fail_if, false, filterb, get_elem?, if◌then◌else◌,
  last_or, leb, length, none, not, ok, panic, some, suc, timeout, true, zero, ℕ, ◌&&◌, ◌++◌, ◌==◌,
  ◌>>=◌, ◌>>◌, ◌∷◌,
}
use spicedb_operator.Base.Map
use spicedb_operator.Base.Map.{Map}
use spicedb_operator.Updates.Types.{
  State, empty_state, EdgeSet, Error, missing_nodes, missing_edges, duplicate_node, missing_node,
  no_outgoing_edges, version_not_in_graph, channel_cycle, no_path,
}

-- `NodeSet`: the index of each node, by id.
abbrev pub NodeSet : Type 0
NodeSet = Map ℕ

-- `MemorySource`
pub record MemorySource : Type 0 where
  -- lower index, newer version
  pub ordered_nodes : List State
  pub nodes : NodeSet
  pub edges : EdgeSet

-- The targets of a node's edges, none where it has no entry.
unfoldable pub edges_of : EdgeSet → String → List String
unfolding Map.get_or
edges_of edges from = Map.get_or [] from edges

-- `NextVersion`
unfoldable pub next_version : MemorySource → String → String
unfolding edges_of
next_version m from = last_or "" (edges_of m.edges from)

-- `m.OrderedNodes[i]`
unfoldable pub node_at : MemorySource → ℕ → Result Error State
node_at m i = elim (get_elem? m.ordered_nodes i) [ none ↦ panic | some s ↦ ok s ]

-- `m.OrderedNodes[m.Nodes[id]]`: the index of an unknown id is 0.
unfoldable pub node_of : MemorySource → String → Result Error State
unfolding node_at Map.get_or
node_of m id = node_at m (Map.get_or 0 id m.nodes)

-- `initial.Phase == node.Phase && initial.Migration == node.Migration`
abbrev pub same_migration : State → State → Bool
same_migration initial node = initial.phase == node.phase && initial.migration == node.migration

-- The loop of `NextVersionWithoutMigrations`: it ends at the first edge that migrates.
unfoldable pub scan_without_migrations :
    MemorySource → State → String → List String → Result Error String
unfolding node_of
scan_without_migrations m initial found [] = ok found
scan_without_migrations m initial found (n ∷ ns) = node_of m n >>= λ node.
    if same_migration initial node then scan_without_migrations m initial n ns else ok found

-- `NextVersionWithoutMigrations`
unfoldable pub next_version_without_migrations : MemorySource → String → Result Error String
unfolding scan_without_migrations edges_of
next_version_without_migrations m from = do
  initial ← node_of m from
  scan_without_migrations m initial "" (edges_of m.edges from)

-- `LatestVersion`
unfoldable pub latest_version : MemorySource → String → String
latest_version m id = elim m.ordered_nodes [
  | [] ↦ ""
  | newest ∷ _ ↦ if id == newest.id then "" else newest.id
]

-- `State`
unfoldable pub state : MemorySource → String → Result Error State
unfolding node_at Map.lookup
state m id = elim (Map.lookup id m.nodes) [ none ↦ ok empty_state | some i ↦ node_at m i ]

-- `for i, n := range orderedNodes { nodeSet[n.ID] = i }`
unfoldable pub index_nodes : ℕ → NodeSet → List State → NodeSet
unfolding Map.insert
index_nodes i set [] = set
index_nodes i set (n ∷ ns) = index_nodes (suc i) (Map.insert n.id i set) ns

-- The edge loop of `Subgraph`: edges between nodes of the set. The keys of a map are distinct, so
-- `edges[from]` is fresh in each round.
unfoldable pub keep_edges : NodeSet → EdgeSet → EdgeSet
unfolding Map.has
keep_edges set [] = []
keep_edges set ((from, to) ∷ edges) =
    let rest = keep_edges set edges in
    if Map.has from set then (from, filterb (λ n. Map.has n set) to) ∷ rest else rest

-- `m.OrderedNodes[index:]` and what is built from it; `make` panics at a negative length.
unfoldable pub subgraph_from : MemorySource → ℕ → Result Error MemorySource
unfolding index_nodes keep_edges
subgraph_from m index =
    let ordered = drop index m.ordered_nodes in
    let set = index_nodes 0 [] ordered in
    if leb index (length m.ordered_nodes)
    then ok (record { ordered_nodes = ordered; nodes = set; edges = keep_edges set m.edges })
    else panic

-- `Subgraph`
unfoldable pub subgraph : MemorySource → String → Result Error MemorySource
unfolding subgraph_from Map.lookup
subgraph m head = if head == "" then subgraph_from m 0 else elim (Map.lookup head m.nodes) [
  | none ↦ err (version_not_in_graph head)
  | some index ↦ subgraph_from m index
]

-- The inner loop of `validateAllNodesPathToHead`, from `current`.
unfoldable pub chase :
    ℕ → MemorySource → String → String → List String → String → Result Error (Unit {0})
unfolding next_version
chase zero m head from visited current = timeout
chase (suc fuel) m head from visited current =
    let rest = chase fuel m head from (current ∷ visited) (next_version m current) in
    if current == head
    then ok tt
    else if any (λ v. v == current) visited
    then err (channel_cycle (visited ++ current ∷ []))
    else if current == ""
    then err (no_path from head)
    else rest

-- Enough rounds for `chase`: it visits each key of the edge set once, and one text more.
abbrev pub chase_fuel : MemorySource → ℕ
chase_fuel m = suc (suc (length m.edges))

-- The outer loop of `validateAllNodesPathToHead`.
unfoldable pub validate_paths : MemorySource → String → List State → Result Error (Unit {0})
unfolding chase
validate_paths m head [] = ok tt
validate_paths m head (n ∷ ns) =
    let rest = validate_paths m head ns in
    if n.id == head then rest else chase (chase_fuel m) m head n.id [] (next_version m n.id) >> rest

-- `validateAllNodesPathToHead`
unfoldable pub validate_all_nodes_path_to_head : MemorySource → Result Error (Unit {0})
unfolding validate_paths node_at
validate_all_nodes_path_to_head m = do head ← node_at m 0; validate_paths m head.id m.ordered_nodes

-- The loop of `NewMemorySource` that indexes the nodes.
unfoldable pub new_node_set : ℕ → NodeSet → List State → Result Error NodeSet
unfolding Map.has Map.insert
new_node_set i set [] = ok set
new_node_set i set (n ∷ ns) =
    fail_if (Map.has n.id set) (duplicate_node n.id)
    >> new_node_set (suc i) (Map.insert n.id i set) ns

-- The targets of one node: each is a node.
unfoldable pub check_targets : NodeSet → List String → Result Error (Unit {0})
unfolding Map.has
check_targets set [] = ok tt
check_targets set (to ∷ rest) =
    fail_if (not (Map.has to set)) (missing_node to) >> check_targets set rest

abbrev pub is_empty {ℓ} : {A : Type ℓ} → List A → Bool
is_empty [] = true
is_empty (x ∷ xs) = false

-- The loop of `NewMemorySource` over the edges.
unfoldable pub check_edges : NodeSet → String → EdgeSet → Result Error (Unit {0})
unfolding check_targets
check_edges set head [] = ok tt
check_edges set head ((from, to) ∷ edges) = do
  fail_if (not (Map.has from set)) (missing_node from)
  check_targets set to
  fail_if (is_empty to && not (from == head)) (no_outgoing_edges from)
  check_edges set head edges

-- `newMemorySourceFromValidatedNodes`
unfoldable pub from_validated_nodes : NodeSet → EdgeSet → List State → Result Error MemorySource
unfolding validate_all_nodes_path_to_head
from_validated_nodes set edges nodes =
    let source : MemorySource = record { ordered_nodes = nodes; nodes = set; edges = edges } in
    validate_all_nodes_path_to_head source >> ok source

-- `NewMemorySource`
unfoldable pub new_memory_source : List State → EdgeSet → Result Error MemorySource
unfolding new_node_set check_edges from_validated_nodes
new_memory_source [] edges = err missing_nodes
new_memory_source (newest ∷ nodes) edges = do
  fail_if (is_empty edges) missing_edges
  set ← new_node_set 0 [] (newest ∷ nodes)
  check_edges set newest.id edges
  from_validated_nodes set edges (newest ∷ nodes)
