-- ===== src/Updates/Memory/Validate.antt =====
-- pkg/updates/memory.go: what `NewMemorySource` accepts, and that it always returns.
use spicedb_operator.Base.{
  >>-eq-ok, >>=-eq-ok, All, Bool-cases, List, Returns, Returns->>, Returns->>=, String, [], arith,
  eq_iff, eq_or_ne, fail_if, fail_if-Returns, fail_if-eq-ok, get_elem?, inl, inr, not, ok, refl,
  some, subst, suc, true, ℕ, ◌&&◌, ◌==◌, ◌∷◌, ◌≡◌,
}
use spicedb_operator.Base.Map
use spicedb_operator.Updates.Types.{
  State, EdgeSet, missing_node, duplicate_node, no_outgoing_edges, missing_edges,
}
use spicedb_operator.Updates.Memory.{
  NodeSet, MemorySource, next_version, chase, chase_fuel, validate_paths, check_targets, is_empty,
  check_edges, new_memory_source, new_node_set, validate_all_nodes_path_to_head,
}
use spicedb_operator.Updates.Memory.Index.{IsIndexed, new_node_set-IsIndexed}
use spicedb_operator.Updates.Memory.Chase.{Reaches, arrive, chase_sound, chase-Returns, update}

-- Every id that one node's edges name is a node, and only the head has no edges.
pub record IsClosedAt (set : NodeSet) (head : String) (e : String × List String) : Type 0 where
  pub from_known : Map.has e.0 set ≡ true
  pub targets_known : All (λ to. Map.has to set ≡ true) e.1
  pub dead_end : is_empty e.1 ≡ true → e.0 ≡ head

-- What a source must satisfy: the node set agrees with the list of nodes, the edges stay inside it,
-- and the newest edges lead from every node to the first one.
pub record IsSource (m : MemorySource) : Type 0 where
  pub newest : State
  pub first : get_elem? m.ordered_nodes 0 ≡ some newest
  pub indexed : IsIndexed m.nodes m.ordered_nodes
  pub closed : All (IsClosedAt m.nodes newest.id) m.edges
  pub leads : All (λ n. Reaches m newest.id n.id) m.ordered_nodes

check_targets_sound :
    (set : NodeSet) (to : List String)
    → check_targets set to ≡ ok tt
    → All (λ t. Map.has t set ≡ true) to
unfolding check_targets
check_targets_sound set [] h = tt
check_targets_sound set (t ∷ to) h =
    let (known, rest) = fail_if-eq-ok (not (Map.has t set)) (missing_node t) _ h in
    (ground arith, check_targets_sound set to rest)

check_edges_sound :
    (set : NodeSet) (head : String) (edges : EdgeSet)
    → check_edges set head edges ≡ ok tt
    → All (IsClosedAt set head) edges
unfolding check_edges
check_edges_sound set head [] h = tt
check_edges_sound set head ((from, to) ∷ edges) h =
    let (known, h1) = fail_if-eq-ok (not (Map.has from set)) (missing_node from) _ h in
    let (targets, h2) = >>-eq-ok (check_targets set to) _ h1 in
    let (dead, h3) =
      fail_if-eq-ok (is_empty to && not (from == head)) (no_outgoing_edges from) _ h2 in
    (
      record {
        from_known = ground arith;
        targets_known = check_targets_sound set to targets;
        dead_end = ground (arith, dead, eq_iff from head);
      },
      check_edges_sound set head edges h3,
    )

validate_paths_sound :
    (m : MemorySource) (head : String) (ns : List State)
    → validate_paths m head ns ≡ ok tt
    → All (λ n. Reaches m head n.id) ns
unfolding validate_paths
validate_paths_sound m head [] h = tt
validate_paths_sound m head (n ∷ ns) h = elim (eq_or_ne n.id head) [
  | inl here ↦ (arrive here, validate_paths_sound m head ns (rw ((eq_iff n.id head).1 here) at h))
  | inr other ↦
      let (found, rest) =
        >>-eq-ok (chase (chase_fuel m) m head n.id [] (next_version m n.id)) _ (rw other at h) in
      (
        update (chase_sound (chase_fuel m) m head n.id [] (next_version m n.id) found),
        validate_paths_sound m head ns rest,
      )
]

-- `NewMemorySource` accepts only well-formed sources, and changes neither nodes nor edges: the ids
-- are distinct and indexed, each edge joins two nodes, only the first node lacks outgoing edges,
-- and following the newest edges leads from every node to the first.
pub new_memory_source-IsSource :
    (nodes : List State) (edges : EdgeSet) {m : MemorySource}
    → new_memory_source nodes edges ≡ ok m
    → IsSource m × (m.ordered_nodes ≡ nodes) × (m.edges ≡ edges)
unfolding new_memory_source
new_memory_source-IsSource [] edges h = cc
new_memory_source-IsSource (newest ∷ nodes) edges {m} h =
    let (_, h1) = fail_if-eq-ok (is_empty edges) missing_edges _ h in
    let (set, indexed, h2) = >>=-eq-ok (new_node_set 0 [] (newest ∷ nodes)) _ h1 in
    let (closed, h3) = >>-eq-ok (check_edges set newest.id edges) _ h2 in
    let src : MemorySource = record {
      ordered_nodes = newest ∷ nodes;
      nodes = set;
      edges = edges;
    } in
    let (leads, made) = >>-eq-ok (validate_all_nodes_path_to_head src) (ok src) h3 in
    let e : src ≡ m = cc in
    let valid : IsSource src = record {
      newest = newest;
      first = refl;
      indexed = new_node_set-IsIndexed (newest ∷ nodes) indexed;
      closed = check_edges_sound set newest.id edges closed;
      leads = validate_paths_sound src newest.id (newest ∷ nodes) leads;
    } in
    subst (λ s. IsSource s × (s.ordered_nodes ≡ newest ∷ nodes) × (s.edges ≡ edges)) e
      (valid, refl, refl)

validate_paths-Returns :
    (m : MemorySource) (head : String) (ns : List State) → Returns (validate_paths m head ns)
unfolding validate_paths
validate_paths-Returns m head [] = tt
validate_paths-Returns m head (n ∷ ns) = elim (Bool-cases (n.id == head)) [
  | inl here ↦ rw here (validate_paths-Returns m head ns)
  | inr other ↦ rw other (
      Returns->> (chase (chase_fuel m) m head n.id [] (next_version m n.id)) _
        (chase-Returns m head n.id (next_version m n.id)) (validate_paths-Returns m head ns))
]

new_node_set-Returns : (i : ℕ) (set : NodeSet) (ns : List State) → Returns (new_node_set i set ns)
unfolding new_node_set
new_node_set-Returns i set [] = tt
new_node_set-Returns i set (n ∷ ns) =
    Returns->> (fail_if (Map.has n.id set) (duplicate_node n.id)) _ (fail_if-Returns _ _)
      (new_node_set-Returns (suc i) (Map.insert n.id i set) ns)

check_targets-Returns : (set : NodeSet) (to : List String) → Returns (check_targets set to)
unfolding check_targets
check_targets-Returns set [] = tt
check_targets-Returns set (t ∷ to) =
    Returns->> (fail_if (not (Map.has t set)) (missing_node t)) _ (fail_if-Returns _ _)
      (check_targets-Returns set to)

check_edges-Returns :
    (set : NodeSet) (head : String) (edges : EdgeSet) → Returns (check_edges set head edges)
unfolding check_edges
check_edges-Returns set head [] = tt
check_edges-Returns set head ((from, to) ∷ edges) =
    Returns->> (fail_if (not (Map.has from set)) (missing_node from)) _ (fail_if-Returns _ _) (
      Returns->> (check_targets set to) _ (check_targets-Returns set to) (
        Returns->> (fail_if (is_empty to && not (from == head)) (no_outgoing_edges from)) _
          (fail_if-Returns _ _) (check_edges-Returns set head edges)))

-- Whatever it is given, `NewMemorySource` returns a source or an error: the walk to the head ends
-- on every graph, cyclic ones included, and no index is out of range.
pub new_memory_source-Returns :
    (nodes : List State) (edges : EdgeSet) → Returns (new_memory_source nodes edges)
unfolding new_memory_source
new_memory_source-Returns [] edges = tt
new_memory_source-Returns (newest ∷ nodes) edges =
    Returns->> (fail_if (is_empty edges) missing_edges) _ (fail_if-Returns _ _) (
      Returns->>= (new_node_set 0 [] (newest ∷ nodes)) _
        (new_node_set-Returns 0 [] (newest ∷ nodes))
        λ set _.
          Returns->> (check_edges set newest.id edges) _ (check_edges-Returns set newest.id edges)
            (Returns->> _ _ (validate_paths-Returns _ newest.id (newest ∷ nodes)) tt))
