-- ===== src/Updates/Memory/Subgraph.antt =====
-- pkg/updates/memory.go: `Subgraph`, the part of a source at or below a pinned version.
use spicedb_operator.Base.{
  Bool, Bool-cases, Option-cases, String, [], ap, arith, drop, eq_iff, eq_or_ne, false, filterb,
  get_elem?, get_elem?-drop, if◌then◌else◌, inl, inr, last_or, leb, length, none, ok, refl, some,
  subst, sym, ℕ, ◌+◌, ◌-◌, ◌∙◌, ◌∷◌, ◌≡◌, ◌≢◌, ◌≤◌,
}
use spicedb_operator.Base.Map
use spicedb_operator.Updates.Types.{State, EdgeSet, empty_state}
use spicedb_operator.Updates.Memory.{
  NodeSet, MemorySource, next_version, edges_of, keep_edges, subgraph, subgraph_from, state,
  index_nodes,
}
use spicedb_operator.Updates.Memory.Index.{
  IsIndexed, index_nodes-IsIndexed, drop-HasDistinctIds, index_from, index_from_sound,
  index_from_complete,
}

-- The targets that stay are those in the set, in their order.
keep_edges-edges_of :
    (set : NodeSet) (edges : EdgeSet) (from : String)
    → edges_of (keep_edges set edges) from
      ≡ (if Map.has from set then filterb (λ n. Map.has n set) (edges_of edges from) else [])
unfolding keep_edges edges_of
keep_edges-edges_of set [] from = ground arith
keep_edges-edges_of set ((f, to) ∷ edges) from =
    ground (arith, keep_edges-edges_of set edges from, eq_iff f from)

-- A known id has a position, and the node there has that id.
pub position :
    (m : MemorySource) (id : String) {i : ℕ}
    → IsIndexed m.nodes m.ordered_nodes
    → Map.lookup id m.nodes ≡ some i
    → (s : State) × (get_elem? m.ordered_nodes i ≡ some s) × (s.id ≡ id)
position m id h e =
    let (k, s, at, found, same) = index_from_sound 0 id m.ordered_nodes (sym (h.agrees id) ∙ e) in
    (s, subst (λ p. get_elem? m.ordered_nodes p ≡ some s) (omega arith) found, same)

-- What `Subgraph` returns: the nodes from the position of `head` on, indexed anew.
pub record IsSuffixOf (m : MemorySource) (head : String) (s : MemorySource) : Type 0 where
  pub start : ℕ
  pub starts : (head ≢ "" → Map.lookup head m.nodes ≡ some start) × (head ≡ "" → start ≡ 0)
  pub suffix : s.ordered_nodes ≡ drop start m.ordered_nodes
  pub indexed : IsIndexed s.nodes s.ordered_nodes
  pub edges_kept : s.edges ≡ keep_edges s.nodes m.edges

subgraph_from-eq :
    (m : MemorySource) (i : ℕ) {s : MemorySource}
    → IsIndexed m.nodes m.ordered_nodes
    → subgraph_from m i ≡ ok s
    → (s.ordered_nodes ≡ drop i m.ordered_nodes)
      × IsIndexed s.nodes s.ordered_nodes
      × (s.edges ≡ keep_edges s.nodes m.edges)
unfolding subgraph_from
subgraph_from-eq m i {s} h e = elim (Bool-cases (leb i (length m.ordered_nodes))) [
  | inl within ↦
      let out : MemorySource = record {
        ordered_nodes = drop i m.ordered_nodes;
        nodes = index_nodes 0 [] (drop i m.ordered_nodes);
        edges = keep_edges (index_nodes 0 [] (drop i m.ordered_nodes)) m.edges;
      } in
      let same : out ≡ s = cc (sym (rw within at e)) in
      subst
        (λ t.
          (t.ordered_nodes ≡ drop i m.ordered_nodes)
          × IsIndexed t.nodes t.ordered_nodes
          × (t.edges ≡ keep_edges t.nodes m.edges))
        same
        (
          refl,
          index_nodes-IsIndexed (drop i m.ordered_nodes)
              (drop-HasDistinctIds i m.ordered_nodes h.distinct),
          refl,
        )
  | inr past ↦ cc (sym (rw past at e))
]

pub subgraph-IsSuffixOf :
    (m : MemorySource) (head : String) {s : MemorySource}
    → IsIndexed m.nodes m.ordered_nodes
    → subgraph m head ≡ ok s
    → IsSuffixOf m head s
unfolding subgraph
subgraph-IsSuffixOf m head {s} h e = elim (eq_or_ne head "") [
  | inl all_of_it ↦
      let (nodes, indexed, edges) =
        subgraph_from-eq m 0 h (rw ((eq_iff head "").1 all_of_it) at e) in
      record {
        start = 0;
        starts = (λ n. absurd (n all_of_it), λ _. refl);
        suffix = nodes;
        indexed = indexed;
        edges_kept = edges;
      }
  | inr pinned ↦ elim (Option-cases (Map.lookup head m.nodes)) [
    | inl unknown ↦ cc (sym (rw (pinned, unknown) at e))
    | inr (i, at) ↦
        let (nodes, indexed, edges) = subgraph_from-eq m i h (rw (pinned, at) at e) in
        record {
          start = i;
          starts = (λ _. at, λ empty. cc (sym pinned ∙ (eq_iff head "").1 empty));
          suffix = nodes;
          indexed = indexed;
          edges_kept = edges;
        }
  ]
]

-- What `NextVersion` and `State` answer, with their parts shut.
pub next_version_lem :
    (m : MemorySource) (from : String) → next_version m from ≡ last_or "" (edges_of m.edges from)
unfolding next_version
next_version_lem m from = refl

pub state_at :
    (m : MemorySource) (id : String) {i : ℕ} {t : State}
    → Map.lookup id m.nodes ≡ some i
    → get_elem? m.ordered_nodes i ≡ some t
    → state m id ≡ ok t
unfolding state
state_at m id e f = ground arith

pub state_unknown :
    (m : MemorySource) (id : String) → Map.lookup id m.nodes ≡ none → state m id ≡ ok empty_state
unfolding state
state_unknown m id e = ground arith

-- A version is at the pinned position or older.
abbrev pub at_or_below : MemorySource → ℕ → String → Bool
at_or_below m pin id = elim (Map.lookup id m.nodes) [ none ↦ false | some i ↦ leb pin i ]

module _ (m s : MemorySource) (head : String) (indexed : IsIndexed m.nodes m.ordered_nodes)
    (cut : IsSuffixOf m head s) where
  -- A node of the part stands `start` places further down in the whole,
  pub suffix_node :
      (id : String) {j : ℕ}
      → Map.lookup id s.nodes ≡ some j
      → Map.lookup id m.nodes ≡ some (cut.start + j)
  suffix_node id {j} e =
      let (t, found, same) = position s id cut.indexed e in
      let there : get_elem? m.ordered_nodes (cut.start + j) ≡ some t =
        sym (get_elem?-drop cut.start j m.ordered_nodes)
        ∙ subst (λ l. get_elem? l j ≡ some t) cut.suffix found in
      let at = index_from_complete 0 (cut.start + j) m.ordered_nodes indexed.distinct there in
      indexed.agrees id
      ∙ subst (λ k. index_from 0 k m.ordered_nodes ≡ some (cut.start + j)) same
          (at ∙ ap some (omega arith))

  -- and a node of the whole that is not above the part is in it.
  pub node_suffix :
      (id : String) {i : ℕ}
      → Map.lookup id m.nodes ≡ some i
      → cut.start ≤ i
      → Map.lookup id s.nodes ≡ some (i - cut.start)
  node_suffix id {i} e below =
      let (t, found, same) = position m id indexed e in
      let there : get_elem? s.ordered_nodes (i - cut.start) ≡ some t =
        subst (λ l. get_elem? l (i - cut.start) ≡ some t) (sym cut.suffix)
          (get_elem?-drop cut.start (i - cut.start) m.ordered_nodes
            ∙ subst (λ k. get_elem? m.ordered_nodes k ≡ some t) (omega arith) found) in
      let at = index_from_complete 0 (i - cut.start) s.ordered_nodes cut.indexed.distinct there in
      cut.indexed.agrees id
      ∙ subst (λ k. index_from 0 k s.ordered_nodes ≡ some (i - cut.start)) same
          (at ∙ ap some (omega arith))

  pub suffix-has : (id : String) → Map.has id s.nodes ≡ at_or_below m cut.start id
  unfolding Map.has
  suffix-has id = elim (Option-cases (Map.lookup id s.nodes)) [
    | inr (j, e) ↦ ground (arith, suffix_node id e)
    | inl e ↦ elim (Option-cases (Map.lookup id m.nodes)) [
      | inl e' ↦ ground arith
      | inr (i, e') ↦ ground (arith, node_suffix id e')
    ]
  ]

  pub suffix-state :
      (id : String) {i : ℕ}
      → Map.lookup id m.nodes ≡ some i
      → state s id ≡ (if leb cut.start i then state m id else ok empty_state)
  suffix-state id {i} e = elim (Bool-cases (leb cut.start i)) [
    | inl below ↦
        let (t, found, _) = position m id indexed e in
        let e' = node_suffix id e (ground arith) in
        let (t', found', _) = position s id cut.indexed e' in
        let same : some t' ≡ some t =
          sym found'
          ∙ ap (λ l. get_elem? l (i - cut.start)) cut.suffix
          ∙ get_elem?-drop cut.start (i - cut.start) m.ordered_nodes
          ∙ ap (get_elem? m.ordered_nodes) (ground arith)
          ∙ found in
        rw below (state_at s id e' (found' ∙ same) ∙ sym (state_at m id e found))
    | inr above ↦ elim (Option-cases (Map.lookup id s.nodes)) [
      | inl gone ↦ rw above (state_unknown s id gone)
      | inr (j, e') ↦ absurd (ground (arith, suffix_node id e'))
    ]
  ]

  pub suffix-next_version :
      (from : String)
      → next_version s from ≡ (
          if at_or_below m cut.start from
          then last_or "" (filterb (at_or_below m cut.start) (edges_of m.edges from))
          else "")
  suffix-next_version from =
      let kept : edges_of s.edges from ≡ (
          if at_or_below m cut.start from
          then filterb (at_or_below m cut.start) (edges_of m.edges from)
          else []) =
        ap (λ k. edges_of k from) cut.edges_kept ∙ keep_edges-edges_of s.nodes m.edges from ∙ (λ i.
          if suffix-has from i
          then filterb (λ n. suffix-has n i) (edges_of m.edges from)
          else []) in
      next_version_lem s from ∙ ap (last_or "") kept ∙ ground arith
