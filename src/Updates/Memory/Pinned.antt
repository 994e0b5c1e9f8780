-- ===== src/Updates/Memory/Pinned.antt =====
-- pkg/updates/memory.go: what `Subgraph` promises about a pinned version.
use spicedb_operator.Base.{
  Bool-cases, In, List, String, [], arith, drop, eq_iff, eq_or_ne, err, false, filterb, filterb-In,
  get_elem?, if◌then◌else◌, inl, inr, last_or, last_or-In, leb, length, ok, some, subst, suc, sym,
  test_of_ne, true, zero, ℕ, ◌<◌, ◌∙◌, ◌∷◌, ◌≡◌, ◌≢◌, ◌≤◌, ◌⊎◌,
}
use spicedb_operator.Base.Map
use spicedb_operator.Updates.Types.{version_not_in_graph, empty_state}
use spicedb_operator.Updates.Memory.{
  MemorySource, index_nodes, keep_edges, next_version, edges_of, subgraph, subgraph_from, state,
}
use spicedb_operator.Updates.Memory.Index.{IsIndexed}
use spicedb_operator.Updates.Memory.Subgraph.{
  IsSuffixOf, subgraph-IsSuffixOf, suffix-state, suffix-has, suffix-next_version, at_or_below,
  position,
}

get_elem?-lt {ℓ} :
    {A : Type ℓ} (xs : List A) (i : ℕ) {a : A} → get_elem? xs i ≡ some a → i < length xs
get_elem?-lt [] i h = cc
get_elem?-lt (x ∷ xs) zero h = omega arith
get_elem?-lt (x ∷ xs) (suc i) h = omega (arith, get_elem?-lt xs i h)

subgraph_from_total :
    (m : MemorySource) (i : ℕ)
    → i ≤ length m.ordered_nodes
    → (s : MemorySource) × (subgraph_from m i ≡ ok s)
unfolding subgraph_from
subgraph_from_total m i h = (
  record {
    ordered_nodes = drop i m.ordered_nodes;
    nodes = index_nodes 0 [] (drop i m.ordered_nodes);
    edges = keep_edges (index_nodes 0 [] (drop i m.ordered_nodes)) m.edges;
  },
  ground arith,
)

-- `Subgraph` gives a source for the empty pin and for every known version, and refuses any other
-- by name; it never panics.
pub subgraph_total :
    (m : MemorySource) (head : String)
    → IsIndexed m.nodes m.ordered_nodes
    → ((head ≡ "") ⊎ (Map.has head m.nodes ≡ true) → (s : MemorySource) × (subgraph m head ≡ ok s))
      × (head ≢ ""
          → Map.has head m.nodes ≡ false
          → subgraph m head ≡ err (version_not_in_graph head))
unfolding subgraph
subgraph_total m head indexed = (
  elim [
    | inl unpinned ↦ rw ((eq_iff head "").1 unpinned) (subgraph_from_total m 0 (omega arith))
    | inr known ↦
        let (pin, at) = Map.has-eq-true head m.nodes known in
        let (_, there, _) = position m head indexed at in
        let (s, made) =
          subgraph_from_total m pin (omega (arith, get_elem?-lt m.ordered_nodes pin there)) in
        elim (eq_or_ne head "") [
          | inl unpinned ↦ rw ((eq_iff head "").1 unpinned) (subgraph_from_total m 0 (omega arith))
          | inr pinned ↦ (s, rw (pinned, at) made)
        ]
  ],
  λ pinned unknown. rw (test_of_ne head "" pinned, Map.has-eq-false head m.nodes unknown),
)

pin_of_cut :
    (m s : MemorySource) (head : String) (cut : IsSuffixOf m head s) {pin : ℕ}
    → head ≢ ""
    → Map.lookup head m.nodes ≡ some pin
    → cut.start ≡ pin
pin_of_cut m s head cut pinned at = cc (sym (cut.starts.0 pinned) ∙ at)

module _ (m : MemorySource) (head : String) (pin : ℕ) {s : MemorySource}
    (indexed : IsIndexed m.nodes m.ordered_nodes) (pinned : head ≢ "")
    (at : Map.lookup head m.nodes ≡ some pin) (made : subgraph m head ≡ ok s) where
  -- In the subgraph of a pinned version, a version at the pin or older has the state that it has in
  -- the whole source, and a newer one is unknown.
  pub subgraph-state :
      (id : String) {i : ℕ}
      → Map.lookup id m.nodes ≡ some i
      → state s id ≡ (if leb pin i then state m id else ok empty_state)
  subgraph-state id e =
      let cut = subgraph-IsSuffixOf m head indexed made in
      let start = pin_of_cut m s head cut pinned at in
      rw (← start) (suffix-state m s head indexed cut id e)

  -- The next version within the subgraph is the last of the node's edges that lead to the pin or to
  -- an older version; there is none from a version newer than the pin, or where no edge is left.
  pub subgraph-next_version :
      (from : String)
      → next_version s from ≡ (
          if at_or_below m pin from
          then last_or "" (filterb (at_or_below m pin) (edges_of m.edges from))
          else "")
  subgraph-next_version from =
      let cut = subgraph-IsSuffixOf m head indexed made in
      let start = pin_of_cut m s head cut pinned at in
      rw (← start) (suffix-next_version m s head indexed cut from)

  pub subgraph-has : (id : String) → Map.has id s.nodes ≡ at_or_below m pin id
  subgraph-has id =
      let cut = subgraph-IsSuffixOf m head indexed made in
      let start = pin_of_cut m s head cut pinned at in
      rw (← start) (suffix-has m s head indexed cut id)

  pub subgraph-IsIndexed : IsIndexed s.nodes s.ordered_nodes
  subgraph-IsIndexed = (subgraph-IsSuffixOf m head indexed made).indexed

  -- So an update within the subgraph follows an edge of the source and never passes the pin.
  pub subgraph-next_version_bounded :
      (from : String)
      → next_version s from ≢ ""
      → In (next_version s from) (edges_of m.edges from)
        × (at_or_below m pin (next_version s from) ≡ true)
  subgraph-next_version_bounded from some_next =
      let kept = filterb (at_or_below m pin) (edges_of m.edges from) in
      elim (Bool-cases (at_or_below m pin from)) [
        | inr above ↦ absurd (some_next (subgraph-next_version from ∙ rw above))
        | inl below ↦
            let e : next_version s from ≡ last_or "" kept = subgraph-next_version from ∙ rw below in
            elim (last_or-In "" kept) [
              | inl empty ↦ absurd (some_next (e ∙ empty))
              | inr listed ↦
                  filterb-In (next_version s from) (at_or_below m pin) (edges_of m.edges from)
                    (subst (λ v. In v kept) (sym e) listed)
            ]
      ]
