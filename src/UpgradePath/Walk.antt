-- ===== src/UpgradePath/Walk.antt =====
-- tools/validate-upgrade-path/main.go: when the loop of `validateUpgrade` ends, and when it does
-- not.
use spicedb_operator.Base.{
  In, List, Option, Option-cases, String, [], arith, eq_iff, eq_or_ne, false, inl, inr, ne_of_test,
  none, ok, some, suc, zero, ℕ, ◌++◌, ◌<◌, ◌==◌, ◌∙◌, ◌∷◌, ◌≡◌, ◌≢◌,
}
use spicedb_operator.Base.Map
use spicedb_operator.Updates.Types.{empty_state, State}
use spicedb_operator.Updates.Memory.{MemorySource, next_version, edges_of, state}
use spicedb_operator.Updates.Memory.Index.{IsIndexed}
use spicedb_operator.Updates.Memory.Subgraph.{position, state_at, state_unknown}
use spicedb_operator.Updates.Memory.Validate.{IsSource}
use spicedb_operator.Updates.Memory.Pinned.{subgraph-next_version_bounded}
use spicedb_operator.Updates.Memory.{edges_of, subgraph}
use spicedb_operator.UpgradePath.{PathStep, walk, step_to}

-- Every edge leads to a newer version, as the comment in memory.go assumes of the adjacency lists.
pub record IsOrdered (m : MemorySource) : Type 0 where
  pub newer :
      (from to : String) (i j : ℕ)
      → In to (edges_of m.edges from)
      → Map.lookup from m.nodes ≡ some i
      → Map.lookup to m.nodes ≡ some j
      → j < i

-- `State` answers on every text.
pub state_answers :
    (m : MemorySource) (id : String)
    → IsIndexed m.nodes m.ordered_nodes
    → (s : State) × (state m id ≡ ok s)
state_answers m id indexed = elim (Option-cases (Map.lookup id m.nodes)) [
  | inl unknown ↦ (empty_state, state_unknown m id unknown)
  | inr (i, at) ↦ let (s, there, _) = position m id indexed at in (s, state_at m id at there)
]

-- One round of the loop that does not end it.
walk-next :
    (fuel : ℕ) (source sub : MemorySource) (path : List PathStep) (current to : String)
    {a b : State}
    → (current == to) ≡ false
    → (next_version sub current == "") ≡ false
    → state source (next_version sub current) ≡ ok a
    → state source current ≡ ok b
    → walk (suc fuel) source sub path current to
      ≡ walk fuel source sub
          (path ++ step_to (next_version sub current) a b ∷ [])
          (next_version sub current)
          to
unfolding walk
walk-next fuel source sub path current to far on ea eb = rw (far, on, ea, eb)

walk-arrived :
    (fuel : ℕ) (source sub : MemorySource) (path : List PathStep) (current to : String)
    → current ≡ to
    → walk (suc fuel) source sub path current to ≡ ok (some path)
unfolding walk
walk-arrived fuel source sub path current to e = rw ((eq_iff current to).1 e)

walk-lost :
    (fuel : ℕ) (source sub : MemorySource) (path : List PathStep) (current to : String)
    → (current == to) ≡ false
    → next_version sub current ≡ ""
    → walk (suc fuel) source sub path current to ≡ ok none
unfolding walk
walk-lost fuel source sub path current to far lost =
    rw (far, (eq_iff (next_version sub current) "").1 lost)

module _ (m s : MemorySource) (to : String) (pin : ℕ) (valid : IsSource m) (wanted : to ≢ "")
    (at : Map.lookup to m.nodes ≡ some pin) (made : subgraph m to ≡ ok s) where
  -- The version after `current` is a node, further on towards the newest one.
  next_is_newer :
      (current : String) {i : ℕ}
      → IsOrdered m
      → next_version s current ≢ ""
      → Map.lookup current m.nodes ≡ some i
      → (j : ℕ) × (Map.lookup (next_version s current) m.nodes ≡ some j) × (j < i)
  next_is_newer current {i} ordered on here =
      let (edge, below) =
        subgraph-next_version_bounded m to pin valid.indexed wanted at made current on in
      elim (Option-cases (Map.lookup (next_version s current) m.nodes)) [
        | inl unknown ↦ absurd (ground (arith, below, unknown))
        | inr (j, there) ↦
            (j, there, ordered.newer current (next_version s current) i j edge here there)
      ]

  -- Where every edge leads to a newer version, the loop of `validateUpgrade` ends: with as many
  -- rounds as `from` has newer versions, and one more, it finds a path or finds none.
  pub walk_ends :
      (fuel : ℕ) (path : List PathStep) (from : String) {i : ℕ}
      → IsOrdered m
      → Map.lookup from m.nodes ≡ some i
      → i < fuel
      → (found : Option (List PathStep)) × (walk fuel m s path from to ≡ ok found)
  walk_ends zero path from ordered here enough = absurd (omega arith)
  walk_ends (suc fuel) path from {i} ordered here enough = elim (eq_or_ne from to) [
    | inl arrived ↦ (some path, walk-arrived fuel m s path from to arrived)
    | inr far ↦ elim (eq_or_ne (next_version s from) "") [
      | inl lost ↦ (none, walk-lost fuel m s path from to far lost)
      | inr on ↦
          let (j, there, less) = next_is_newer from ordered (ne_of_test _ _ on) here in
          let (a, ea) = state_answers m (next_version s from) valid.indexed in
          let (b, eb) = state_answers m from valid.indexed in
          let longer = path ++ step_to (next_version s from) a b ∷ [] in
          let (found, e) =
            walk_ends fuel longer (next_version s from) ordered there (omega arith) in
          (found, walk-next fuel m s path from to far on ea eb ∙ e)
    ]
  ]

-- A set of versions that the newest edges never leave, and that does not hold the wanted version.
pub record IsTrap (s : MemorySource) (to : String) (P : String → Type 0) : Type 0 where
  pub misses : (c : String) → P c → c ≢ to
  pub goes_on : (c : String) → P c → next_version s c ≢ ""
  pub stays : (c : String) → P c → P (next_version s c)
