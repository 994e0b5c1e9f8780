-- ===== src/Updates/Memory/Steps.antt =====
-- pkg/updates/memory.go: `NextVersion`, `NextVersionWithoutMigrations` and `LatestVersion` on the
-- sources that `NewMemorySource` makes.
use spicedb_operator.Base.{
  All, All-In, Bool, In, List, Result, String, [], ap, arith, eq_iff, eq_or_ne, err, get_elem?, inl,
  inr, last_or, last_or-In, none, ok, panic, refl, some, subst, subst₂, sym, take_while,
  take_while-In, timeout, true, ℕ, ◌∙◌, ◌∷◌, ◌≡◌, ◌≢◌, ◌⊎◌,
}
use spicedb_operator.Base.Map
use spicedb_operator.Updates.Types.{State, EdgeSet, Error, empty_state}
use spicedb_operator.Updates.Memory.{
  MemorySource, next_version, edges_of, state, node_of, same_migration, scan_without_migrations,
  next_version_without_migrations,
}
use spicedb_operator.Updates.Memory.Index.{IsIndexed}
use spicedb_operator.Updates.Memory.Subgraph.{position, state_at, next_version_lem}
use spicedb_operator.Updates.Memory.Validate.{IsSource, IsClosedAt}

-- The state that `State` answers, empty for an unknown version.
abbrev pub state_or_empty : Result Error State → State
state_or_empty (ok s) = s
state_or_empty (err e) = empty_state
state_or_empty panic = empty_state
state_or_empty timeout = empty_state

-- Two versions run on one migration and one phase, by what `State` answers of them.
abbrev pub needs_no_migration : MemorySource → String → String → Bool
needs_no_migration m from to =
    same_migration (state_or_empty (state m from)) (state_or_empty (state m to))

node_of_at :
    (m : MemorySource) (id : String) {i : ℕ} {t : State}
    → Map.lookup id m.nodes ≡ some i
    → get_elem? m.ordered_nodes i ≡ some t
    → node_of m id ≡ ok t
unfolding node_of
node_of_at m id e f = ground arith

node_of-state :
    (m : MemorySource) (id : String)
    → IsIndexed m.nodes m.ordered_nodes
    → Map.has id m.nodes ≡ true
    → node_of m id ≡ ok (state_or_empty (state m id))
node_of-state m id indexed known =
    let (i, at) = Map.has-eq-true id m.nodes known in
    let (t, there, _) = position m id indexed at in
    rw (state_at m id at there) (node_of_at m id at there)

scan-take_while :
    (m : MemorySource) (from found : String) (to : List String)
    → IsIndexed m.nodes m.ordered_nodes
    → All (λ n. Map.has n m.nodes ≡ true) to
    → scan_without_migrations m (state_or_empty (state m from)) found to
      ≡ ok (last_or found (take_while (needs_no_migration m from) to))
unfolding scan_without_migrations
scan-take_while m from found [] indexed known = refl
scan-take_while m from found (n ∷ ns) indexed known =
    ground (arith, node_of-state m n indexed known.0, scan-take_while m from n ns indexed known.1)

-- An edge list that the map holds satisfies what every entry does.
pub edges_of-All :
    (P : String × List String → Type 0) (edges : EdgeSet) (from : String)
    → All P edges
    → (edges_of edges from ≡ []) ⊎ P (from, edges_of edges from)
unfolding edges_of
edges_of-All P [] from h = inl refl
edges_of-All P ((f, to) ∷ edges) from h = elim (eq_or_ne f from) [
  | inl same ↦
      let e : to ≡ edges_of ((f, to) ∷ edges) from = ground (arith, eq_iff f from) in
      inr (subst₂ (λ k v. P (k, v)) same e h.0)
  | inr other ↦
      let e : edges_of edges from ≡ edges_of ((f, to) ∷ edges) from = ground arith in
      subst (λ v. (v ≡ []) ⊎ P (from, v)) e (edges_of-All P edges from h.1)
]

edges_of-known :
    (m : MemorySource) (from : String)
    → IsSource m
    → All (λ n. Map.has n m.nodes ≡ true) (edges_of m.edges from)
edges_of-known m from v =
    elim (edges_of-All (IsClosedAt m.nodes v.newest.id) m.edges from v.closed) [
      | inl empty ↦ rw empty tt
      | inr closed ↦ closed.targets_known
    ]

-- On a validated source the newest version that needs no migration is the last of the edges before
-- the first one that changes the phase or the migration; it is "" where that is the first edge of
-- all, or where there is none.
pub next_version_without_migrations_lem :
    (m : MemorySource) (from : String)
    → IsSource m
    → Map.has from m.nodes ≡ true
    → next_version_without_migrations m from
      ≡ ok (last_or "" (take_while (needs_no_migration m from) (edges_of m.edges from)))
unfolding next_version_without_migrations
next_version_without_migrations_lem m from v known =
    rw (node_of-state m from v.indexed known)
      (scan-take_while m from "" (edges_of m.edges from) v.indexed (edges_of-known m from v))

-- So such an update follows an edge, and keeps the phase and the migration.
pub next_version_without_migrations_sound :
    (m : MemorySource) (from : String) {next : String}
    → IsSource m
    → Map.has from m.nodes ≡ true
    → next_version_without_migrations m from ≡ ok next
    → next ≢ ""
    → In next (edges_of m.edges from) × (needs_no_migration m from next ≡ true)
next_version_without_migrations_sound m from {next} v known e some_next =
    let direct = take_while (needs_no_migration m from) (edges_of m.edges from) in
    let same : last_or "" direct ≡ next =
      cc (sym (next_version_without_migrations_lem m from v known) ∙ e) in
    elim (last_or-In "" direct) [
      | inl empty ↦ absurd (some_next (sym same ∙ empty))
      | inr listed ↦
          take_while-In next (needs_no_migration m from) (edges_of m.edges from)
            (subst (λ n. In n direct) same listed)
    ]

-- A validated source answers `NextVersion` by a node, or by "" at a node with no edge.
pub next_version-known :
    (m : MemorySource) (from : String)
    → IsSource m
    → next_version m from ≢ ""
    → Map.has (next_version m from) m.nodes ≡ true
next_version-known m from v some_next = elim (last_or-In "" (edges_of m.edges from)) [
  | inl empty ↦ absurd (some_next (next_version_lem m from ∙ empty))
  | inr listed ↦ rw (next_version_lem m from) (
      All-In (λ n. Map.has n m.nodes ≡ true) (edges_of m.edges from) (edges_of-known m from v)
        listed)
]

pub next_version-In :
    (m : MemorySource) (from : String)
    → next_version m from ≢ ""
    → In (next_version m from) (edges_of m.edges from)
next_version-In m from some_next = elim (last_or-In "" (edges_of m.edges from)) [
  | inl empty ↦ absurd (some_next (next_version_lem m from ∙ empty))
  | inr listed ↦ rw (next_version_lem m from) listed
]

-- A version that a validated source does not know has no next version there.
pub next_version_of_unknown :
    (m : MemorySource) (id : String)
    → IsSource m
    → Map.lookup id m.nodes ≡ none
    → next_version m id ≡ ""
next_version_of_unknown m id v unknown =
    elim (edges_of-All (IsClosedAt m.nodes v.newest.id) m.edges id v.closed) [
      | inl empty ↦ next_version_lem m id ∙ ap (last_or "") empty
      | inr closed ↦
          let (i, at) = Map.has-eq-true id m.nodes closed.from_known in cc (sym unknown ∙ at)
    ]
