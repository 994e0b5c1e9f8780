-- ===== src/Updates/Target/Calls.antt =====
-- pkg/updates/file.go: the calls of a source that `ComputeTarget` makes always return.
use spicedb_operator.Base.{
  Bool, Bool-cases, List, Option, Option-cases, Result, Returns, Returns->>=, String, [], ap, arith,
  eq_or_ne, err, false, get_elem?, get_elem?-drop, if◌then◌else◌, inl, inr, ne_of_test, none, ok,
  panic, refl, some, subst, timeout, true, ℕ, ◌+◌, ◌==◌, ◌∙◌, ◌∷◌, ◌≡◌,
}
use spicedb_operator.Base.Map
use spicedb_operator.Api.Version.{Version}
use spicedb_operator.Updates.Types.{State, Error}
use spicedb_operator.Updates.Memory.{
  MemorySource, node_at, node_of, state, edges_of, next_version, scan_without_migrations,
  next_version_without_migrations, latest_version, same_migration, subgraph,
}
use spicedb_operator.Updates.Memory.Index.{IsIndexed}
use spicedb_operator.Updates.Memory.Subgraph.{position, subgraph-IsSuffixOf}
use spicedb_operator.Updates.Memory.Pinned.{subgraph_total}
use spicedb_operator.Updates.Memory.Validate.{IsSource}
use spicedb_operator.UpgradePath.Walk.{state_answers}
use spicedb_operator.Updates.Target.{Plan, handle, on_source, next_step, take_step, with_migration}

-- The nodes are indexed, and there is one.
unfoldable pub Usable : MemorySource → Type 0
Usable m =
    IsIndexed m.nodes m.ordered_nodes × ((s : State) × (get_elem? m.ordered_nodes 0 ≡ some s))

pub IsSource-Usable : (m : MemorySource) → IsSource m → Usable m
unfolding Usable
IsSource-Usable m v = (v.indexed, (v.newest, v.first))

pub if-Returns :
    {E : Type 0} {A : Type 0} (b : Bool) (x y : Result E A)
    → Returns x
    → Returns y
    → Returns (if b then x else y)
if-Returns true x y h k = h
if-Returns false x y h k = k

pub handle-Returns :
    {A : Type 0} {B : Type 0} (r : Result Error A) (failed : Error → Result Error B)
    (k : A → Result Error B)
    → Returns r
    → ((e : Error) → Returns (failed e))
    → ((a : A) → r ≡ ok a → Returns (k a))
    → Returns (handle r failed k)
handle-Returns (ok a) failed k h f n = n a refl
handle-Returns (err e) failed k h f n = f e
handle-Returns panic failed k h f n = h
handle-Returns timeout failed k h f n = h

pub state-Returns : (m : MemorySource) (id : String) → Usable m → Returns (state m id)
unfolding Usable
state-Returns m id (indexed, _) = let (s, e) = state_answers m id indexed in rw e tt

pub node_at-Returns :
    (m : MemorySource) (i : ℕ) {s : State}
    → get_elem? m.ordered_nodes i ≡ some s
    → Returns (node_at m i)
unfolding node_at
node_at-Returns m i {s} e = let there : node_at m i ≡ ok s = rw (node_at, e) in rw there tt

pub node_of-Returns : (m : MemorySource) (id : String) → Usable m → Returns (node_of m id)
unfolding Usable node_of Map.get_or
node_of-Returns m id (indexed, (s, first)) = go (Map.lookup id m.nodes) refl
  where
    go :
        (o : Option ℕ)
        → Map.lookup id m.nodes ≡ o
        → Returns (node_at m (elim o [ none ↦ 0 | some i ↦ i ]))
    go none e = node_at-Returns m 0 first
    go (some i) e = let (n, there, _) = position m id indexed e in node_at-Returns m i there

pub scan_without_migrations-Returns :
    (m : MemorySource) (initial : State) (found : String) (ns : List String)
    → Usable m
    → Returns (scan_without_migrations m initial found ns)
unfolding scan_without_migrations
scan_without_migrations-Returns m initial found [] u = tt
scan_without_migrations-Returns m initial found (n ∷ ns) u =
    Returns->>= (node_of m n) _ (node_of-Returns m n u) (λ node _.
      if-Returns (same_migration initial node) (scan_without_migrations m initial n ns) (ok found)
        (scan_without_migrations-Returns m initial n ns u) tt)

pub next_version_without_migrations-Returns :
    (m : MemorySource) (from : String) → Usable m → Returns (next_version_without_migrations m from)
unfolding next_version_without_migrations
next_version_without_migrations-Returns m from u =
    Returns->>= (node_of m from) _ (node_of-Returns m from u)
      (λ initial _. scan_without_migrations-Returns m initial "" (edges_of m.edges from) u)

pub take_step-Returns :
    (p : Plan) (m : MemorySource) (v : String) (target : Version)
    → Usable m
    → Returns (take_step p m v target)
unfolding take_step
take_step-Returns p m v target u = Returns->>= (state m v) _ (state-Returns m v u) (λ s _. tt)

pub next_step-Returns : (p : Plan) (m : MemorySource) → Usable m → Returns (next_step p m)
unfolding next_step
next_step-Returns p m u = elim (Option-cases p.current) [
  | inl e ↦ rw e (
      take_step-Returns (record p { current = none }) m (latest_version m "")
        (with_migration p.target) u)
  | inr (cv, e) ↦
      let q = record p { current = some cv } in
      rw e (
        if-Returns (cv.name == "") _ _
          (take_step-Returns q m (latest_version m "") (with_migration p.target) u)
          (if-Returns (next_version m cv.name == "") _ _ tt (
            Returns->>= (next_version_without_migrations m cv.name) _
              (next_version_without_migrations-Returns m cv.name u)
              (λ direct _. take_step-Returns q m (next_version m cv.name) _ u))))
]

pub on_source-Returns :
    {B : Type 0} (o : Option MemorySource) (m : MemorySource) (k : MemorySource → Result Error B)
    → o ≡ some m
    → Returns (k m)
    → Returns (on_source o k)
on_source-Returns none m k e r = cc
on_source-Returns (some n) m k e r =
    let same : m ≡ n = ground arith in subst (λ x. Returns (k x)) same r

pub subgraph-Returns : (m : MemorySource) (v : String) → Usable m → Returns (subgraph m v)
unfolding Usable
subgraph-Returns m v (indexed, _) =
    let (known, unknown) = subgraph_total m v indexed in
    elim (eq_or_ne v "") [
      | inl unpinned ↦ let (s, e) = known (inl unpinned) in rw e tt
      | inr pinned ↦ elim (Bool-cases (Map.has v m.nodes)) [
        | inl h ↦ let (s, e) = known (inr h) in rw e tt
        | inr h ↦ rw (unknown (ne_of_test v "" pinned) h) tt
      ]
    ]

-- A subgraph starts at a node.
pub subgraph-Usable :
    (m : MemorySource) (v : String) {s : MemorySource} → Usable m → subgraph m v ≡ ok s → Usable s
unfolding Usable
subgraph-Usable m v {s} (indexed, (first, there)) made =
    let cut = subgraph-IsSuffixOf m v indexed made in
    let at = get_elem?-drop cut.start 0 m.ordered_nodes in
    (
      cut.indexed,
      elim (eq_or_ne v "") [
        | inl unpinned ↦
            let start : cut.start + 0 ≡ 0 = omega (arith, cut.starts.1 unpinned) in
            (
              first,
              ap (λ ns. get_elem? ns 0) cut.suffix
                  ∙ at
                  ∙ ap (λ i. get_elem? m.ordered_nodes i) start
                  ∙ there,
            )
        | inr pinned ↦
            let (n, found, _) = position m v indexed (cut.starts.0 (ne_of_test v "" pinned)) in
            let start : cut.start + 0 ≡ cut.start = omega arith in
            (
              n,
              ap (λ ns. get_elem? ns 0) cut.suffix
                  ∙ at
                  ∙ ap (λ i. get_elem? m.ordered_nodes i) start
                  ∙ found,
            )
      ],
    )
