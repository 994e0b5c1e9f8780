-- ===== src/Updates/Memory/Index.antt =====
-- pkg/updates/memory.go: the node set agrees with the ordered list of nodes, both as
-- `NewMemorySource` builds it and as `Subgraph` does.
use spicedb_operator.Base.{
  All, All-get_elem?, Bool-cases, List, Option, String, [], ap, arith, drop, eq_iff, eq_or_ne,
  eq_refl, fail_if-eq-ok, false, get_elem?, if◌then◌else◌, inl, inr, ne_of_test, none, ok, refl,
  some, suc, sym, test_of_ne, zero, ℕ, ◌+◌, ◌==◌, ◌∙◌, ◌∷◌, ◌≡◌, ◌≢◌,
}
use spicedb_operator.Base.Map
use spicedb_operator.Updates.Types.{State, duplicate_node}
use spicedb_operator.Updates.Memory.{NodeSet, new_node_set, index_nodes}

-- The position of the first node with an id, counted from `i`.
unfoldable pub index_from : ℕ → String → List State → Option ℕ
index_from i id [] = none
index_from i id (n ∷ ns) = if n.id == id then some i else index_from (suc i) id ns

abbrev pub or_else {ℓ} : {A : Type ℓ} → Option A → Option A → Option A
or_else none o = o
or_else (some a) o = some a

-- No two nodes have one id.
abbrev pub HasDistinctIds : List State → Type 0
HasDistinctIds [] = Unit
HasDistinctIds (n ∷ ns) = All (λ k. k.id ≢ n.id) ns × HasDistinctIds ns

pub drop-HasDistinctIds : (k : ℕ) (ns : List State) → HasDistinctIds ns → HasDistinctIds (drop k ns)
drop-HasDistinctIds zero ns d = d
drop-HasDistinctIds (suc k) [] d = tt
drop-HasDistinctIds (suc k) (n ∷ ns) d = drop-HasDistinctIds k ns d.1

pub index_from-none :
    (i : ℕ) (id : String) (ns : List State) → All (λ k. k.id ≢ id) ns → index_from i id ns ≡ none
unfolding index_from
index_from-none i id [] h = refl
index_from-none i id (n ∷ ns) h = rw (test_of_ne n.id id h.0) (index_from-none (suc i) id ns h.1)

pub ne_of_index_from-none :
    (i : ℕ) (id : String) (ns : List State) → index_from i id ns ≡ none → All (λ k. k.id ≢ id) ns
unfolding index_from
ne_of_index_from-none i id [] h = tt
ne_of_index_from-none i id (n ∷ ns) h = elim (Bool-cases (n.id == id)) [
  | inl same ↦ cc (sym (rw same at h))
  | inr other ↦ (ne_of_test n.id id other, ne_of_index_from-none (suc i) id ns (rw other at h))
]

-- The position found is that of a node with the id.
pub index_from_sound :
    (i : ℕ) (id : String) (ns : List State) {j : ℕ}
    → index_from i id ns ≡ some j
    → (k : ℕ) × (s : State) × (j ≡ i + k) × (get_elem? ns k ≡ some s) × (s.id ≡ id)
unfolding index_from
index_from_sound i id [] h = cc
index_from_sound i id (n ∷ ns) h = elim (Bool-cases (n.id == id)) [
  | inl same ↦ (0, n, ground arith, refl, (eq_iff n.id id).0 same)
  | inr other ↦
      let (k, s, at, found, e) = index_from_sound (suc i) id ns (rw other at h) in
      (suc k, s, omega arith, found, e)
]

-- A node is found at its position, where the ids are distinct.
pub index_from_complete :
    (i k : ℕ) (ns : List State) {s : State}
    → HasDistinctIds ns
    → get_elem? ns k ≡ some s
    → index_from i s.id ns ≡ some (i + k)
unfolding index_from
index_from_complete i k [] d h = cc
index_from_complete i zero (n ∷ ns) {s} d h =
    let e : n ≡ s = ground arith in rw (← e) (rw (eq_refl n.id) (ap some (omega arith)))
index_from_complete i (suc k) (n ∷ ns) {s} d h = elim (eq_or_ne n.id s.id) [
  | inl same ↦ absurd (All-get_elem? (λ t. t.id ≢ n.id) k ns d.0 h (sym same))
  | inr other ↦ rw other (index_from_complete (suc i) k ns d.1 h ∙ ap some (omega arith))
]

pub or_else-none {ℓ} : {A : Type ℓ} (o : Option A) → or_else o none ≡ o
or_else-none none = refl
or_else-none (some a) = refl

-- What `NewMemorySource` builds, from any set to start with.
pub new_node_set-lookup :
    (i : ℕ) (set : NodeSet) (ns : List State) {out : NodeSet}
    → new_node_set i set ns ≡ ok out
    → (id : String) → Map.lookup id out ≡ or_else (Map.lookup id set) (index_from i id ns)
unfolding new_node_set index_from
new_node_set-lookup i set [] {out} h id =
    let e : set ≡ out = cc in rw (← e) (sym (or_else-none (Map.lookup id set)))
new_node_set-lookup i set (n ∷ ns) h id =
    let (fresh, rest) = fail_if-eq-ok (Map.has n.id set) (duplicate_node n.id) _ h in
    let ih = new_node_set-lookup (suc i) (Map.insert n.id i set) ns rest id in
    ground
      (arith, ih, Map.lookup-insert n.id id i set, eq_iff n.id id, Map.has-eq-false n.id set fresh)

-- An id that is in the set already is that of no later node.
fresh_of_new_node_set :
    (i : ℕ) (set : NodeSet) (ns : List State) {out : NodeSet} (id : String) {j : ℕ}
    → new_node_set i set ns ≡ ok out
    → Map.lookup id set ≡ some j
    → All (λ k. k.id ≢ id) ns
unfolding new_node_set
fresh_of_new_node_set i set [] id h known = tt
fresh_of_new_node_set i set (n ∷ ns) id {j} h known =
    let (fresh, rest) = fail_if-eq-ok (Map.has n.id set) (duplicate_node n.id) _ h in
    let ne : (n.id == id) ≡ false =
      ground (arith, eq_iff n.id id, Map.has-eq-false n.id set fresh) in
    let still : Map.lookup id (Map.insert n.id i set) ≡ some j =
      ground (arith, Map.lookup-insert n.id id i set) in
    (ne_of_test n.id id ne, fresh_of_new_node_set (suc i) (Map.insert n.id i set) ns id rest still)

pub new_node_set-HasDistinctIds :
    (i : ℕ) (set : NodeSet) (ns : List State) {out : NodeSet}
    → new_node_set i set ns ≡ ok out
    → HasDistinctIds ns
unfolding new_node_set
new_node_set-HasDistinctIds i set [] h = tt
new_node_set-HasDistinctIds i set (n ∷ ns) h =
    let (fresh, rest) = fail_if-eq-ok (Map.has n.id set) (duplicate_node n.id) _ h in
    let here : Map.lookup n.id (Map.insert n.id i set) ≡ some i =
      ground (arith, Map.lookup-insert n.id n.id i set, eq_refl n.id) in
    (
      fresh_of_new_node_set (suc i) (Map.insert n.id i set) ns n.id rest here,
      new_node_set-HasDistinctIds (suc i) (Map.insert n.id i set) ns rest,
    )

-- What `Subgraph` builds, from any set to start with.
pub index_nodes-lookup :
    (i : ℕ) (set : NodeSet) (ns : List State)
    → HasDistinctIds ns
    → (id : String)
    → Map.lookup id (index_nodes i set ns) ≡ or_else (index_from i id ns) (Map.lookup id set)
unfolding index_nodes index_from
index_nodes-lookup i set [] d id = refl
index_nodes-lookup i set (n ∷ ns) d id =
    let ih = index_nodes-lookup (suc i) (Map.insert n.id i set) ns d.1 id in
    let gone = index_from-none (suc i) n.id ns d.0 in
    ground (arith, ih, Map.lookup-insert n.id id i set, eq_iff n.id id, gone)

-- The node set of a source gives each id its position in the ordered list.
pub record IsIndexed (nodes : NodeSet) (ordered : List State) : Type 0 where
  pub distinct : HasDistinctIds ordered
  pub agrees : (id : String) → Map.lookup id nodes ≡ index_from 0 id ordered

pub new_node_set-IsIndexed :
    (ns : List State) {out : NodeSet} → new_node_set 0 [] ns ≡ ok out → IsIndexed out ns
unfolding Map.lookup
new_node_set-IsIndexed ns h = record {
  distinct = new_node_set-HasDistinctIds 0 [] ns h;
  agrees = new_node_set-lookup 0 [] ns h;
}

pub index_nodes-IsIndexed :
    (ns : List State) → HasDistinctIds ns → IsIndexed (index_nodes 0 [] ns) ns
unfolding Map.lookup
index_nodes-IsIndexed ns d = record {
  distinct = d;
  agrees = λ id. index_nodes-lookup 0 [] ns d id ∙ or_else-none (index_from 0 id ns);
}
