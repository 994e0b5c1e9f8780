-- ===== src/Updates/Memory/Chase.antt =====
-- pkg/updates/memory.go: the loop of `validateAllNodesPathToHead`, which follows the newest edge of
-- each node.
use spicedb_operator.Base.{
  Bool, Bool-cases, List, Option-cases, Returns, String, [], any, arith, eq_iff, eq_or_ne, eq_refl,
  false, if◌then◌else◌, inl, inr, length, none, ok, some, suc, sym, zero, ℕ, ◌+◌, ◌<◌, ◌==◌, ◌∷◌,
  ◌≡◌, ◌≤◌,
}
use spicedb_operator.Base.Map
use spicedb_operator.Updates.Types.{EdgeSet}
use spicedb_operator.Updates.Memory.{MemorySource, next_version, chase, chase_fuel}

-- The newest edges lead from a node to the head, in some number of updates.
pub data Reaches (m : MemorySource) (head : String) : String → Type 0 where
  arrive : {id : String} → id ≡ head → Reaches m head id
  update : {id : String} → Reaches m head (next_version m id) → Reaches m head id

abbrev seen : String → List String → Bool
seen c visited = any (λ v. v == c) visited

pub chase_sound :
    (fuel : ℕ) (m : MemorySource) (head from : String) (visited : List String) (current : String)
    → chase fuel m head from visited current ≡ ok tt
    → Reaches m head current
unfolding chase
chase_sound zero m head from visited current h = cc
chase_sound (suc fuel) m head from visited current h = elim (eq_or_ne current head) [
  | inl here ↦ arrive here
  | inr far ↦ elim (Bool-cases (seen current visited)) [
    | inl again ↦ cc (sym (rw (far, again) at h))
    | inr new ↦ elim (Bool-cases (current == "")) [
      | inl lost ↦ cc (sym (rw (far, new, lost) at h))
      | inr on ↦ update (
          chase_sound fuel m head from (current ∷ visited) (next_version m current)
            (rw (far, new, on) at h))
    ]
  ]
]

-- How many keys of the edge set have not been visited.
unvisited : EdgeSet → List String → ℕ
unvisited [] visited = 0
unvisited ((from, to) ∷ edges) visited =
    let rest = unvisited edges visited in if seen from visited then rest else suc rest

unvisited-le : (edges : EdgeSet) (visited : List String) → unvisited edges visited ≤ length edges
unfolding unvisited
unvisited-le [] visited = omega arith
unvisited-le ((from, to) ∷ edges) visited = ground (arith, unvisited-le edges visited)

-- A visit never adds to them,
unvisited-visit_le :
    (edges : EdgeSet) (visited : List String) (c : String)
    → unvisited edges (c ∷ visited) ≤ unvisited edges visited
unfolding unvisited
unvisited-visit_le [] visited c = omega arith
unvisited-visit_le ((from, to) ∷ edges) visited c =
    ground (arith, unvisited-visit_le edges visited c)

-- and the first visit of a key takes one away.
unvisited-visit_lt :
    (edges : EdgeSet) (visited : List String) (c : String) (t : List String)
    → seen c visited ≡ false
    → Map.lookup c edges ≡ some t
    → unvisited edges (c ∷ visited) < unvisited edges visited
unfolding unvisited Map.lookup
unvisited-visit_lt [] visited c t new key = cc
unvisited-visit_lt ((from, to) ∷ edges) visited c t new key = elim (eq_or_ne from c) [
  | inl same ↦ rw (same, eq_refl c, new) (ground (arith, unvisited-visit_le edges visited c))
  | inr other ↦ ground (arith, unvisited-visit_lt edges visited c t, eq_iff from c, eq_iff c from)
]

-- Past a text that is no key there is no version.
next_version_of_none :
    (m : MemorySource) (c : String) → Map.lookup c m.edges ≡ none → next_version m c ≡ ""
unfolding next_version
next_version_of_none m c h = ground (arith, h)

-- From "" the loop makes no further round.
chase-stop :
    (fuel : ℕ) (m : MemorySource) (head from : String) (visited : List String) (current : String)
    → current ≡ ""
    → Returns (chase (suc fuel) m head from visited current)
unfolding chase
chase-stop fuel m head from visited current lost = ground (arith, eq_iff current "")

chase-next :
    (fuel : ℕ) (m : MemorySource) (head from : String) (visited : List String) (current : String)
    → (seen current visited ≡ false
        → Returns (chase fuel m head from (current ∷ visited) (next_version m current)))
    → Returns (chase (suc fuel) m head from visited current)
unfolding chase
chase-next fuel m head from visited current more = elim (Bool-cases (seen current visited)) [
  | inl again ↦ rw again (ground arith)
  | inr new ↦ ground (arith, more new)
]

chase_ends :
    (fuel : ℕ) (m : MemorySource) (head from : String) (visited : List String) (current : String)
    → unvisited m.edges visited + 2 ≤ fuel
    → Returns (chase fuel m head from visited current)
chase_ends zero m head from visited current enough = absurd (omega arith)
chase_ends (suc zero) m head from visited current enough = absurd (omega arith)
chase_ends (suc (suc fuel)) m head from visited current enough =
    chase-next (suc fuel) m head from visited current λ new.
      elim (Option-cases (Map.lookup current m.edges)) [
        | inl no_key ↦
            chase-stop fuel m head from (current ∷ visited) (next_version m current)
              (next_version_of_none m current no_key)
        | inr (to, key) ↦
            chase_ends (suc fuel) m head from (current ∷ visited) (next_version m current)
              (omega (arith, unvisited-visit_lt m.edges visited current to new key))
      ]

-- The fuel that the model gives the loop is enough, on any source.
pub chase-Returns :
    (m : MemorySource) (head from : String) (current : String)
    → Returns (chase (chase_fuel m) m head from [] current)
chase-Returns m head from current =
    chase_ends (chase_fuel m) m head from [] current (omega (arith, unvisited-le m.edges []))
