-- ===== src/Updates/Target/Steps.antt =====
-- pkg/updates/file.go: the last parts of `ComputeTarget`, for one source and one current version.
use spicedb_operator.Base.{
  >>=-eq-ok, Bool, Bool-cases, In, Option, Result, String, arith, eq_iff, eq_or_ne, err, false,
  if◌then◌else◌, inl, inr, ne_of_test, none, not, ok, panic, refl, some, subst, sym, test_of_ne,
  timeout, true, ℕ, ◌==◌, ◌∙◌, ◌≡◌, ◌≢◌, ◌⊎◌,
}
use spicedb_operator.Base.Map
use spicedb_operator.Api.Version.{Version}
use spicedb_operator.Updates.Types.{State, empty_state, Error, no_update_path}
use spicedb_operator.Updates.Memory.{
  MemorySource, next_version, next_version_without_migrations, edges_of, state, subgraph,
}
use spicedb_operator.Updates.Memory.Index.{IsIndexed}
use spicedb_operator.Updates.Memory.Validate.{IsSource}
use spicedb_operator.Updates.Memory.Subgraph.{at_or_below, position, state_at}
use spicedb_operator.Updates.Memory.Pinned.{
  subgraph-next_version_bounded, subgraph-has, subgraph-IsIndexed, subgraph_total,
}
use spicedb_operator.Updates.Memory.Steps.{next_version-known, next_version-In}
use spicedb_operator.Updates.Target.{
  Target, Plan, with_migration, handle, stop, name_of, take_step, next_step, narrow, unless_rolling,
}

-- One update: along an edge of the source, and to the wanted version or an older one.
pub record IsStep (m : MemorySource) (version from to : String) : Type 0 where
  pub edge : In to (edges_of m.edges from)
  pub wanted :
      version ≢ ""
      → (pin : ℕ) × (Map.lookup version m.nodes ≡ some pin) × (at_or_below m pin to ≡ true)

-- The target keeps the current version, or goes one step on in the channel.
abbrev pub IsSafe : MemorySource → String → String → String → Target → Type 0
IsSafe m channel version from t =
    (v : Version)
    → t.target ≡ some v
    → (v.name ≡ from) ⊎ (IsStep m version from v.name × (v.channel ≡ channel))

-- A known version is the one that `State` answers by.
pub state_of_known :
    (m : MemorySource) (id : String)
    → IsIndexed m.nodes m.ordered_nodes
    → Map.has id m.nodes ≡ true
    → (s : State) × (state m id ≡ ok s) × (s.id ≡ id)
state_of_known m id indexed known =
    let (i, at) = Map.has-eq-true id m.nodes known in
    let (s, there, same) = position m id indexed at in (s, state_at m id at there, same)

pub take_step-target :
    (p : Plan) (s : MemorySource) (next : String) (target : Version) {t : Target}
    → IsIndexed s.nodes s.ordered_nodes
    → Map.has next s.nodes ≡ true
    → take_step p s next target ≡ ok t
    → t.target ≡ some (record target { name = next })
unfolding take_step
take_step-target p s next target indexed known h =
    let (found, answers, same) = state_of_known s next indexed known in
    let made = rw answers at h in ground (arith, made, same)

abbrev pub marked : Bool → Version → Version
marked b v = if b then with_migration v else v

pub target_fields :
    (b : Bool) (v : Version) {w : Version} {next : String} {o : Option Version}
    → o ≡ some (record (marked b v) { name = next })
    → o ≡ some w
    → (w.name ≡ next) × (w.channel ≡ v.channel)
target_fields b v h e = ground arith

module _ (m : MemorySource) (cv : Version) (p : Plan) (current : p.current ≡ some cv)
    (named : cv.name ≢ "") (kept : p.target.name ≡ cv.name) where
  pub next_step-IsSafe :
      (s : MemorySource) {t : Target}
      → IsIndexed s.nodes s.ordered_nodes
      → (next_version s cv.name ≢ ""
          → (Map.has (next_version s cv.name) s.nodes ≡ true)
            × IsStep m p.version cv.name (next_version s cv.name))
      → next_step p s ≡ ok t
      → IsSafe m p.target.channel p.version cv.name t
  unfolding next_step
  next_step-IsSafe s {t} indexed steps h v e = elim (eq_or_ne (next_version s cv.name) "") [
    | inl none_left ↦
        let stays : t.target ≡ some p.target =
          ground
            (arith, current, eq_iff cv.name "", none_left, eq_iff (next_version s cv.name) "") in
        inl (ground (arith, stays))
    | inr some_next ↦
        let (known, step) = steps (ne_of_test _ _ some_next) in
        let h' = rw (current, test_of_ne cv.name "" named, some_next) at h in
        let (direct, _, made) = >>=-eq-ok (next_version_without_migrations s cv.name) _ h' in
        let out =
          take_step-target (record p { current = some cv }) s (next_version s cv.name)
            (marked (not (next_version s cv.name == direct)) p.target) indexed known made in
        let (name, channel) =
          target_fields (not (next_version s cv.name == direct)) p.target out e in
        inr (subst (λ n. IsStep m p.version cv.name n) (sym name) step, channel)
  ]

  -- The steps that the whole source allows, where no version is wanted,
  pub whole_steps :
      IsSource m
      → p.version ≡ ""
      → next_version m cv.name ≢ ""
      → (Map.has (next_version m cv.name) m.nodes ≡ true)
        × IsStep m p.version cv.name (next_version m cv.name)
  whole_steps valid free some_next = (
    next_version-known m cv.name valid some_next,
    record {
      edge = next_version-In m cv.name some_next;
      wanted = λ some_version. absurd (some_version free);
    },
  )

  -- and those that the part below a wanted version allows.
  pub narrowed_steps :
      (s : MemorySource) {pin : ℕ}
      → IsSource m
      → p.version ≢ ""
      → Map.lookup p.version m.nodes ≡ some pin
      → subgraph m p.version ≡ ok s
      → next_version s cv.name ≢ ""
      → (Map.has (next_version s cv.name) s.nodes ≡ true)
        × IsStep m p.version cv.name (next_version s cv.name)
  narrowed_steps s {pin} valid wanted at made some_next =
      let (edge, below) =
        subgraph-next_version_bounded m p.version pin valid.indexed wanted at made cv.name
          some_next in
      (
        subgraph-has m p.version pin valid.indexed wanted at made (next_version s cv.name) ∙ below,
        record { edge = edge; wanted = λ _. (pin, at, below) },
      )

  -- A target that the plan's own version stays on.
  pub kept-IsSafe :
      (t : Target) → t.target ≡ some p.target → IsSafe m p.target.channel p.version cv.name t
  kept-IsSafe t same v e = inl (ground (arith, same))

  pub subgraph_step-IsSafe :
      (r : Result Error MemorySource) {t : Target}
      → IsSource m
      → p.version ≢ ""
      → subgraph m p.version ≡ r
      → handle r
          (λ e.
            stop p.base_image p.target empty_state
              (some (no_update_path (name_of p.current) p.version)))
          (next_step p)
        ≡ ok t
      → IsSafe m p.target.channel p.version cv.name t
  subgraph_step-IsSafe (err e) {t} valid wanted r h = kept-IsSafe t (ground arith)
  subgraph_step-IsSafe (ok s) valid wanted r h = elim (Bool-cases (Map.has p.version m.nodes)) [
    | inl known ↦
        let (pin, at) = Map.has-eq-true p.version m.nodes known in
        next_step-IsSafe s (subgraph-IsIndexed m p.version pin valid.indexed wanted at r)
          (narrowed_steps s valid wanted at r) h
    | inr unknown ↦ cc (sym r ∙ (subgraph_total m p.version valid.indexed).1 wanted unknown)
  ]
  subgraph_step-IsSafe panic valid wanted r h = cc
  subgraph_step-IsSafe timeout valid wanted r h = cc

  -- A validated source narrowed to the wanted version, or whole.
  pub narrow-IsSafe :
      {t : Target}
      → IsSource m
      → p.source ≡ some m
      → p.not_in_channel ≡ false
      → narrow p ≡ ok t
      → IsSafe m p.target.channel p.version cv.name t
  unfolding narrow
  narrow-IsSafe {t} valid source inside h = elim (eq_or_ne p.version "") [
    | inl free ↦
        let whole : next_step p m ≡ ok t = ground (arith, source, current, eq_iff p.version "") in
        next_step-IsSafe m valid.indexed (whole_steps valid free) whole
    | inr wanted ↦
        subgraph_step-IsSafe (subgraph m p.version) {t = t} valid (ne_of_test _ _ wanted) refl
          (ground (arith, source, current, wanted, inside))
  ]

  pub next_step-kept :
      {t : Target} → next_version m cv.name ≡ "" → next_step p m ≡ ok t → t.target ≡ some p.target
  unfolding next_step
  next_step-kept none_left h =
      ground (arith, current, eq_iff cv.name "", eq_iff (next_version m cv.name) "")

  pub narrow-kept :
      {t : Target}
      → p.source ≡ some m
      → p.not_in_channel ≡ true
      → next_version m cv.name ≡ ""
      → narrow p ≡ ok t
      → t.target ≡ some p.target
  unfolding narrow
  narrow-kept {t} source outside none_left h =
      let whole : next_step p m ≡ ok t = ground (arith, source, outside) in
      next_step-kept none_left whole

  -- What a rollout in progress leaves: the plan's own target, or none.
  pub unless_rolling-cases :
      (rolling : Bool) {t : Target}
      → unless_rolling rolling p ≡ ok t
      → (narrow p ≡ ok t) ⊎ (t.target ≡ some p.target) ⊎ (t.target ≡ none)
  unfolding unless_rolling
  unless_rolling-cases rolling h = ground arith
