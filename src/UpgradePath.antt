-- ===== src/UpgradePath.antt =====
-- tools/validate-upgrade-path/main.go: `validateUpgrade`, which walks the update graph from one
-- version to another. What it prints is its result here.
pub mod Walk
use spicedb_operator.Base.{
  Bool, List, Option, Result, String, [], err, false, if◌then◌else◌, none, not, ok, panic, some,
  suc, timeout, zero, ℕ, ◌++◌, ◌==◌, ◌>>=◌, ◌||◌, ◌∷◌,
}
use spicedb_operator.Base.Map
use spicedb_operator.Updates.Types.{State, UpdateGraph, Error}
use spicedb_operator.Updates.Memory.{MemorySource, next_version, state, subgraph}
use spicedb_operator.Updates.Graph.{default_channel_for_datastore, source_for_channel}

-- `pathStep`
pub record PathStep : Type 0 where
  pub version : String
  pub migration : String
  pub phase : String
  pub has_migration : Bool

-- What is printed: no path, the same version, or a path with the number of its migrations.
pub data Verdict : Type 0 where
  not_supported same_version : Verdict
  supported : List PathStep → ℕ → Verdict

-- What is returned as an error.
pub data PathError : Type 0 where
  unknown_datastore : String → PathError
  bad_source : Error → PathError
  version_not_found : String → String → PathError

-- "Determine if this step requires a migration."
unfoldable pub step_to : String → State → State → PathStep
step_to next next_state prev_state = record {
  version = next;
  migration = next_state.migration;
  phase = next_state.phase;
  has_migration =
      not (next_state.migration == prev_state.migration)
      || not (next_state.phase == prev_state.phase);
}

-- The loop `for current != to`; `none` where it finds no next version.
unfoldable pub walk :
    ℕ
    → MemorySource
    → MemorySource
    → List PathStep
    → String
    → String
    → Result Error (Option (List PathStep))
unfolding next_version state step_to
walk zero source sub path current to = timeout
walk (suc fuel) source sub path current to =
    let next = next_version sub current in
    let more = state source next >>= λ next_state. state source current >>= λ prev_state.
    walk fuel source sub (path ++ step_to next next_state prev_state ∷ []) next to in
    if current == to then ok (some path) else if next == "" then ok none else more

-- `migrationCount`
unfoldable pub count_migrations : List PathStep → ℕ
count_migrations [] = 0
count_migrations (s ∷ steps) =
    if s.has_migration then suc (count_migrations steps) else count_migrations steps

-- The report on the path that was found.
unfoldable pub report : Option (List PathStep) → Verdict
unfolding count_migrations
report none = not_supported
report (some []) = same_version
report (some (start ∷ [])) = same_version
report (some (start ∷ step ∷ steps)) =
    supported (start ∷ step ∷ steps) (count_migrations (step ∷ steps))

-- An error of the graph as one of the tool.
abbrev pub raise {ℓ κ} :
    {A : Type ℓ} {B : Type κ}
    → Result Error A
    → (Error → Result PathError B)
    → (A → Result PathError B)
    → Result PathError B
raise (ok a) failed k = k a
raise (err e) failed k = failed e
raise panic failed k = panic
raise timeout failed k = timeout

-- From the point where both versions are known.
unfoldable pub walk_from : ℕ → MemorySource → String → String → State → Result PathError Verdict
unfolding walk report subgraph
walk_from fuel source from to from_state =
    raise (subgraph source to) (λ e. ok not_supported)
      λ sub.
        raise
          (walk fuel source sub
            (record {
              version = from;
              migration = from_state.migration;
              phase = from_state.phase;
              has_migration = false;
            }
              ∷ [])
            from to)
          (λ e. err (bad_source e)) (λ path. ok (report path))

-- `validateUpgrade`; the fuel bounds the rounds of its loop.
unfoldable pub validate_upgrade :
    ℕ → UpdateGraph → String → String → String → Result PathError Verdict
unfolding walk_from default_channel_for_datastore source_for_channel
validate_upgrade fuel graph datastore from to =
    raise (default_channel_for_datastore graph datastore) (λ e. err (unknown_datastore datastore))
      λ channel.
        raise (source_for_channel graph datastore channel) (λ e. err (bad_source e))
          λ source.
            raise (state source from) (λ e. err (bad_source e))
              λ from_state.
                if from_state.id == ""
                then err (version_not_found from channel)
                else raise (state source to) (λ e. err (bad_source e))
                    (λ to_state.
                      if to_state.id == ""
                      then err (version_not_found to channel)
                      else walk_from fuel source from to from_state)
