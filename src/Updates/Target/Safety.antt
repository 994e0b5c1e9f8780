-- ===== src/Updates/Target/Safety.antt =====
-- pkg/updates/file.go: a target that `ComputeTarget` chooses is one edge away from the current
-- version, and never past the version that the cluster asks for.
use spicedb_operator.Base.{
  >>=-eq-ok, Bool, Bool-cases, Option, Option-cases, Result, String, arith, eq_iff, eq_or_ne, err,
  false, inl, inr, none, not, ok, panic, refl, some, subst, sym, test_of_ne, timeout, true, ◌&&◌,
  ◌==◌, ◌>>=◌, ◌||◌, ◌∙◌, ◌≡◌, ◌≢◌, ◌⊎◌,
}
use spicedb_operator.Base.Map
use spicedb_operator.Api.Version.{Version}
use spicedb_operator.Updates.Types.{empty_state, UpdateGraph, Error, fetching_source}
use spicedb_operator.Updates.Memory.{MemorySource, next_version, state}
use spicedb_operator.Updates.Memory.Validate.{IsSource}
use spicedb_operator.Updates.Memory.Subgraph.{position, state_at, state_unknown}
use spicedb_operator.Updates.Memory.Steps.{next_version_of_unknown}
use spicedb_operator.Updates.Graph.{source_for_channel}
use spicedb_operator.Updates.Graph.Laws.{source_for_channel-IsSource}
use spicedb_operator.Updates.Target.{
  first_non_empty, pick_channel, explode_image, no_channel_found, from_channel, without_target,
  start_version, open_source, compute_target, locate_in, from_source, Target, Plan, handle, stop,
  moved, unless_rolling, locate_current,
}
use spicedb_operator.Updates.Target.Steps.{
  IsStep, IsSafe, kept-IsSafe, narrow-IsSafe, narrow-kept, unless_rolling-cases,
}

module _ (g : UpdateGraph) (engine : String) (rolling : Bool) (m : MemorySource) (cv : Version)
    (valid : IsSource m) (named : cv.name ≢ "") where
  -- A rollout in progress or not, a plan that keeps the current version's name is safe;
  unless_rolling-IsSafe :
      (p : Plan) (t : Target)
      → p.source ≡ some m
      → p.current ≡ some cv
      → p.target.name ≡ cv.name
      → p.not_in_channel ≡ false
      → unless_rolling rolling p ≡ ok t
      → IsSafe m p.target.channel p.version cv.name t
  unless_rolling-IsSafe p t source current kept inside h =
      elim (unless_rolling-cases m cv p current named kept rolling h) [
        | inl goes ↦ narrow-IsSafe m cv p current named kept valid source inside goes
        | inr stays ↦ elim stays [
          | inl same ↦ kept-IsSafe m cv p current named kept t same
          | inr dropped ↦ λ v e. cc (sym dropped ∙ e)
        ]
      ]

  -- one whose channel does not have the current version keeps it.
  unless_rolling-kept :
      (p : Plan) (t : Target)
      → p.source ≡ some m
      → p.current ≡ some cv
      → p.target.name ≡ cv.name
      → p.not_in_channel ≡ true
      → next_version m cv.name ≡ ""
      → unless_rolling rolling p ≡ ok t
      → (v : Version) → t.target ≡ some v
      → v.name ≡ cv.name
  unless_rolling-kept p t source current kept outside no_edge h v e =
      elim (unless_rolling-cases m cv p current named kept rolling h) [
        | inl goes ↦
            ground (arith, narrow-kept m cv p current named kept source outside no_edge goes)
        | inr stays ↦ ground arith
      ]

  elsewhere-kept :
      (r : Result Error MemorySource) (p : Plan) (t : Target)
      → p.source ≡ some m
      → p.current ≡ some cv
      → p.target.name ≡ cv.name
      → next_version m cv.name ≡ ""
      → handle r
          (λ e. stop p.base_image p.target empty_state (some (fetching_source e)))
          (λ own. state own cv.name >>= λ s. unless_rolling rolling (moved p cv s))
        ≡ ok t
      → (v : Version) → t.target ≡ some v
      → v.name ≡ cv.name
  elsewhere-kept (err f) p t source current kept no_edge h v e = ground arith
  elsewhere-kept (ok own) p t source current kept no_edge h v e =
      let (s, _, h') = >>=-eq-ok (state own cv.name) _ h in
      unless_rolling-kept (moved p cv s) t source current kept refl no_edge h' v e
  elsewhere-kept panic p t source current kept no_edge h v e = cc
  elsewhere-kept timeout p t source current kept no_edge h v e = cc

  locate_in-IsSafe :
      (p : Plan) (t : Target)
      → p.source ≡ some m
      → p.current ≡ some cv
      → p.target.name ≡ cv.name
      → p.not_in_channel ≡ false
      → locate_in g engine rolling p cv m ≡ ok t
      → IsSafe m p.target.channel p.version cv.name t
  unfolding locate_in
  locate_in-IsSafe p t source current kept inside h =
      elim (Option-cases (Map.lookup cv.name m.nodes)) [
        | inl unknown ↦
            let h' = rw (state_unknown m cv.name unknown) at h in
            λ v e. inl (
              elsewhere-kept (source_for_channel g engine cv.channel) p t source current kept
                (next_version_of_unknown m cv.name valid unknown) h' v e)
        | inr (i, at) ↦
            let (s, there, same) = position m cv.name valid.indexed at in
            let known : (s.id == "") ≡ false = test_of_ne s.id "" (λ e. named (sym same ∙ e)) in
            let h' = rw (state_at m cv.name at there, known) at h in
            unless_rolling-IsSafe (record p { current_state = s }) t source current kept inside h'
      ]

  locate_current-IsSafe :
      (p : Plan) (t : Target)
      → p.source ≡ some m
      → p.current ≡ some cv
      → p.target.name ≡ cv.name
      → p.not_in_channel ≡ false
      → locate_current g engine rolling p cv ≡ ok t
      → IsSafe m p.target.channel p.version cv.name t
  unfolding locate_current
  locate_current-IsSafe p t source current kept inside h =
      let h' : locate_in g engine rolling p cv m ≡ ok t = ground (arith, source) in
      locate_in-IsSafe p t source current kept inside h'

  from_source-IsSafe :
      (channel : String) (p : Plan) (t : Target)
      → p.source ≡ some m
      → p.current ≡ some cv
      → p.target.name ≡ cv.name
      → p.not_in_channel ≡ false
      → from_source g channel engine rolling p ≡ ok t
      → IsSafe m p.target.channel p.version cv.name t
  unfolding from_source
  from_source-IsSafe channel p t source current kept inside h =
      elim (Bool-cases (cv.name == p.version && cv.channel == channel)) [
        | inl stays ↦
            let h' : (state m cv.name >>= λ s. stop p.base_image p.target s none) ≡ ok t =
              ground (arith, source, current, eq_iff cv.name "") in
            let (s, _, made) = >>=-eq-ok (state m cv.name) _ h' in
            kept-IsSafe m cv p current named kept t (ground arith)
        | inr goes ↦
            let h' : locate_current g engine rolling p cv ≡ ok t =
              ground (arith, current, eq_iff cv.name "") in
            locate_current-IsSafe p t source current kept inside h'
      ]

-- With no source the current version cannot be looked up: a nil interface is called.
from_source-panic :
    (g : UpdateGraph) (channel engine : String) (rolling : Bool) (p : Plan) (cv : Version)
    → p.source ≡ none
    → p.current ≡ some cv
    → cv.name ≢ ""
    → from_source g channel engine rolling p ≡ panic
unfolding from_source locate_current
from_source-panic g channel engine rolling p cv source current named =
    ground (arith, eq_iff cv.name "")

pub open_source-some :
    (g : UpdateGraph) (engine chosen : String) {m : MemorySource}
    → open_source g engine chosen ≡ ok (some m)
    → (chosen == "" ≡ false) × (source_for_channel g engine chosen ≡ ok m)
unfolding open_source
open_source-some g engine chosen h = elim (eq_or_ne chosen "") [
  | inl empty ↦ cc (sym (rw ((eq_iff chosen "").1 empty) at h))
  | inr other ↦
      let (m', found, same) = >>=-eq-ok (source_for_channel g engine chosen) _ (rw other at h) in
      (other, ground (arith, found, same))
]

-- What is said of a target chosen for a cluster that runs a named version.
abbrev pub IsSafeUpdate : UpdateGraph → String → String → Version → Target → Type 0
IsSafeUpdate g engine version cv t =
    (v : Version)
    → t.target ≡ some v
    → (v.name ≡ cv.name)
      ⊎ ((m : MemorySource) × (source_for_channel g engine v.channel ≡ ok m)
          × IsStep m version cv.name v.name)

module _ (g : UpdateGraph) (base_image version engine : String) (cv : Version) (rolling : Bool)
    (named : cv.name ≢ "") where
  abbrev plan_for : String → Option MemorySource → Plan
  plan_for chosen source = record {
    base_image = base_image;
    source = source;
    version = version;
    target = start_version chosen (some cv);
    current = some cv;
    current_state = empty_state;
    not_in_channel = false;
  }

  opened-IsSafeUpdate :
      (chosen : String) (r : Result Error (Option MemorySource)) (t : Target)
      → open_source g engine chosen ≡ r
      → handle r
          (λ e. without_target base_image empty_state (some (fetching_source e)))
          (λ source. from_source g chosen engine rolling (plan_for chosen source))
        ≡ ok t
      → IsSafeUpdate g engine version cv t
  opened-IsSafeUpdate chosen (err e) t opened h v target = ground arith
  opened-IsSafeUpdate chosen (ok none) t opened h v target = cc (
      sym (from_source-panic g chosen engine rolling (plan_for chosen none) cv refl refl named) ∙ h)
  opened-IsSafeUpdate chosen (ok (some m)) t opened h v target =
      let (other, found) = open_source-some g engine chosen opened in
      let valid = source_for_channel-IsSource g engine chosen found in
      let kept : (start_version chosen (some cv)).name ≡ cv.name = ground arith in
      let channel : (start_version chosen (some cv)).channel ≡ chosen = ground (arith, other) in
      elim (from_source-IsSafe g engine rolling m cv valid named chosen (plan_for chosen (some m)) t
        refl refl kept refl h v target) [
          | inl same ↦ inl same
          | inr (step, at) ↦ inr (
            m,
            subst (λ c. source_for_channel g engine c ≡ ok m) (sym (at ∙ channel)) found,
            step,
          )
        ]
  opened-IsSafeUpdate chosen panic t opened h v target = cc
  opened-IsSafeUpdate chosen timeout t opened h v target = cc

  picked-IsSafeUpdate :
      (r : Result Error String) (t : Target)
      → handle r
          (λ e. without_target base_image empty_state (some (no_channel_found engine e)))
          (λ chosen.
            handle
              (open_source g engine chosen)
              (λ e. without_target base_image empty_state (some (fetching_source e)))
              (λ source. from_source g chosen engine rolling (plan_for chosen source)))
        ≡ ok t
      → IsSafeUpdate g engine version cv t
  picked-IsSafeUpdate (err e) t h v target = ground arith
  picked-IsSafeUpdate (ok chosen) t h v target =
      opened-IsSafeUpdate chosen (open_source g engine chosen) t refl h v target
  picked-IsSafeUpdate panic t h v target = cc
  picked-IsSafeUpdate timeout t h v target = cc

-- Without an explicit image the channel decides.
pub compute_target-cases :
    (g : UpdateGraph) (operator_image cluster_base_image image version channel engine : String)
    (current : Option Version) (rolling : Bool) {t : Target}
    → compute_target g operator_image cluster_base_image image version channel engine current
        rolling
      ≡ ok t
    → (t.target ≡ none)
      ⊎ ((base_image : String) × (from_channel g base_image version channel engine current rolling
            ≡ ok t))
unfolding compute_target
compute_target-cases g operator_image cluster_base_image image version channel engine current
      rolling {t} h =
    let exploded = explode_image image in
    let base_image = first_non_empty exploded.0 cluster_base_image operator_image in
    elim (Bool-cases (not (exploded.2 == "") || not (exploded.1 == ""))) [
      | inl given ↦ inl (ground (arith, given))
      | inr free ↦ elim (eq_or_ne base_image "") [
        | inl missing ↦ inl (ground (arith, free, eq_iff base_image ""))
        | inr found ↦ inr (base_image, ground (arith, free, found))
      ]
    ]

-- For a cluster that runs a named version, `ComputeTarget` names that version again, or one that is
-- a direct edge away from it in the source of the channel that the target names; in the second
-- case, if the cluster asks for a version, the source has it, and the target is that version or an
-- older one.
pub compute_target_safe :
    (g : UpdateGraph) (operator_image cluster_base_image image version channel engine : String)
    (cv : Version) (rolling : Bool) {t : Target}
    → cv.name ≢ ""
    → compute_target g operator_image cluster_base_image image version channel engine
        (some cv)
        rolling
      ≡ ok t
    → (v : Version) → t.target ≡ some v
    → (v.name ≡ cv.name)
      ⊎ ((m : MemorySource) × (source_for_channel g engine v.channel ≡ ok m)
          × IsStep m version cv.name v.name)
unfolding from_channel
compute_target_safe g operator_image cluster_base_image image version channel engine cv rolling {t}
      named h v target =
    elim (compute_target-cases g operator_image cluster_base_image image version channel engine
      (some cv) rolling h) [
        | inl no_target ↦ cc (sym no_target ∙ target)
        | inr (base_image, h') ↦
            picked-IsSafeUpdate g base_image version engine cv rolling named
              (pick_channel g channel engine (some cv)) t h' v target
      ]
