-- ===== src/Updates/Target/Total.antt =====
-- pkg/updates/file.go: `ComputeTarget` always returns, when no default channel lacks a name.
use spicedb_operator.Base.{
  Bool, Option, Result, Returns, Returns->>=, String, arith, eq_iff, eq_or_ne, err, if◌then◌else◌,
  inl, inr, ne_of_test, none, not, ok, panic, refl, some, subst, test_of_ne, timeout, ◌&&◌, ◌==◌,
  ◌>>=◌, ◌||◌, ◌≡◌, ◌≢◌,
}
use spicedb_operator.Api.Version.{Version}
use spicedb_operator.Updates.Types.{UpdateGraph, Error}
use spicedb_operator.Updates.Memory.{MemorySource, state, subgraph}
use spicedb_operator.Updates.Graph.{default_channel_for_datastore, source_for_channel}
use spicedb_operator.Updates.Graph.Laws.{
  source_for_channel-IsSource, source_for_channel-Returns, default_channel_for_datastore-Returns,
}
use spicedb_operator.Updates.Target.{
  Plan, handle, stop, on_source, first_non_empty, explode_image, pick_channel, open_source,
  from_channel, compute_target, from_source, next_step, name_of, is_some, narrow, unless_rolling,
  moved, locate_in, locate_current, install_explicit,
}
use spicedb_operator.Updates.Target.Calls.{
  Usable, IsSource-Usable, if-Returns, handle-Returns, state-Returns, next_step-Returns,
  on_source-Returns, subgraph-Returns, subgraph-Usable,
}

-- What is left of a plan whose source is there.
narrow-Returns : (p : Plan) (m : MemorySource) → p.source ≡ some m → Usable m → Returns (narrow p)
unfolding narrow
narrow-Returns p m e u =
    if-Returns (is_some p.current && not (p.version == "") && not p.not_in_channel) _ _
      (on_source-Returns p.source m _ e (
        handle-Returns (subgraph m p.version) _ (next_step p) (subgraph-Returns m p.version u)
          (λ f. tt) (λ s made. next_step-Returns p s (subgraph-Usable m p.version u made))))
      (on_source-Returns p.source m _ e (next_step-Returns p m u))

unless_rolling-Returns :
    (rolling : Bool) (p : Plan) (m : MemorySource)
    → p.source ≡ some m
    → Usable m
    → Returns (unless_rolling rolling p)
unfolding unless_rolling
unless_rolling-Returns rolling p m e u =
    if-Returns rolling _ _ (if-Returns (p.current_state.id == "") _ _ tt tt)
      (narrow-Returns p m e u)

locate_current-Returns :
    (g : UpdateGraph) (engine : String) (rolling : Bool) (p : Plan) (cv : Version)
    (m : MemorySource)
    → p.source ≡ some m
    → Usable m
    → Returns (locate_current g engine rolling p cv)
unfolding locate_current locate_in
locate_current-Returns g engine rolling p cv m e u =
    on_source-Returns p.source m (locate_in g engine rolling p cv) e (
      Returns->>= (state m cv.name) _ (state-Returns m cv.name u) (λ found _.
        if-Returns (found.id == "") _ _
          (handle-Returns (source_for_channel g engine cv.channel) _ _
            (source_for_channel-Returns g engine cv.channel) (λ f. tt)
            (λ own h.
              let valid = source_for_channel-IsSource g engine cv.channel h in
              Returns->>= (state own cv.name) _
                (state-Returns own cv.name (IsSource-Usable own valid))
                (λ s _. unless_rolling-Returns rolling (moved p cv s) m e u)))
          (unless_rolling-Returns rolling (record p { current_state = found }) m e u)))

install_explicit-Returns :
    (p : Plan) (m : MemorySource) → p.source ≡ some m → Usable m → Returns (install_explicit p)
unfolding install_explicit
install_explicit-Returns p m e u = on_source-Returns p.source m _ e (
    Returns->>= (state m p.version) _ (state-Returns m p.version u)
      (λ s _. if-Returns (s.id == "") _ _ tt tt))

from_source-Returns :
    (g : UpdateGraph) (channel engine : String) (rolling : Bool) (p : Plan) (m : MemorySource)
    → p.source ≡ some m
    → Usable m
    → Returns (from_source g channel engine rolling p)
unfolding from_source
from_source-Returns g channel engine rolling p m e u =
    if-Returns (not (p.version == "") && name_of p.current == "") _ _
      (install_explicit-Returns p m e u) (current p.current)
  where
    current :
        (c : Option Version)
        → Returns (elim c [
          | none ↦ unless_rolling rolling p
          | some cv ↦
              if cv.name == p.version && cv.channel == channel
              then on_source p.source
                  (λ m. state m cv.name >>= λ s. stop p.base_image p.target s none)
              else locate_current g engine rolling p cv
        ])
    current none = unless_rolling-Returns rolling p m e u
    current (some cv) =
        if-Returns (cv.name == p.version && cv.channel == channel) _ _
          (on_source-Returns p.source m _ e
            (Returns->>= (state m cv.name) _ (state-Returns m cv.name u) (λ s _. tt)))
          (locate_current-Returns g engine rolling p cv m e u)

pick_channel-Returns :
    (g : UpdateGraph) (channel engine : String) (current : Option Version)
    → Returns (pick_channel g channel engine current)
unfolding pick_channel
pick_channel-Returns g channel engine none =
    if-Returns (channel == "") _ _ (default_channel_for_datastore-Returns g engine) tt
pick_channel-Returns g channel engine (some cv) =
    if-Returns ((if channel == "" then cv.channel else channel) == "") _ _
      (default_channel_for_datastore-Returns g engine) tt

picked_is_named :
    (g : UpdateGraph) (wanted engine chosen : String)
    → ((name : String) → default_channel_for_datastore g engine ≡ ok name → name ≢ "")
    → (if wanted == "" then default_channel_for_datastore g engine else ok wanted) ≡ ok chosen
    → chosen ≢ ""
picked_is_named g wanted engine chosen named h = elim (eq_or_ne wanted "") [
  | inl empty ↦ named chosen (rw ((eq_iff wanted "").1 empty) at h)
  | inr other ↦
      let same : wanted ≡ chosen = ground arith in
      subst (λ c. c ≢ "") same (ne_of_test wanted "" other)
]

pick_channel-named :
    (g : UpdateGraph) (channel engine chosen : String) (current : Option Version)
    → ((name : String) → default_channel_for_datastore g engine ≡ ok name → name ≢ "")
    → pick_channel g channel engine current ≡ ok chosen
    → chosen ≢ ""
unfolding pick_channel
pick_channel-named g channel engine chosen none named h =
    picked_is_named g channel engine chosen named h
pick_channel-named g channel engine chosen (some cv) named h =
    picked_is_named g (if channel == "" then cv.channel else channel) engine chosen named h

-- The source of a channel with a name.
opened-Returns :
    (g : UpdateGraph) (engine chosen : String) {B : Type 0}
    (k : Option MemorySource → Result Error B) (failed : Error → Result Error B)
    → chosen ≢ ""
    → ((e : Error) → Returns (failed e))
    → ((m : MemorySource) → Usable m → Returns (k (some m)))
    → Returns (handle (open_source g engine chosen) failed k)
unfolding open_source
opened-Returns g engine chosen k failed named f n =
    rw (test_of_ne chosen "" named)
      (go (source_for_channel g engine chosen) refl (source_for_channel-Returns g engine chosen))
  where
    go :
        (r : Result Error MemorySource)
        → source_for_channel g engine chosen ≡ r
        → Returns r
        → Returns (handle (r >>= λ m. ok (some m)) failed k)
    go (ok m) e h =
        let valid = source_for_channel-IsSource g engine chosen e in n m (IsSource-Usable m valid)
    go (err e) q h = f e
    go panic e h = h
    go timeout e h = h

-- If no default channel of the engine has an empty name, `ComputeTarget` always returns: it calls
-- no method of a source that is not there, and every index is in range.
pub compute_target-Returns :
    (g : UpdateGraph) (operator_image cluster_base_image image version channel engine : String)
    (current : Option Version) (rolling : Bool)
    → ((name : String) → default_channel_for_datastore g engine ≡ ok name → name ≢ "")
    → Returns (
        compute_target g operator_image cluster_base_image image version channel engine current
          rolling)
unfolding compute_target from_channel
compute_target-Returns g operator_image cluster_base_image image version channel engine current
      rolling named =
    let exploded = explode_image image in
    let base_image = first_non_empty exploded.0 cluster_base_image operator_image in
    if-Returns (not (exploded.2 == "") || not (exploded.1 == "")) _ _ tt (
      if-Returns (base_image == "") _ _ tt (
        handle-Returns (pick_channel g channel engine current) _ _
          (pick_channel-Returns g channel engine current) (λ e. tt)
          (λ chosen picked.
            opened-Returns g engine chosen _ _
              (pick_channel-named g channel engine chosen current named picked) (λ e. tt)
              (λ m u. from_source-Returns g chosen engine rolling _ m refl u))))
