-- ===== src/Updates/Target.antt =====
-- pkg/updates/file.go: `ComputeTarget`, the version and the image to run next.
pub mod Steps
pub mod Safety
pub mod Calls
pub mod Total
use spicedb_operator.Base.{
  Bool, Option, Result, String, [], err, false, if◌then◌else◌, none, not, ok, panic, some, timeout,
  true, ◌&&◌, ◌++◌, ◌==◌, ◌>>=◌, ◌||◌, ◌∷◌,
}
use spicedb_operator.Base.Text.{cut}
use spicedb_operator.Api.Version.{
  Version, empty_version, attribute_migration, attribute_not_in_channel,
}
use spicedb_operator.Updates.Types.{
  State, empty_state, UpdateGraph, Error, no_base_image, no_channel_found, fetching_source,
  version_not_in_graph, no_current_state, no_update_path,
}
use spicedb_operator.Updates.Memory.{
  MemorySource, next_version, next_version_without_migrations, latest_version, state, subgraph,
}
use spicedb_operator.Updates.Graph.{default_channel_for_datastore, source_for_channel}

-- `explodeImage`: base image, tag and digest.
unfoldable pub explode_image : String → String × String × String
explode_image image =
    let (image_maybe_tag, digest, _) = cut b'@' image in
    let (base_image, tag, _) = cut b':' image_maybe_tag in (base_image, tag, digest)

-- The four results of `ComputeTarget`; a Go panic stands outside them.
pub record Target : Type 0 where
  pub base_image : String
  pub target : Option Version
  pub state : State
  pub error : Option Error

-- A call whose error is handled here; a panic passes through.
abbrev pub handle {ℓ κ} :
    {A : Type ℓ} {B : Type κ}
    → Result Error A
    → (Error → Result Error B)
    → (A → Result Error B)
    → Result Error B
handle (ok a) failed k = k a
handle (err e) failed k = failed e
handle panic failed k = panic
handle timeout failed k = timeout

-- A method call on `updateSource`, which is nil where no channel was found.
abbrev pub on_source {ℓ} :
    {B : Type ℓ} → Option MemorySource → (MemorySource → Result Error B) → Result Error B
on_source none k = panic
on_source (some m) k = k m

-- `cmp.Or` on three texts: the first that is not empty.
unfoldable pub first_non_empty : String → String → String → String
first_non_empty a b c = if not (a == "") then a else if not (b == "") then b else c

-- The channel to follow: the given one, else that of the current version, else the default.
unfoldable pub pick_channel : UpdateGraph → String → String → Option Version → Result Error String
pick_channel g channel engine current =
    let channel' : String = elim current [
      | none ↦ channel
      | some cv ↦ if channel == "" then cv.channel else channel
    ] in
    if channel' == "" then default_channel_for_datastore g engine else ok channel'

-- What the last part of `ComputeTarget` works on.
pub record Plan : Type 0 where
  pub base_image : String
  pub source : Option MemorySource
  pub version : String
  pub target : Version
  pub current : Option Version
  pub current_state : State
  pub not_in_channel : Bool

abbrev pub stop : String → Version → State → Option Error → Result Error Target
stop base_image target s e =
    ok (record { base_image = base_image; target = some target; state = s; error = e })

-- `target.Attributes = []SpiceDBVersionAttributes{SpiceDBVersionAttributesMigration}`
abbrev pub with_migration : Version → Version
with_migration v = record v { attributes = attribute_migration ∷ [] }

-- "If we found the next step to take, return it."
unfoldable pub take_step : Plan → MemorySource → String → Version → Result Error Target
take_step p source target_version target = do
  s ← state source target_version
  stop p.base_image (record target { name = s.id }) s none

-- The step from the current version, or the installation of the head.
unfoldable pub next_step : Plan → MemorySource → Result Error Target
next_step p source =
    let install = take_step p source (latest_version source "") (with_migration p.target) in
    elim p.current [
      | none ↦ install
      | some cv ↦
          let step = next_version_without_migrations source cv.name >>= λ direct.
          take_step p source (next_version source cv.name) (
            if not (next_version source cv.name == direct)
            then with_migration p.target
            else p.target) in
          if cv.name == ""
          then install
          else if next_version source cv.name == ""
          then stop p.base_image p.target p.current_state none
          else step
    ]

abbrev pub name_of : Option Version → String
name_of none = ""
name_of (some v) = v.name

abbrev pub is_some {ℓ} : {A : Type ℓ} → Option A → Bool
is_some none = false
is_some (some a) = true

-- Only the part of the source that leads to an explicit version is used.
unfoldable pub narrow : Plan → Result Error Target
narrow p =
    let failed = λ (e : Error).
      stop p.base_image p.target empty_state
        (some (no_update_path (name_of p.current) p.version)) in
    if is_some p.current && not (p.version == "") && not p.not_in_channel
    then on_source p.source (λ m. handle (subgraph m p.version) failed (next_step p))
    else on_source p.source (next_step p)

-- While a rollout is in progress the current state stays.
unfoldable pub unless_rolling : Bool → Plan → Result Error Target
unless_rolling rolling p =
    let held =
      if p.current_state.id == ""
      then ok (record {
        base_image = p.base_image;
        target = none;
        state = empty_state;
        error = some no_current_state;
      })
      else stop p.base_image p.target p.current_state none in
    if rolling then held else narrow p

-- "We're switching channels but the specified version isn't there."
abbrev pub moved : Plan → Version → State → Plan
moved p cv s = record p {
  current_state = s;
  target = record (p.target) {
    channel = cv.channel;
    attributes = p.target.attributes ++ attribute_not_in_channel ∷ [];
  };
  not_in_channel = true;
}

-- The state of the current version, in its own channel if the wanted one does not have it.
unfoldable pub locate_in :
    UpdateGraph → String → Bool → Plan → Version → MemorySource → Result Error Target
locate_in g engine rolling p cv m = state m cv.name >>= λ found.
    let elsewhere =
      handle (source_for_channel g engine cv.channel)
        (λ e. stop p.base_image p.target empty_state (some (fetching_source e)))
        (λ own. state own cv.name >>= λ s. unless_rolling rolling (moved p cv s)) in
    if found.id == ""
    then elsewhere
    else unless_rolling rolling (record p { current_state = found })

unfoldable pub locate_current : UpdateGraph → String → Bool → Plan → Version → Result Error Target
locate_current g engine rolling p cv = on_source p.source (locate_in g engine rolling p cv)

-- An explicit version with none installed yet.
unfoldable pub install_explicit : Plan → Result Error Target
install_explicit p = on_source p.source λ m. state m p.version >>= λ s.
    if s.id == ""
    then stop p.base_image p.target empty_state (some (version_not_in_graph p.version))
    else stop p.base_image (record (with_migration p.target) { name = s.id }) s none

-- `ComputeTarget` from the point where the source is known.
unfoldable pub from_source : UpdateGraph → String → String → Bool → Plan → Result Error Target
from_source g channel engine rolling p =
    if not (p.version == "") && name_of p.current == ""
    then install_explicit p
    else elim p.current [
      | none ↦ unless_rolling rolling p
      | some cv ↦
          if cv.name == p.version && cv.channel == channel
          then on_source p.source (λ m. state m cv.name >>= λ s. stop p.base_image p.target s none)
          else locate_current g engine rolling p cv
    ]

-- `updateSource`, nil for the empty channel.
unfoldable pub open_source : UpdateGraph → String → String → Result Error (Option MemorySource)
open_source g engine channel =
    if channel == "" then ok none else source_for_channel g engine channel >>= λ m. ok (some m)

-- The version being worked towards, in the channel to follow.
abbrev pub start_version : String → Option Version → Version
start_version channel current =
    let v : Version = elim current [ none ↦ empty_version | some cv ↦ cv ] in
    if not (channel == "") then record v { channel = channel } else v

abbrev pub without_target : String → State → Option Error → Result Error Target
without_target base_image s e =
    ok (record { base_image = base_image; target = none; state = s; error = e })

-- `ComputeTarget` from the point where the base image is known.
unfoldable pub from_channel :
    UpdateGraph → String → String → String → String → Option Version → Bool → Result Error Target
from_channel g base_image version channel engine current rolling =
    handle (pick_channel g channel engine current)
      (λ e. without_target base_image empty_state (some (no_channel_found engine e)))
      λ chosen.
        handle (open_source g engine chosen)
          (λ e. without_target base_image empty_state (some (fetching_source e)))
          λ source. from_source g chosen engine rolling (record {
            base_image = base_image;
            source = source;
            version = version;
            target = start_version chosen current;
            current = current;
            current_state = empty_state;
            not_in_channel = false;
          })

-- `ComputeTarget`
unfoldable pub compute_target :
    UpdateGraph
    → (operator_image cluster_base_image image version channel engine : String)
    → (current : Option Version) → (rolling : Bool) → Result Error Target
compute_target g operator_image cluster_base_image image version channel engine current rolling =
    let (exploded_base_image, tag, digest) = explode_image image in
    let base_image = first_non_empty exploded_base_image cluster_base_image operator_image in
    if not (digest == "") || not (tag == "")
    then without_target exploded_base_image (record empty_state { tag = tag; digest = digest }) none
    else if base_image == ""
    then without_target base_image empty_state (some no_base_image)
    else from_channel g base_image version channel engine current rolling
