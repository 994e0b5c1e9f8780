-- ===== src/Updates/Available.antt =====
-- pkg/updates/file.go: `AvailableVersions`, the versions that a running version can be updated to.
pub mod Total
use spicedb_operator.Base.{
  List, Result, String, [], err, if◌then◌else◌, not, ok, ◌&&◌, ◌++◌, ◌==◌, ◌>>=◌, ◌∷◌,
}
use spicedb_operator.Api.Version.{Version, attribute_next, attribute_migration, attribute_latest}
use spicedb_operator.Updates.Types.{Channel, UpdateGraph, Error, no_source}
use spicedb_operator.Updates.Memory.{
  MemorySource, next_version, next_version_without_migrations, latest_version,
}
use spicedb_operator.Updates.Graph.{datastore_of, source_for_channel}
use spicedb_operator.Updates.Target.{handle}

-- The three entries of the cluster's own channel; `direct` is the next version without migrations.
unfoldable pub direct_entry : String → String → String → List Version
direct_entry channel direct latest =
    if direct == ""
    then []
    else if direct == latest
    then record {
      name = direct;
      channel = channel;
      attributes = attribute_next ∷ attribute_latest ∷ [];
      description = "direct update with no migrations, head of channel";
    }
      ∷ []
    else record {
      name = direct;
      channel = channel;
      attributes = attribute_next ∷ [];
      description = "direct update with no migrations";
    }
      ∷ []

unfoldable pub next_entry : String → String → String → String → List Version
next_entry channel direct next latest =
    if not (next == "") && not (next == direct)
    then if next == latest
      then record {
        name = next;
        channel = channel;
        attributes = attribute_next ∷ attribute_migration ∷ attribute_latest ∷ [];
        description = "update will run a migration, head of channel";
      }
        ∷ []
      else record {
        name = next;
        channel = channel;
        attributes = attribute_next ∷ attribute_migration ∷ [];
        description = "update will run a migration";
      }
        ∷ []
    else []

unfoldable pub latest_entry : String → String → String → String → List Version
latest_entry channel direct next latest =
    if not (latest == "") && not (next == latest) && not (direct == latest)
    then record {
      name = latest;
      channel = channel;
      attributes = attribute_latest ∷ attribute_migration ∷ [];
      description = "head of the channel, multiple updates will run in sequence";
    }
      ∷ []
    else []

-- The entry for another channel: the safest update that it offers.
unfoldable pub other_entry : Channel → MemorySource → String → Result Error (List Version)
unfolding next_version next_version_without_migrations
other_entry c source name = next_version_without_migrations source name >>= λ direct. ok (
    if not (direct == "")
    then record {
      name = direct;
      channel = c.name;
      attributes = attribute_next ∷ [];
      description = "direct update with no migrations, different channel";
    }
      ∷ []
    else if not (next_version source name == "")
    then record {
      name = next_version source name;
      channel = c.name;
      attributes = attribute_next ∷ attribute_migration ∷ [];
      description = "update will run a migration, different channel";
    }
      ∷ []
    else [])

-- One round of the loop over the channels: only other channels for the engine, and of these only
-- those that have a source.
unfoldable pub channel_entry :
    UpdateGraph → String → Version → Channel → Result Error (List Version)
unfolding source_for_channel other_entry
channel_entry g engine v c =
    let offered =
      handle (source_for_channel g engine c.name) (λ e. ok [])
        (λ source. other_entry c source v.name) in
    if c.name == v.channel then ok [] else if not (datastore_of c == engine) then ok [] else offered

unfoldable pub channel_entries :
    UpdateGraph → String → Version → List Channel → Result Error (List Version)
unfolding channel_entry
channel_entries g engine v [] = ok []
channel_entries g engine v (c ∷ cs) = do
  here ← channel_entry g engine v c
  others ← channel_entries g engine v cs
  ok (here ++ others)

-- `AvailableVersions`
unfoldable pub available_versions : UpdateGraph → String → Version → Result Error (List Version)
unfolding channel_entries direct_entry next_entry latest_entry latest_version
available_versions g engine v =
    handle (source_for_channel g engine v.channel) (λ e. err (no_source v.channel e))
      λ source. next_version_without_migrations source v.name >>= λ direct.
        let latest = latest_version source v.name in
        let next = next_version source v.name in
        channel_entries g engine v g.channels >>= λ others. ok (
          direct_entry v.channel direct latest
          ++ (next_entry v.channel direct next latest
              ++ (latest_entry v.channel direct next latest ++ others)))
