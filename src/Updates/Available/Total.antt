-- ===== src/Updates/Available/Total.antt =====
-- pkg/updates/file.go: `AvailableVersions` always returns.
use spicedb_operator.Base.{List, Returns, Returns->>=, String, [], not, ok, ◌==◌, ◌∷◌, ◌≡◌}
use spicedb_operator.Api.Version.{Version}
use spicedb_operator.Updates.Types.{Channel, UpdateGraph}
use spicedb_operator.Updates.Memory.{MemorySource, next_version_without_migrations}
use spicedb_operator.Updates.Graph.{datastore_of, source_for_channel}
use spicedb_operator.Updates.Graph.Laws.{source_for_channel-IsSource, source_for_channel-Returns}
use spicedb_operator.Updates.Target.Calls.{
  Usable, IsSource-Usable, if-Returns, handle-Returns, next_version_without_migrations-Returns,
}
use spicedb_operator.Updates.Available.{
  other_entry, channel_entry, channel_entries, available_versions,
}

-- A source that is found can be asked.
found-Usable :
    (g : UpdateGraph) (engine channel : String) (m : MemorySource)
    → source_for_channel g engine channel ≡ ok m
    → Usable m
found-Usable g engine channel m h =
    let valid = source_for_channel-IsSource g engine channel h in IsSource-Usable m valid

other_entry-Returns :
    (c : Channel) (m : MemorySource) (name : String) → Usable m → Returns (other_entry c m name)
unfolding other_entry
other_entry-Returns c m name u =
    Returns->>= (next_version_without_migrations m name) _
      (next_version_without_migrations-Returns m name u) (λ direct _. tt)

channel_entry-Returns :
    (g : UpdateGraph) (engine : String) (v : Version) (c : Channel)
    → Returns (channel_entry g engine v c)
unfolding channel_entry
channel_entry-Returns g engine v c = if-Returns (c.name == v.channel) _ _ tt (
    if-Returns (not (datastore_of c == engine)) _ _ tt (
      handle-Returns (source_for_channel g engine c.name) _ _
        (source_for_channel-Returns g engine c.name) (λ e. tt)
        (λ m h. other_entry-Returns c m v.name (found-Usable g engine c.name m h))))

channel_entries-Returns :
    (g : UpdateGraph) (engine : String) (v : Version) (cs : List Channel)
    → Returns (channel_entries g engine v cs)
unfolding channel_entries
channel_entries-Returns g engine v [] = tt
channel_entries-Returns g engine v (c ∷ cs) =
    Returns->>= (channel_entry g engine v c) _ (channel_entry-Returns g engine v c) (λ here _.
      Returns->>= (channel_entries g engine v cs) _ (channel_entries-Returns g engine v cs)
        (λ others _. tt))

-- `AvailableVersions` always returns a list or an error, on every graph and for every version: a
-- version that a channel does not know is no index out of range.
pub available_versions-Returns :
    (g : UpdateGraph) (engine : String) (v : Version) → Returns (available_versions g engine v)
unfolding available_versions
available_versions-Returns g engine v =
    handle-Returns (source_for_channel g engine v.channel) _ _
      (source_for_channel-Returns g engine v.channel) (λ e. tt)
      (λ m h.
        Returns->>= (next_version_without_migrations m v.name) _
          (next_version_without_migrations-Returns m v.name (found-Usable g engine v.channel m h))
          (λ direct _.
            Returns->>= (channel_entries g engine v g.channels) _
              (channel_entries-Returns g engine v g.channels) (λ others _. tt)))
