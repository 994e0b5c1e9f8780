-- ===== src/Updates/Graph.antt =====
-- pkg/updates/file.go: channels of the update graph, and the source for one of them.
pub mod Laws
use spicedb_operator.Base.{
  Bool, List, Result, String, [], err, false, if◌then◌else◌, ok, ◌&&◌, ◌==◌, ◌||◌, ◌∷◌,
}
use spicedb_operator.Base.Map
use spicedb_operator.Base.Text.{equal_fold}
use spicedb_operator.Updates.Types.{
  Channel, UpdateGraph, Error, no_channel_for_datastore, no_channel_named,
}
use spicedb_operator.Updates.Memory.{MemorySource, new_memory_source}

-- `DatastoreMetadataKey`
abbrev pub datastore_metadata_key : String
datastore_metadata_key = "datastore"

-- `c.Metadata[DatastoreMetadataKey]`
abbrev pub datastore_of : Channel → String
datastore_of c = Map.get_or "" datastore_metadata_key c.metadata

-- `EqualIdentity`
unfoldable pub equal_identity : Channel → Channel → Bool
unfolding Map.get_or
equal_identity c other =
    if c.metadata_is_nil || other.metadata_is_nil
    then false
    else c.name == other.name && datastore_of c == datastore_of other

-- The test of `DefaultChannelForDatastore`.
unfoldable pub is_default_for : String → Channel → Bool
unfolding Map.get_or equal_fold
is_default_for datastore c =
    equal_fold (datastore_of c) datastore && equal_fold (Map.get_or "" "default" c.metadata) "true"

-- The loop of `DefaultChannelForDatastore`.
unfoldable pub find_default : String → List Channel → Result Error String
unfolding is_default_for
find_default datastore [] = err (no_channel_for_datastore datastore)
find_default datastore (c ∷ cs) =
    if is_default_for datastore c then ok c.name else find_default datastore cs

-- `DefaultChannelForDatastore`
unfoldable pub default_channel_for_datastore : UpdateGraph → String → Result Error String
unfolding find_default
default_channel_for_datastore g datastore = find_default datastore g.channels

-- The test of `SourceForChannel`.
unfoldable pub is_channel : String → String → Channel → Bool
unfolding Map.get_or equal_fold
is_channel engine channel c = equal_fold c.name channel && equal_fold (datastore_of c) engine

-- The loop of `SourceForChannel`.
unfoldable pub find_source : String → String → List Channel → Result Error MemorySource
unfolding is_channel
find_source engine channel [] = err (no_channel_named engine channel)
find_source engine channel (c ∷ cs) =
    if is_channel engine channel c
    then new_memory_source c.nodes c.edges
    else find_source engine channel cs

-- `SourceForChannel`
unfoldable pub source_for_channel : UpdateGraph → String → String → Result Error MemorySource
unfolding find_source
source_for_channel g engine channel = find_source engine channel g.channels
