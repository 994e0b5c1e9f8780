-- ===== src/Updates/Types.antt =====
-- The data of pkg/updates (memory.go, file.go) and the errors that its functions return.
use spicedb_operator.Base.{Bool, List, String, false}
use spicedb_operator.Base.Map.{Map}

-- `State`: a node of the graph, how to run at that release.
pub record State : Type 0 where
  pub id : String
  pub tag : String
  pub migration : String
  pub phase : String
  pub digest : String
  pub deprecated : Bool

-- `State{}`
abbrev pub empty_state : State
empty_state = record {
  id = "";
  tag = "";
  migration = "";
  phase = "";
  digest = "";
  deprecated = false;
}

-- `EdgeSet`: the nodes that each node can update to, by id.
abbrev pub EdgeSet : Type 0
EdgeSet = Map (List String)

-- `Channel`
pub record Channel : Type 0 where
  pub name : String
  -- a nil map and an empty one are told apart only by `EqualIdentity`
  pub metadata_is_nil : Bool
  pub metadata : Map String
  pub edges : EdgeSet
  pub nodes : List State

-- `UpdateGraph`
pub record UpdateGraph : Type 0 where
  pub channels : List Channel

-- The errors, with what their messages name.
pub data Error : Type 0 where
  missing_nodes missing_edges no_base_image no_current_state : Error
  duplicate_node missing_node no_outgoing_edges version_not_in_graph : String → Error
  channel_cycle : List String → Error
  no_path no_channel_named no_update_path : String → String → Error
  no_channel_for_datastore : String → Error
  -- `fmt.Errorf("…: %w", err)`
  no_channel_found no_source : String → Error → Error
  fetching_source : Error → Error
