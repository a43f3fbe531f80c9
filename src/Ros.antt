-- ===== src/Ros.antt =====
-- zenoh-plugin-dds/src/ros_discovery.rs: the ROS graph information that the plugin forwards. The crate
-- hex is the pair of functions of `Hex`; the wire form of a message is the structure that its
-- `serialize_with` functions hand to the serializer.
pub mod Graph
pub mod Wire
pub mod Info
pub mod Manager
use zenoh_plugin_dds.Base.{ℕ, Bool, not, ◌&&◌, Option, none, some, List, [], ◌∷◌, ◌++◌, map}
use zenoh_plugin_dds.Base.Tests.{if◌then◌else◌, is_empty, take, replicate, ◌>>=◌}
use zenoh_plugin_dds.Base.Text.{Str, str_eq}
use zenoh_plugin_dds.Base.Map.{Map, values}
use zenoh_plugin_dds.Base.Map
use zenoh_plugin_dds.Base.Set

pub record NodeEntitiesInfo : Type 0 where
  pub node_namespace : Str
  pub node_name : Str
  pub reader_gid_seq : List Str
  pub writer_gid_seq : List Str

pub record ParticipantEntitiesInfo : Type 0 where
  pub gid : Str
  pub node_entities_info_seq : Map NodeEntitiesInfo

unfoldable pub new : Str → ParticipantEntitiesInfo
new gid = record { gid = gid; node_entities_info_seq = [] }

-- The closure of `cleanup`.
abbrev pub keep_node : Str → NodeEntitiesInfo → Option NodeEntitiesInfo
keep_node key node =
    if not (is_empty node.reader_gid_seq) && not (is_empty node.writer_gid_seq)
    then some node
    else none

unfoldable pub cleanup : ParticipantEntitiesInfo → ParticipantEntitiesInfo
cleanup p = record p { node_entities_info_seq = Map.retain keep_node p.node_entities_info_seq }

-- `HashMap::extend`
unfoldable pub extend : Map NodeEntitiesInfo → Map NodeEntitiesInfo → Map NodeEntitiesInfo
extend m [] = m
extend m ((k, v) ∷ rest) = extend (Map.insert k v m) rest

unfoldable pub update_with :
    Map NodeEntitiesInfo → ParticipantEntitiesInfo → ParticipantEntitiesInfo
update_with nodes_entities p =
    cleanup (record p { node_entities_info_seq = extend p.node_entities_info_seq nodes_entities })

abbrev pub without : Str → List Str → List Str
without gid = Set.keep_if (λ g. not (str_eq g gid))

unfoldable pub remove_reader_gid : Str → ParticipantEntitiesInfo → ParticipantEntitiesInfo
remove_reader_gid reader_gid p = record p {
  node_entities_info_seq =
      Map.map_values
        (λ node. record node { reader_gid_seq = without reader_gid node.reader_gid_seq })
        p.node_entities_info_seq;
}

unfoldable pub remove_writer_gid : Str → ParticipantEntitiesInfo → ParticipantEntitiesInfo
remove_writer_gid writer_gid p = record p {
  node_entities_info_seq =
      Map.map_values
        (λ node. record node { writer_gid_seq = without writer_gid node.writer_gid_seq })
        p.node_entities_info_seq;
}

-- `hex::encode` and `hex::decode`; `none` is a decoding error.
pub record Hex : Type 0 where
  pub encode : List ℕ → Str
  pub decode : Str → Option (List ℕ)

-- `buf.resize(24, 0)`
abbrev pub resize_24 : List ℕ → List ℕ
resize_24 buf = take 24 (buf ++ replicate 24 0)

pub record WireNode : Type 0 where
  pub node_namespace : Str
  pub node_name : Str
  pub reader_gid_seq : List (List ℕ)
  pub writer_gid_seq : List (List ℕ)

module _ (hex : Hex) where
  unfoldable pub serialize_gid : Str → Option (List ℕ)
  serialize_gid gid = hex.decode gid >>= λ buf. some (take 24 (resize_24 buf))

  unfoldable pub deserialize_gid : List ℕ → Str
  deserialize_gid gid = hex.encode (take 16 gid)

  unfoldable pub serialize_gids : List Str → Option (List (List ℕ))
  serialize_gids [] = some []
  serialize_gids (s ∷ gids) = hex.decode s >>= λ buf.
      (serialize_gids gids >>= λ rest. some (take 24 (resize_24 buf) ∷ rest))

  unfoldable pub deserialize_gids : List (List ℕ) → List Str
  deserialize_gids gids = map (λ gid. hex.encode (take 16 gid)) gids

  -- The derived `Serialize` of a node.
  unfoldable pub serialize_node : NodeEntitiesInfo → Option WireNode
  unfolding serialize_gids
  serialize_node node = do
    readers ← serialize_gids node.reader_gid_seq
    writers ← serialize_gids node.writer_gid_seq
    some (record {
      node_namespace = node.node_namespace;
      node_name = node.node_name;
      reader_gid_seq = readers;
      writer_gid_seq = writers;
    })

  unfoldable pub deserialize_node : WireNode → NodeEntitiesInfo
  unfolding deserialize_gids
  deserialize_node w = record {
    node_namespace = w.node_namespace;
    node_name = w.node_name;
    reader_gid_seq = deserialize_gids w.reader_gid_seq;
    writer_gid_seq = deserialize_gids w.writer_gid_seq;
  }

  unfoldable pub serialize_node_entities_info_seq : Map NodeEntitiesInfo → Option (List WireNode)
  serialize_node_entities_info_seq [] = some []
  serialize_node_entities_info_seq ((key, node) ∷ entities) = do
    wire ← serialize_node node
    rest ← serialize_node_entities_info_seq entities
    some (wire ∷ rest)

  -- The loop that fills the map.
  unfoldable pub insert_nodes : List WireNode → Map NodeEntitiesInfo → Map NodeEntitiesInfo
  insert_nodes [] m = m
  insert_nodes (w ∷ ws) m =
      insert_nodes ws (Map.insert (w.node_namespace ++ w.node_name) (deserialize_node w) m)

  unfoldable pub deserialize_node_entities_info_seq : List WireNode → Map NodeEntitiesInfo
  unfolding insert_nodes
  deserialize_node_entities_info_seq ws = insert_nodes ws []
