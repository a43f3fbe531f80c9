-- ===== src/Tests/Graphs.antt =====
-- A ROS graph of one node, through its updates and its wire form.
use zenoh_plugin_dds.Base.{ℕ, ◌≡◌, refl, not, ◌&&◌, none, some, List, [], ◌∷◌}
use zenoh_plugin_dds.Base.Tests.{replicate}
use zenoh_plugin_dds.Base.Text.{Str, codes, str_eq}
use zenoh_plugin_dds.Base.Map.{Map, Distinct}
use zenoh_plugin_dds.Base.Map
use zenoh_plugin_dds.Base.Set
use zenoh_plugin_dds.Ros.{
  NodeEntitiesInfo, ParticipantEntitiesInfo, Hex, WireNode, cleanup, update_with, remove_reader_gid,
  serialize_gid, deserialize_gid, serialize_node_entities_info_seq,
  deserialize_node_entities_info_seq,
}
use zenoh_plugin_dds.Ros.Graph.{
  get-update_with, cleanup_reader_only, mem-remove_reader_gid, newer, IsCleaned,
}
use zenoh_plugin_dds.Ros.Wire.{
  DecodesHex, serialize_gid-roundtrip, node_entities_info_seq-roundtrip,
}

abbrev gid : Str
gid = replicate 16 7

abbrev talker : NodeEntitiesInfo
talker = record {
  node_namespace = codes "/";
  node_name = codes "talker";
  reader_gid_seq = gid ∷ [];
  writer_gid_seq = [];
}

abbrev nodes : Map NodeEntitiesInfo
nodes = (codes "/talker", talker) ∷ []

abbrev known : ParticipantEntitiesInfo
known = record { gid = codes "01"; node_entities_info_seq = nodes }

get-update_with_example :
    IsCleaned
      (newer
        (Map.get (codes "/talker") nodes)
        (Map.get (codes "/talker") known.node_entities_info_seq))
      (Map.get (codes "/talker") (update_with nodes known).node_entities_info_seq)
unfolding Map.get
get-update_with_example = get-update_with (codes "/talker") known (refl, tt) nodes (refl, tt)

cleanup_reader_only_example :
    Map.get (codes "/talker") (cleanup known).node_entities_info_seq ≡ none
unfolding Map.get str_eq
cleanup_reader_only_example =
    cleanup_reader_only (codes "/talker") known (refl, tt) talker refl refl refl

mem-remove_reader_gid_example :
    (node' : NodeEntitiesInfo) × (Map.get
        (codes "/talker")
        (remove_reader_gid gid known).node_entities_info_seq
      ≡ some node')
    × (Set.mem gid node'.reader_gid_seq ≡ (not (str_eq gid gid) && Set.mem gid (gid ∷ [])))
    × (node'.writer_gid_seq ≡ [])
unfolding Map.get str_eq
mem-remove_reader_gid_example =
    mem-remove_reader_gid (codes "/talker") known (refl, tt) gid gid talker refl

-- A gid stands for itself here.
abbrev pub plain_hex : Hex
plain_hex = record { encode = λ b. b; decode = some }

plain_hex-DecodesHex : DecodesHex plain_hex
plain_hex-DecodesHex = record { decode-encode = λ b. refl }

serialize_gid-roundtrip_example :
    (b : List ℕ) × (serialize_gid plain_hex gid ≡ some b) × (deserialize_gid plain_hex b ≡ gid)
serialize_gid-roundtrip_example =
    serialize_gid-roundtrip plain_hex plain_hex-DecodesHex gid (gid, refl, refl)

node_entities_info_seq-roundtrip_example :
    (ws : List WireNode) × (serialize_node_entities_info_seq plain_hex nodes ≡ some ws)
    × ((k : Str) → Map.get k (deserialize_node_entities_info_seq plain_hex ws) ≡ Map.get k nodes)
unfolding Map.get
node_entities_info_seq-roundtrip_example =
    node_entities_info_seq-roundtrip plain_hex plain_hex-DecodesHex nodes
      (refl, ((gid, refl, refl), tt), tt, tt) (refl, tt)
