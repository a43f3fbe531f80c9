-- ===== src/Ros/Info.antt =====
-- zenoh-plugin-dds/src/ros_discovery.rs: the messages on the topic ros_discovery_info as bytes. The crate
-- cdr turns the structure on the wire into bytes and back.
pub mod Last
use zenoh_plugin_dds.Base.{ℕ, Bool, true, false, Option, none, some, List, [], ◌∷◌}
use zenoh_plugin_dds.Base.Tests.{Result, ok, err, if◌then◌else◌, take, ◌>>=◌}
use zenoh_plugin_dds.Base.Int.{ℤ}
use zenoh_plugin_dds.Base.Text.{Str}
use zenoh_plugin_dds.Base.Map.{Map}
use zenoh_plugin_dds.Base.Map
use zenoh_plugin_dds.Qos.{Qos}
use zenoh_plugin_dds.Dds.Samples.{Taken, create, payload_as_slice, slice_after}
use zenoh_plugin_dds.Ros.{
  ParticipantEntitiesInfo, Hex, WireNode, serialize_gid, deserialize_gid,
  serialize_node_entities_info_seq, deserialize_node_entities_info_seq,
}

-- The parts of a `ParticipantEntitiesInfo` that are handed to the serializer.
pub record WireInfo : Type 0 where
  pub gid : List ℕ
  pub node_entities_info_seq : List WireNode

-- The crates hex and cdr, and `Qos::default()` and `DDS_INFINITE_TIME` of cyclors.
pub record RosCodec : Type 0 where
  pub hex : Hex
  pub cdr_serialize : WireInfo → Option Str
  pub cdr_deserialize : Str → Option WireInfo
  pub default_qos : Qos
  pub dds_infinite_time : ℤ

module _ (c : RosCodec) where
  unfoldable pub serialize_info : ParticipantEntitiesInfo → Option Str
  serialize_info info = do
    gid ← serialize_gid c.hex info.gid
    nodes ← serialize_node_entities_info_seq c.hex info.node_entities_info_seq
    c.cdr_serialize (record { gid = gid; node_entities_info_seq = nodes })

  unfoldable pub deserialize_info : Str → Option ParticipantEntitiesInfo
  deserialize_info payload = do
    wire ← c.cdr_deserialize payload
    some (record {
      gid = deserialize_gid c.hex wire.gid;
      node_entities_info_seq = deserialize_node_entities_info_seq c.hex wire.node_entities_info_seq;
    })

  -- `&payload[0..16]`, which panics out of range.
  unfoldable pub first_16 : Str → Option Str
  first_16 payload = slice_after 16 payload >>= λ _. some (take 16 payload)

  -- The body of the loop, on one sample.
  unfoldable pub read_sample : Taken → Map Str → Option (Map Str)
  read_sample taken result =
      if taken.valid_data
      then (elim (create taken.serdata) [
        | ok raw_sample ↦ do
          payload ← payload_as_slice raw_sample
          gid ← first_16 payload
          some (Map.insert (c.hex.encode gid) raw_sample result)
        | err e ↦ some result
      ])
      else some result

  -- The samples that are there, by the gid of their participant: the last one of each.
  unfoldable pub read : List Taken → Map Str → Option (Map Str)
  read [] result = some result
  read (taken ∷ rest) result = read_sample taken result >>= λ result'. read rest result'
