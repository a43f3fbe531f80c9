-- ===== src/Ros/Manager.antt =====
-- zenoh-plugin-dds/src/ros_discovery.rs, `RosDiscoveryInfoMgr`: the topic ros_discovery_info is read and
-- written.
pub mod Handles
use zenoh_plugin_dds.Base.{ℕ, Bool, true, false, Option, none, some, List, [], ◌∷◌}
use zenoh_plugin_dds.Base.Tests.{Result, ok, err, if◌then◌else◌}
use zenoh_plugin_dds.Base.Int.{ℤ, pos, neg, ltb_ℤ}
use zenoh_plugin_dds.Base.Text.{Str, codes}
use zenoh_plugin_dds.Base.Map.{Map}
use zenoh_plugin_dds.Base.Map
use zenoh_plugin_dds.Qos.{
  Qos, reliable, transient_local, keep_all, keep_last, participant, HistoryKind,
}
use zenoh_plugin_dds.World.{
  External, World, M, pure, fail, perform, ◌>>=◌, run_and_log, create_blob_topic, create_reader,
  create_writer, reader_creation, writer_creation, serialization, sertype_lookup,
  get_entity_sertype, write_cdr, Error,
}
use zenoh_plugin_dds.Dds.{is_negative, delete_dds_entity}
use zenoh_plugin_dds.Config.{ros_discovery_info_topic_name}
use zenoh_plugin_dds.Ros.Info.{RosCodec, serialize_info}
use zenoh_plugin_dds.Ros.{
  NodeEntitiesInfo, ParticipantEntitiesInfo, Hex, WireNode, serialize_gid, deserialize_gid,
  serialize_node_entities_info_seq, deserialize_node_entities_info_seq,
}

abbrev pub ros_discovery_info_topic_type : Str
ros_discovery_info_topic_type = codes "rmw_dds_common::msg::dds_::ParticipantEntitiesInfo_"

pub record RosDiscoveryInfoMgr : Type 0 where
  pub reader : ℤ
  pub writer : ℤ

module _ (c : RosCodec) where
  -- The QoS of the reader (KEEP_ALL) and of the writer (KEEP_LAST 1).
  unfoldable pub ros_qos : HistoryKind → ℤ → Qos
  ros_qos kind depth = record c.default_qos {
    reliability = some (record { kind = reliable; max_blocking_time = c.dds_infinite_time });
    durability = some (record { kind = transient_local });
    history = some (record { kind = kind; depth = depth });
    ignore_local = some (record { kind = participant });
  }

  module _ (x : External) where
    -- The block that creates the writer, after the reader.
    unfoldable pub create_ros_writer : ℤ → ℤ → ℤ → M RosDiscoveryInfoMgr
    unfolding perform
    create_ros_writer dp t reader =
        perform x (create_writer dp t (ros_qos keep_last (pos 1))) >>= λ writer.
        if is_negative writer
        then fail (writer_creation (neg writer))
        else pure (record { reader = reader; writer = writer })

    unfoldable pub create_mgr : ℤ → M RosDiscoveryInfoMgr
    unfolding perform
    create_mgr dp =
        perform x
          (create_blob_topic dp ros_discovery_info_topic_name ros_discovery_info_topic_type true)
        >>= λ t.
            (perform x (create_reader dp t (ros_qos keep_all (pos 0)) none) >>= λ reader.
            if is_negative reader
            then fail (reader_creation (neg reader))
            else create_ros_writer dp t reader)

    -- `drop` of the manager.
    unfoldable pub drop_mgr : RosDiscoveryInfoMgr → World → World
    drop_mgr mgr w =
        run_and_log (delete_dds_entity x mgr.writer)
          (run_and_log (delete_dds_entity x mgr.reader) w)

    -- The result of the serialization and the call that writes it.
    unfoldable pub write : RosDiscoveryInfoMgr → ParticipantEntitiesInfo → M (Unit {0})
    unfolding perform
    write mgr info = elim (serialize_info c info) [
      | none ↦ fail serialization
      | some buf ↦ perform x (get_entity_sertype mgr.writer) >>= λ ret.
          if is_negative ret
          then fail (sertype_lookup ret)
          else (perform x (write_cdr mgr.writer buf) >>= λ _. pure tt)
    ]
