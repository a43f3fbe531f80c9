-- ===== src/Tests/Endpoints.antt =====
-- The endpoints of the entities of the tests: created, matched, deleted.
use zenoh_plugin_dds.Base.{◌+◌, ◌*◌, ◌≤◌, ◌≡◌, true, false, none, some, [], ◌∷◌, arith}
use zenoh_plugin_dds.Base.Int.{pos}
use zenoh_plugin_dds.Base.Text.{codes}
use zenoh_plugin_dds.Base.Set
use zenoh_plugin_dds.Qos.{Qos, keep_last}
use zenoh_plugin_dds.World.{block}
use zenoh_plugin_dds.Dds.Handles.{created, deleted, is_handle, Makes}
use zenoh_plugin_dds.Route.FromDds.{cache_history, usize_max}
use zenoh_plugin_dds.Route.FromDds
use zenoh_plugin_dds.Route.FromDds.Laws.{cache_history-holds, route_holds, new-Makes}
use zenoh_plugin_dds.Route.ToDds.{RouteZenohDds, dds_entity_null, set_dds_writer, delete_dds_writer}
use zenoh_plugin_dds.Route.ToDds.Laws.{Sets, set_dds_writer-Sets, delete_dds_writer-deleted}
use zenoh_plugin_dds.Route.ToDds
use zenoh_plugin_dds.Tests.{concrete, defaults, plain_qos, settings}

-- A Writer in two partitions.
abbrev two_parts : Qos
two_parts = record plain_qos { partition = some (codes "a" ∷ codes "b" ∷ []) }

cache_history-holds_example :
    (10 * 20 ≤ cache_history defaults false keep_last (pos 10) (pos 20))
    × (cache_history defaults false keep_last (pos 10) (pos 20) ≤ usize_max)
cache_history-holds_example =
    cache_history-holds defaults 10 20 (omega arith) (omega arith) (omega arith)

new-Makes_example : Makes (pos 2) (route_holds (pos 2)) [] (
    FromDds.new concrete
      (pos 1)
      (codes "ab")
      settings
      (codes "rt/chatter")
      (codes "String")
      none
      true
      plain_qos
      (codes "robot1/rt/chatter")
      block
      [])
new-Makes_example =
    new-Makes concrete (pos 1) (codes "ab") settings (codes "rt/chatter") (codes "String") none true
      plain_qos (codes "robot1/rt/chatter") block 2 []

-- A route to DDS without and with a Writer.
abbrev bare : RouteZenohDds
bare = record {
  zenoh_subscriber = ToDds.subscriber (codes "rt/chatter");
  topic_name = codes "rt/chatter";
  topic_type = codes "String";
  keyless = true;
  dds_writer = dds_entity_null;
  remote_routed_writers = [];
  local_routed_readers = [];
}

abbrev with_writer : RouteZenohDds
with_writer = record bare { dds_writer = pos 3 }

set_dds_writer-Sets_example :
    Sets (pos 2) bare [] (set_dds_writer concrete (pos 1) bare none plain_qos [])
set_dds_writer-Sets_example = set_dds_writer-Sets 1 bare [] concrete (pos 1) none plain_qos

delete_dds_writer-deleted_example :
    ((delete_dds_writer concrete with_writer []).0.dds_writer ≡ dds_entity_null)
    × (created (pos 3) (delete_dds_writer concrete with_writer []).1 ≡ created (pos 3) [])
    × (deleted (pos 3) (delete_dds_writer concrete with_writer []).1
        ≡ is_handle (pos 3) with_writer.dds_writer + deleted (pos 3) [])
delete_dds_writer-deleted_example = delete_dds_writer-deleted 2 with_writer [] concrete
