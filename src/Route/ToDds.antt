-- ===== src/Route/ToDds.antt =====
-- zenoh-plugin-dds/src/route_zenoh_dds.rs: a route from zenoh to DDS. Only the plugin's task creates
-- and deletes the DDS Writer of a route, so the operations are taken one after another here.
pub mod Laws
pub mod Deliver
use zenoh_plugin_dds.Base.{ℕ, Bool, true, false, not, Option, none, some, List, []}
use zenoh_plugin_dds.Base.Tests.{if◌then◌else◌, is_empty, Result, ok, err}
use zenoh_plugin_dds.Base.Int.{ℤ, pos, eqb_ℤ}
use zenoh_plugin_dds.Base.Text.{Str, contains}
use zenoh_plugin_dds.Base.Set
use zenoh_plugin_dds.Qos.{Qos}
use zenoh_plugin_dds.World.{
  External, M, World, pure, perform, perform_or, run_and_log, ◌>>=◌, ◌>>◌, declare_subscriber,
  declare_querying_subscriber, fetch, subscriber_creation, fetching_subscriber_creation,
}
use zenoh_plugin_dds.Dds.{TypeInfo, create_forwarding_dds_writer, delete_dds_entity}
use zenoh_plugin_dds.Keyexpr.{ke_prefix_pub_cache, ke_any_1_segment}

pub data ZSubscriber : Type 0 where
  subscriber : Str → ZSubscriber
  fetching_subscriber : Str → ZSubscriber

abbrev pub dds_entity_null : ℤ
dds_entity_null = pos 0

pub record RouteZenohDds : Type 0 where
  pub zenoh_subscriber : ZSubscriber
  pub topic_name : Str
  pub topic_type : Str
  pub keyless : Bool
  pub dds_writer : ℤ
  pub remote_routed_writers : List Str
  pub local_routed_readers : List Str

module _ (x : External) where
  -- The block that creates the zenoh Subscriber.
  unfoldable pub new_subscriber : Str → Bool → M ZSubscriber
  unfolding perform_or
  new_subscriber ke querying_subscriber =
      if querying_subscriber
      then (do
        perform_or x
            (declare_querying_subscriber ke (x.div (x.div ke ke_prefix_pub_cache) ke_any_1_segment))
            fetching_subscriber_creation
        pure (fetching_subscriber ke))
      else (do perform_or x (declare_subscriber ke) subscriber_creation; pure (subscriber ke))

  unfoldable pub new : Str → Bool → Str → Str → Bool → M RouteZenohDds
  unfolding new_subscriber
  new ke querying_subscriber topic_name topic_type keyless = do
    zenoh_subscriber ← new_subscriber ke querying_subscriber
    pure (record {
      zenoh_subscriber = zenoh_subscriber;
      topic_name = topic_name;
      topic_type = topic_type;
      keyless = keyless;
      dds_writer = dds_entity_null;
      remote_routed_writers = [];
      local_routed_readers = [];
    })

  -- The route with its Writer set, if it had none.
  unfoldable pub set_dds_writer : ℤ → RouteZenohDds → Option TypeInfo → Qos → M RouteZenohDds
  set_dds_writer data_participant r type_info writer_qos =
      if eqb_ℤ r.dds_writer dds_entity_null
      then (do
        dw ←
            create_forwarding_dds_writer x data_participant r.topic_name r.topic_type type_info
              r.keyless writer_qos
        pure (record r { dds_writer = dw }))
      else pure r

  -- The world after the deletion of the Writer; the route is left with none.
  unfoldable pub delete_dds_writer : RouteZenohDds → World → RouteZenohDds × World
  delete_dds_writer r w = (
    record r { dds_writer = dds_entity_null },
    if eqb_ℤ r.dds_writer dds_entity_null
        then w
        else run_and_log (delete_dds_entity x r.dds_writer) w,
  )

  -- `drop` of a route.
  unfoldable pub drop_route : RouteZenohDds → World → World
  unfolding delete_dds_writer
  drop_route r w = (delete_dds_writer r w).1

  abbrev query_with : Str → ZSubscriber → World → World
  query_with selector (subscriber ke) w = w
  query_with selector (fetching_subscriber ke) w = run_and_log (perform x (fetch ke selector)) w

  unfoldable pub query_historical_publications : Str → RouteZenohDds → World → World
  query_historical_publications selector r w = query_with selector r.zenoh_subscriber w

unfoldable pub add_remote_routed_writer : Str → RouteZenohDds → RouteZenohDds
add_remote_routed_writer admin_ke r = record r {
  remote_routed_writers = Set.insert admin_ke r.remote_routed_writers;
}

unfoldable pub remove_remote_routed_writer : Str → RouteZenohDds → RouteZenohDds
remove_remote_routed_writer admin_ke r = record r {
  remote_routed_writers = Set.remove admin_ke r.remote_routed_writers;
}

unfoldable pub remove_remote_routed_writers_containing : Str → RouteZenohDds → RouteZenohDds
remove_remote_routed_writers_containing sub_ke r = record r {
  remote_routed_writers = Set.keep_if (λ s. not (contains s sub_ke)) r.remote_routed_writers;
}

unfoldable pub has_remote_routed_writer : RouteZenohDds → Bool
has_remote_routed_writer r = not (is_empty r.remote_routed_writers)

unfoldable pub is_routing_remote_writer : Str → RouteZenohDds → Bool
is_routing_remote_writer entity_key r = Set.any (λ s. contains s entity_key) r.remote_routed_writers

unfoldable pub add_local_routed_reader : Str → RouteZenohDds → RouteZenohDds
add_local_routed_reader entity_key r = record r {
  local_routed_readers = Set.insert entity_key r.local_routed_readers;
}

unfoldable pub remove_local_routed_reader : Str → RouteZenohDds → RouteZenohDds
remove_local_routed_reader entity_key r = record r {
  local_routed_readers = Set.remove entity_key r.local_routed_readers;
}

unfoldable pub has_local_routed_reader : RouteZenohDds → Bool
has_local_routed_reader r = not (is_empty r.local_routed_readers)
