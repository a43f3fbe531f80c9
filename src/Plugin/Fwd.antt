-- ===== src/Plugin/Fwd.antt =====
-- zenoh-plugin-dds/src/lib.rs, `run_fwd_discovery_mode`: its state, and the handlers of what DDS
-- discovers. The discovered entities are advertised to the other plugins.
pub mod Remote
pub mod Group
pub mod Loop
pub mod Preserves
pub mod Keeps
pub mod Account
pub mod Leaks
pub mod Closes
pub mod Noted
pub mod Served
pub mod Used
pub mod Writers
pub mod Serving
pub mod Reached
pub mod Leave
pub mod Released
pub mod Hosts
use zenoh_plugin_dds.Base.{Bool, true, false, not, ◌&&◌, Option, none, some, List, [], ◌∷◌}
use zenoh_plugin_dds.Base.Tests.{if◌then◌else◌, ◌>>=◌}
use zenoh_plugin_dds.Base.Text.{Str, codes}
use zenoh_plugin_dds.Base.Map.{Map}
use zenoh_plugin_dds.Base.Map
use zenoh_plugin_dds.Qos.{Qos, partition_is_empty, is_transient_local}
use zenoh_plugin_dds.World.{External, World, Call, block, run_and_log, perform, put, delete}
use zenoh_plugin_dds.Entity.{
  DdsEntity, RouteStatus, DiscoveryEvent, discovered_publication, undiscovered_publication,
  discovered_subscription, undiscovered_subscription, discovered_participant,
  undiscovered_participant,
}
use zenoh_plugin_dds.Keyexpr.{
  get_entity_admin_keyexpr, topic_to_keyexpr, fwd_entity_key, ke_prefix_route_to_dds,
}
use zenoh_plugin_dds.Route.ToDds.{
  RouteZenohDds, remove_local_routed_reader, has_local_routed_reader, has_remote_routed_writer,
}
use zenoh_plugin_dds.Route.ToDds
use zenoh_plugin_dds.Ros.{ParticipantEntitiesInfo}
use zenoh_plugin_dds.Ros.Info.{RosCodec}
use zenoh_plugin_dds.Ros.Manager.{RosDiscoveryInfoMgr}
use zenoh_plugin_dds.Plugin.{
  Plugin, AdminRef, insert_dds_writer, insert_dds_reader, remove_dds_writer, remove_dds_reader,
  try_add_route_to_dds,
}
use zenoh_plugin_dds.Plugin.Local.{
  note_reader, on_discovered_participant, on_undiscovered_participant,
}

-- The state of the loop: that of the plugin, and the local variables of the function.
pub record Fwd : Type 0 where
  pub plugin : Plugin
  pub participant_info : ParticipantEntitiesInfo
  pub ros_disco_mgr : RosDiscoveryInfoMgr

-- `bincode` on an entity and its scope, and the codec of ros_discovery_info.
pub record Codec : Type 0 where
  pub serialize : DdsEntity → Option Str → Option Str
  pub deserialize : Str → Option (DdsEntity × Option Str)
  pub ros : RosCodec

-- `retain` over the routes to DDS, with a closure that changes the admin space.
unfoldable pub retain_to_dds :
    (Str → RouteZenohDds → Map AdminRef × World → Option RouteZenohDds × (Map AdminRef × World))
    → Plugin
    → Plugin
retain_to_dds f s =
    let (routes, (admin, w)) = Map.retain_with f s.routes_to_dds (s.admin_space, s.world) in
    record s { routes_to_dds = routes; admin_space = admin; world = w }

module _ (x : External) (c : Codec) where
  -- A call whose failure is only logged.
  unfoldable pub after_call : Call → Plugin → Plugin
  after_call call s = record s { world = run_and_log (perform x call) s.world }

  -- The advertisement of an entity: a message on its key.
  abbrev pub advertise : Bool → Str → Str → Plugin → Plugin
  advertise is_writer admin_keyexpr ser_msg s =
      after_call
        (put (fwd_entity_key x s.zid s.config.scope is_writer admin_keyexpr) (some block) ser_msg) s

  abbrev pub advertise_deletion : Bool → Str → Plugin → Plugin
  advertise_deletion is_writer admin_keyexpr s =
      after_call (delete (fwd_entity_key x s.zid s.config.scope is_writer admin_keyexpr) block) s

  -- `continue` if the message cannot be serialized: the writer is not stored.
  abbrev pub advertise_writer : Str → DdsEntity → Plugin → Option Str → Plugin
  advertise_writer admin_keyexpr e s none = s
  advertise_writer admin_keyexpr e s (some ser_msg) =
      insert_dds_writer admin_keyexpr e (advertise true admin_keyexpr ser_msg s)

  abbrev pub advertise_reader : Str → DdsEntity → Plugin → Option Str → Plugin
  advertise_reader admin_keyexpr e s none = s
  advertise_reader admin_keyexpr e s (some ser_msg) =
      insert_dds_reader admin_keyexpr e (advertise false admin_keyexpr ser_msg s)

  unfoldable pub fwd_discovered_publication : DdsEntity → Plugin → Option Plugin
  fwd_discovered_publication e s = do
    admin_keyexpr ← get_entity_admin_keyexpr x e true
    some (advertise_writer admin_keyexpr e s (c.serialize e s.config.scope))

  abbrev pub advertise_removal : Bool → Option (Str × DdsEntity) → Plugin → Plugin
  advertise_removal is_writer none s = s
  advertise_removal is_writer (some (admin_keyexpr, e)) s =
      advertise_deletion is_writer admin_keyexpr s

  unfoldable pub fwd_undiscovered_publication : Str → Plugin → Option Plugin
  fwd_undiscovered_publication key s =
      remove_dds_writer x key s >>= λ (removed, s'). some (advertise_removal true removed s')

  -- #102: a route with only the zenoh Subscriber, not the DDS Writer.
  unfoldable pub fwd_route_subscription :
      DdsEntity → Option Str → Plugin → Option (RouteStatus × Plugin)
  fwd_route_subscription e part s = do
    ke ← topic_to_keyexpr x e.topic_name s.config.scope part
    (status, s') ←
        try_add_route_to_dds x s ke e.topic_name e.type_name e.type_info e.keyless
          (is_transient_local e.qos) none
    some (status, note_reader e.key status s')

  unfoldable pub fwd_route_subscription_partitions :
      DdsEntity → List Str → Map RouteStatus → Plugin → Option (Map RouteStatus × Plugin)
  fwd_route_subscription_partitions e [] routes s = some (routes, s)
  fwd_route_subscription_partitions e (p ∷ ps) routes s = do
    (status, s') ← fwd_route_subscription e (some p) s
    fwd_route_subscription_partitions e ps (Map.insert p status routes) s'

  abbrev pub fwd_subscription_routes :
      DdsEntity → Bool → Option (List Str) → Plugin → Option (Map RouteStatus × Plugin)
  fwd_subscription_routes e true partition s = do
    (status, s') ← fwd_route_subscription e none s
    some (Map.insert (codes "*") status e.routes, s')
  fwd_subscription_routes e false none s = none
  fwd_subscription_routes e false (some ps) s = fwd_route_subscription_partitions e ps e.routes s

  unfoldable pub fwd_discovered_subscription : DdsEntity → Plugin → Option Plugin
  fwd_discovered_subscription e s = do
    (routes, s') ← fwd_subscription_routes e (partition_is_empty e.qos.partition) e.qos.partition s
    admin_keyexpr ← get_entity_admin_keyexpr x e false
    let entity = record e { routes = routes }
    some (advertise_reader admin_keyexpr entity s' (c.serialize entity s'.config.scope))

  -- The closure of `retain`: the route without the Reader, unless it is no longer used.
  abbrev pub fwd_release_reader :
      Str
      → Str
      → RouteZenohDds
      → Map AdminRef × World
      → Option RouteZenohDds × (Map AdminRef × World)
  fwd_release_reader key zkey route (admin, w) =
      let route' = remove_local_routed_reader key route in
      if not (has_local_routed_reader route') && not (has_remote_routed_writer route')
      then (
        none,
        (Map.remove (x.div ke_prefix_route_to_dds zkey) admin, ToDds.drop_route x route' w),
      )
      else (some route', (admin, w))

  unfoldable pub fwd_undiscovered_subscription : Str → Plugin → Option Plugin
  fwd_undiscovered_subscription key s = remove_dds_reader x key s >>= λ (removed, s').
      some (retain_to_dds (fwd_release_reader key) (advertise_removal false removed s'))

  -- The `match` on a discovery event.
  unfoldable pub fwd_discovery : DiscoveryEvent → Plugin → Option Plugin
  fwd_discovery (discovered_publication e) s = fwd_discovered_publication e s
  fwd_discovery (undiscovered_publication key) s = fwd_undiscovered_publication key s
  fwd_discovery (discovered_subscription e) s = fwd_discovered_subscription e s
  fwd_discovery (undiscovered_subscription key) s = fwd_undiscovered_subscription key s
  fwd_discovery (discovered_participant e) s = on_discovered_participant x e s
  fwd_discovery (undiscovered_participant key) s = on_undiscovered_participant x key s
