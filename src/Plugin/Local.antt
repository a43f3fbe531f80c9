-- ===== src/Plugin/Local.antt =====
-- zenoh-plugin-dds/src/lib.rs, `run_local_discovery_mode`: the handlers of its loop.
pub mod Keeps
pub mod Release
pub mod Account
pub mod Quiet
pub mod Run
pub mod Returns
pub mod Removing
pub mod Total
pub mod Used
pub mod Serves
use zenoh_plugin_dds.Base.{Bool, true, false, ◌&&◌, Option, none, some, List, [], ◌∷◌}
use zenoh_plugin_dds.Base.Tests.{if◌then◌else◌, ◌>>=◌}
use zenoh_plugin_dds.Base.Text.{Str, codes}
use zenoh_plugin_dds.Base.Map.{Map}
use zenoh_plugin_dds.Base.Map
use zenoh_plugin_dds.Qos.{
  Qos, partition_is_empty, adapt_writer_qos_for_reader, adapt_reader_qos_for_writer,
  is_writer_reliable, is_transient_local,
}
use zenoh_plugin_dds.World.{External, World, CongestionControl, block, drop}
use zenoh_plugin_dds.Entity.{
  DdsEntity, DdsParticipant, RouteStatus, routed, not_allowed, creation_failure, qos_conflict,
  DiscoveryEvent, discovered_publication, undiscovered_publication, discovered_subscription,
  undiscovered_subscription, discovered_participant, undiscovered_participant,
}
use zenoh_plugin_dds.Keyexpr.{
  ke_prefix_route_from_dds, ke_prefix_route_to_dds, get_participant_admin_keyexpr,
  get_entity_admin_keyexpr, topic_to_keyexpr, slash, ke_prefix_pub_cache,
}
use zenoh_plugin_dds.Route.FromDds.{
  RouteDdsZenoh, add_local_routed_writer, remove_local_routed_writer, has_local_routed_writer,
}
use zenoh_plugin_dds.Route.FromDds
use zenoh_plugin_dds.Route.ToDds.{
  RouteZenohDds, add_local_routed_reader, remove_local_routed_reader, has_local_routed_reader,
  query_historical_publications,
}
use zenoh_plugin_dds.Route.ToDds
use zenoh_plugin_dds.Plugin.{
  Plugin, AdminRef, insert_dds_participant, insert_dds_writer, insert_dds_reader,
  remove_dds_participant, remove_dds_writer, remove_dds_reader, try_add_route_from_dds,
  try_add_route_to_dds,
}

-- Blocking if the Writer is RELIABLE and the configuration says so.
abbrev pub congestion_of : Bool → Bool → CongestionControl
congestion_of true true = block
congestion_of _ _ = drop

-- If the route has been created, add this Writer to its local Writers.
abbrev pub note_writer : Str → RouteStatus → Plugin → Plugin
note_writer key (routed route_key) s = record s {
  routes_from_dds = Map.modify route_key (add_local_routed_writer key) s.routes_from_dds;
}
note_writer key _ s = s

abbrev pub note_reader : Str → RouteStatus → Plugin → Plugin
note_reader key (routed route_key) s = record s {
  routes_to_dds = Map.modify route_key (add_local_routed_reader key) s.routes_to_dds;
}
note_reader key _ s = s

-- What the `select!` of the loop receives: a discovery event, or the token of a zenoh id that has
-- joined the group of the plugins.
pub data LocalEvent : Type 0 where
  discovery : DiscoveryEvent → LocalEvent
  new_member : Str → LocalEvent

-- The qos of the route of one partition.
abbrev pub in_partition : Str → Qos → Qos
in_partition p qos = record qos { partition = some (p ∷ []) }

module _ (x : External) where
  -- One route of a discovered Writer, on the key of a partition or on that of none.
  unfoldable pub route_publication :
      DdsEntity → Qos → CongestionControl → Option Str → Plugin → Option (RouteStatus × Plugin)
  route_publication e qos congestion_ctrl part s = do
    ke ← topic_to_keyexpr x e.topic_name s.config.scope part
    (status, s') ←
        try_add_route_from_dds x s ke e.topic_name e.type_name e.type_info e.keyless qos
          congestion_ctrl
    some (status, note_writer e.key status s')

  -- The loop over the partitions.
  unfoldable pub route_publication_partitions :
      DdsEntity
      → Qos
      → CongestionControl
      → List Str
      → Map RouteStatus
      → Plugin
      → Option (Map RouteStatus × Plugin)
  route_publication_partitions e qos congestion_ctrl [] routes s = some (routes, s)
  route_publication_partitions e qos congestion_ctrl (p ∷ ps) routes s = do
    (status, s') ← route_publication e (in_partition p qos) congestion_ctrl (some p) s
    route_publication_partitions e qos congestion_ctrl ps (Map.insert p status routes) s'

  -- 1 route per partition, or just 1 if no partition
  abbrev pub route_publication_in :
      DdsEntity
      → Qos
      → CongestionControl
      → Bool
      → Option (List Str)
      → Plugin
      → Option (Map RouteStatus × Plugin)
  route_publication_in e qos congestion_ctrl true partition s = do
    (status, s') ← route_publication e qos congestion_ctrl none s
    some (Map.insert (codes "*") status e.routes, s')
  route_publication_in e qos congestion_ctrl false none s = none
  route_publication_in e qos congestion_ctrl false (some ps) s =
      route_publication_partitions e qos congestion_ctrl ps e.routes s

  -- The routes of a discovered Writer.
  unfoldable pub publication_routes : DdsEntity → Plugin → Option (Map RouteStatus × Plugin)
  publication_routes e s =
      route_publication_in e (adapt_writer_qos_for_reader x.cyclors e.qos)
        (congestion_of s.config.reliable_routes_blocking (is_writer_reliable e.qos.reliability))
        (partition_is_empty e.qos.partition) e.qos.partition s

  unfoldable pub on_discovered_publication : DdsEntity → Plugin → Option Plugin
  on_discovered_publication e s = do
    admin_keyexpr ← get_entity_admin_keyexpr x e true
    (routes, s') ← publication_routes e s
    some (insert_dds_writer admin_keyexpr (record e { routes = routes }) s')

  -- The closure of `retain`: the route without the Writer, unless it was the last one.
  abbrev pub release_writer :
      Str
      → Str
      → RouteDdsZenoh
      → Map AdminRef × World
      → Option RouteDdsZenoh × (Map AdminRef × World)
  release_writer key zkey route (admin, w) =
      let route' = remove_local_routed_writer key route in
      if has_local_routed_writer route' then (some route', (admin, w)) else (
        none,
        (Map.remove (x.div ke_prefix_route_from_dds zkey) admin, FromDds.drop_route x route' w),
      )

  unfoldable pub release_from_dds : Str → Plugin → Plugin
  release_from_dds key s =
      let (routes, (admin, w)) =
        Map.retain_with (release_writer key) s.routes_from_dds (s.admin_space, s.world) in
      record s { routes_from_dds = routes; admin_space = admin; world = w }

  unfoldable pub on_undiscovered_publication : Str → Plugin → Option Plugin
  on_undiscovered_publication key s = remove_dds_writer x key s >>= λ (removed, s'). elim removed [
    | none ↦ some s'
    | some _ ↦ some (release_from_dds key s')
  ]

  unfoldable pub route_subscription :
      DdsEntity → Qos → Option Str → Plugin → Option (RouteStatus × Plugin)
  route_subscription e qos part s = do
    ke ← topic_to_keyexpr x e.topic_name s.config.scope part
    (status, s') ←
        try_add_route_to_dds x s ke e.topic_name e.type_name e.type_info e.keyless
          (is_transient_local qos) (some qos)
    some (status, note_reader e.key status s')

  unfoldable pub route_subscription_partitions :
      DdsEntity → Qos → List Str → Map RouteStatus → Plugin → Option (Map RouteStatus × Plugin)
  route_subscription_partitions e qos [] routes s = some (routes, s)
  route_subscription_partitions e qos (p ∷ ps) routes s = do
    (status, s') ← route_subscription e (in_partition p qos) (some p) s
    route_subscription_partitions e qos ps (Map.insert p status routes) s'

  abbrev pub route_subscription_in :
      DdsEntity → Qos → Bool → Option (List Str) → Plugin → Option (Map RouteStatus × Plugin)
  route_subscription_in e qos true partition s = do
    (status, s') ← route_subscription e qos none s
    some (Map.insert (codes "*") status e.routes, s')
  route_subscription_in e qos false none s = none
  route_subscription_in e qos false (some ps) s = route_subscription_partitions e qos ps e.routes s

  -- The routes of a discovered Reader.
  unfoldable pub subscription_routes : DdsEntity → Plugin → Option (Map RouteStatus × Plugin)
  subscription_routes e s =
      route_subscription_in e (adapt_reader_qos_for_writer x.cyclors e.qos)
        (partition_is_empty e.qos.partition) e.qos.partition s

  unfoldable pub on_discovered_subscription : DdsEntity → Plugin → Option Plugin
  on_discovered_subscription e s = do
    admin_keyexpr ← get_entity_admin_keyexpr x e false
    (routes, s') ← subscription_routes e s
    some (insert_dds_reader admin_keyexpr (record e { routes = routes }) s')

  abbrev pub release_reader :
      Str
      → Str
      → RouteZenohDds
      → Map AdminRef × World
      → Option RouteZenohDds × (Map AdminRef × World)
  release_reader key zkey route (admin, w) =
      let route' = remove_local_routed_reader key route in
      if has_local_routed_reader route' then (some route', (admin, w)) else (
        none,
        (Map.remove (x.div ke_prefix_route_to_dds zkey) admin, ToDds.drop_route x route' w),
      )

  unfoldable pub release_to_dds : Str → Plugin → Plugin
  release_to_dds key s =
      let (routes, (admin, w)) =
        Map.retain_with (release_reader key) s.routes_to_dds (s.admin_space, s.world) in
      record s { routes_to_dds = routes; admin_space = admin; world = w }

  unfoldable pub on_undiscovered_subscription : Str → Plugin → Option Plugin
  on_undiscovered_subscription key s = remove_dds_reader x key s >>= λ (removed, s'). elim removed [
    | none ↦ some s'
    | some _ ↦ some (release_to_dds key s')
  ]

  unfoldable pub on_discovered_participant : DdsParticipant → Plugin → Option Plugin
  on_discovered_participant e s = get_participant_admin_keyexpr x e >>= λ admin_keyexpr.
      some (insert_dds_participant admin_keyexpr e s)

  unfoldable pub on_undiscovered_participant : Str → Plugin → Option Plugin
  on_undiscovered_participant key s = remove_dds_participant x key s >>= λ (_, s'). some s'

  -- The `match` on a discovery event.
  unfoldable pub local_step : DiscoveryEvent → Plugin → Option Plugin
  local_step (discovered_publication e) s = on_discovered_publication e s
  local_step (undiscovered_publication key) s = on_undiscovered_publication key s
  local_step (discovered_subscription e) s = on_discovered_subscription e s
  local_step (undiscovered_subscription key) s = on_undiscovered_subscription key s
  local_step (discovered_participant e) s = on_discovered_participant e s
  local_step (undiscovered_participant key) s = on_undiscovered_participant key s

  -- The arrival of another plugin: every route that fetches queries it for its historical data.
  unfoldable pub query_new_member : Str → Map RouteZenohDds → World → World
  query_new_member zenoh_id [] w = w
  query_new_member zenoh_id ((zkey, route) ∷ routes) w =
      query_new_member zenoh_id routes
        (query_historical_publications x (x.div (x.div zkey ke_prefix_pub_cache) zenoh_id) route w)

  unfoldable pub on_new_member : Str → Plugin → Plugin
  on_new_member zid s = elim (x.try_into zid) [
    | some zenoh_id ↦ record s { world = query_new_member zenoh_id s.routes_to_dds s.world }
    | none ↦ s
  ]

  -- One round of the loop. A query of the admin space changes nothing, see `admin_answers`.
  unfoldable pub loop_step : LocalEvent → Plugin → Option Plugin
  loop_step (discovery event) s = local_step event s
  loop_step (new_member zid) s = some (on_new_member zid s)

  unfoldable pub local_run : List LocalEvent → Plugin → Option Plugin
  local_run [] s = some s
  local_run (e ∷ events) s = loop_step e s >>= λ s'. local_run events s'
