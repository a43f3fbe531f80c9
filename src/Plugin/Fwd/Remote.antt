-- ===== src/Plugin/Fwd/Remote.antt =====
-- zenoh-plugin-dds/src/lib.rs, `run_fwd_discovery_mode`: the handlers of forwarded discovery messages
-- about the writers and readers of other plugins.
use zenoh_plugin_dds.Base.{Bool, true, false, ◌&&◌, Option, none, some, List, [], ◌∷◌}
use zenoh_plugin_dds.Base.Tests.{if◌then◌else◌, ◌>>=◌}
use zenoh_plugin_dds.Base.Text.{Str, str_eq, codes}
use zenoh_plugin_dds.Base.Map.{Map}
use zenoh_plugin_dds.Base.Map
use zenoh_plugin_dds.Qos.{
  Qos, partition_is_empty, partition_contains, is_transient_local, is_reader_reliable,
  adapt_writer_qos_for_proxy_writer, adapt_reader_qos_for_proxy_reader,
}
use zenoh_plugin_dds.World.{External, World}
use zenoh_plugin_dds.Entity.{DdsEntity, RouteStatus, routed}
use zenoh_plugin_dds.Keyexpr.{topic_to_keyexpr, ke_prefix_route_from_dds, ke_prefix_route_to_dds}
use zenoh_plugin_dds.Route.FromDds.{
  RouteDdsZenoh, add_remote_routed_reader, remove_remote_routed_reader, has_remote_routed_reader,
  add_local_routed_writer,
}
use zenoh_plugin_dds.Route.FromDds
use zenoh_plugin_dds.Route.ToDds.{
  RouteZenohDds, add_remote_routed_writer, remove_remote_routed_writer, has_remote_routed_writer,
  add_local_routed_reader, has_local_routed_reader, delete_dds_writer,
}
use zenoh_plugin_dds.Route.ToDds
use zenoh_plugin_dds.Plugin.{Plugin, AdminRef, try_add_route_from_dds, try_add_route_to_dds}
use zenoh_plugin_dds.Plugin.Local.{congestion_of, in_partition}

-- The partition under which the routes of an entity are listed: "*" only if no partition
abbrev pub label : Option Str → Str
label none = codes "*"
label (some p) = p

-- Is the local entity in this partition, or in none as the remote one?
abbrev pub in_same_partition : Option Str → DdsEntity → Bool
in_same_partition none local = partition_is_empty local.qos.partition
in_same_partition (some p) local = partition_contains local.qos.partition p

-- Only wrt. topic_name and partition
abbrev pub is_matching : Str → Option Str → DdsEntity → Bool
is_matching topic_name part local =
    str_eq local.topic_name topic_name && in_same_partition part local

-- The loops over the local entities: each matching one is added to the route, and the status of the
-- route to its routes.
module _ {R : Type 0} (add : Str → R → R) (topic_name : Str) (part : Option Str)
    (status : RouteStatus) where
  unfoldable pub add_matching : Map DdsEntity → R → R
  add_matching [] r = r
  add_matching ((k, local) ∷ locals) r =
      add_matching locals (if is_matching topic_name part local then add local.key r else r)

  unfoldable pub note_matching : Map DdsEntity → Map DdsEntity
  note_matching = Map.map_values λ local.
      if is_matching topic_name part local
      then record local { routes = Map.insert (label part) status local.routes }
      else local

module _ (x : External) where
  -- If the route has been created, add the remote Writer and the matching local Readers to it.
  abbrev pub note_remote_writer : Str → Str → Option Str → RouteStatus → Plugin → Plugin
  note_remote_writer full_admin_ke topic_name part (routed route_key) s =
      elim (Map.get route_key s.routes_to_dds) [
        | none ↦ s
        | some r ↦ record s {
          routes_to_dds =
              Map.modify route_key
                (λ r.
                  add_matching add_local_routed_reader topic_name part (routed route_key)
                    s.discovered_readers (add_remote_routed_writer full_admin_ke r))
                s.routes_to_dds;
          discovered_readers =
              note_matching add_local_routed_reader topic_name part (routed route_key)
                s.discovered_readers;
        }
      ]
  note_remote_writer full_admin_ke topic_name part _ s = s

  -- One "to_dds" route of a remote Writer.
  unfoldable pub route_remote_writer :
      Str → DdsEntity → Option Str → Qos → Option Str → Plugin → Option Plugin
  route_remote_writer full_admin_ke e scope qos part s = do
    ke ← topic_to_keyexpr x e.topic_name scope part
    (status, s') ←
        try_add_route_to_dds x s ke e.topic_name e.type_name e.type_info e.keyless
          (is_transient_local qos) (some qos)
    some (note_remote_writer full_admin_ke e.topic_name part status s')

  unfoldable pub route_remote_writer_partitions :
      Str → DdsEntity → Option Str → Qos → List Str → Plugin → Option Plugin
  route_remote_writer_partitions full_admin_ke e scope qos [] s = some s
  route_remote_writer_partitions full_admin_ke e scope qos (p ∷ ps) s =
      route_remote_writer full_admin_ke e scope (in_partition p qos) (some p) s >>= λ s'.
      route_remote_writer_partitions full_admin_ke e scope qos ps s'

  abbrev pub route_remote_writer_in :
      Str → DdsEntity → Option Str → Qos → Bool → Option (List Str) → Plugin → Option Plugin
  route_remote_writer_in full_admin_ke e scope qos true partition s =
      route_remote_writer full_admin_ke e scope qos none s
  route_remote_writer_in full_admin_ke e scope qos false none s = none
  route_remote_writer_in full_admin_ke e scope qos false (some ps) s =
      route_remote_writer_partitions full_admin_ke e scope qos ps s

  -- create 1 "to_dds" route per partition, or just 1 if no partition
  unfoldable pub remote_writer_discovered : Str → DdsEntity → Option Str → Plugin → Option Plugin
  remote_writer_discovered full_admin_ke e scope s =
      route_remote_writer_in full_admin_ke e scope (adapt_writer_qos_for_proxy_writer e.qos)
        (partition_is_empty e.qos.partition) e.qos.partition s

  -- #102: Delete the DDS Writer of this route if there are no more remote Writers, but don't delete
  -- the route itself if there is still a local Reader.
  abbrev pub release_remote_writer :
      Str
      → Str
      → RouteZenohDds
      → Map AdminRef × World
      → Option RouteZenohDds × (Map AdminRef × World)
  release_remote_writer full_admin_ke zkey route (admin, w) =
      let route' = remove_remote_routed_writer full_admin_ke route in
      if has_remote_routed_writer route'
      then (some route', (admin, w))
      else (let (bare, w') = delete_dds_writer x route' w in
          if has_local_routed_reader bare then (some bare, (admin, w')) else (
            none,
            (Map.remove (x.div ke_prefix_route_to_dds zkey) admin, ToDds.drop_route x bare w'),
          ))

  abbrev pub note_remote_reader : Str → Str → Option Str → RouteStatus → Plugin → Plugin
  note_remote_reader full_admin_ke topic_name part (routed route_key) s =
      elim (Map.get route_key s.routes_from_dds) [
        | none ↦ s
        | some r ↦ record s {
          routes_from_dds =
              Map.modify route_key
                (λ r.
                  add_matching add_local_routed_writer topic_name part (routed route_key)
                    s.discovered_writers (add_remote_routed_reader full_admin_ke r))
                s.routes_from_dds;
          discovered_writers =
              note_matching add_local_routed_writer topic_name part (routed route_key)
                s.discovered_writers;
        }
      ]
  note_remote_reader full_admin_ke topic_name part _ s = s

  -- One "from_dds" route of a remote Reader.
  unfoldable pub route_remote_reader :
      Str → DdsEntity → Option Str → Qos → Option Str → Plugin → Option Plugin
  route_remote_reader full_admin_ke e scope qos part s = do
    ke ← topic_to_keyexpr x e.topic_name scope part
    (status, s') ←
        try_add_route_from_dds x s ke e.topic_name e.type_name e.type_info e.keyless qos
          (congestion_of s.config.reliable_routes_blocking (is_reader_reliable e.qos.reliability))
    some (note_remote_reader full_admin_ke e.topic_name part status s')

  unfoldable pub route_remote_reader_partitions :
      Str → DdsEntity → Option Str → Qos → List Str → Plugin → Option Plugin
  route_remote_reader_partitions full_admin_ke e scope qos [] s = some s
  route_remote_reader_partitions full_admin_ke e scope qos (p ∷ ps) s =
      route_remote_reader full_admin_ke e scope (in_partition p qos) (some p) s >>= λ s'.
      route_remote_reader_partitions full_admin_ke e scope qos ps s'

  abbrev pub route_remote_reader_in :
      Str → DdsEntity → Option Str → Qos → Bool → Option (List Str) → Plugin → Option Plugin
  route_remote_reader_in full_admin_ke e scope qos true partition s =
      route_remote_reader full_admin_ke e scope qos none s
  route_remote_reader_in full_admin_ke e scope qos false none s = none
  route_remote_reader_in full_admin_ke e scope qos false (some ps) s =
      route_remote_reader_partitions full_admin_ke e scope qos ps s

  -- create 1 "from_dds" route per partition, or just 1 if no partition
  unfoldable pub remote_reader_discovered : Str → DdsEntity → Option Str → Plugin → Option Plugin
  remote_reader_discovered full_admin_ke e scope s =
      route_remote_reader_in full_admin_ke e scope (adapt_reader_qos_for_proxy_reader e.qos)
        (partition_is_empty e.qos.partition) e.qos.partition s

  -- The closure of `retain`: the route without the remote Reader, unless it was the last one.
  abbrev pub release_remote_reader :
      Str
      → Str
      → RouteDdsZenoh
      → Map AdminRef × World
      → Option RouteDdsZenoh × (Map AdminRef × World)
  release_remote_reader full_admin_ke zkey route (admin, w) =
      let route' = remove_remote_routed_reader full_admin_ke route in
      if has_remote_routed_reader route' then (some route', (admin, w)) else (
        none,
        (Map.remove (x.div ke_prefix_route_from_dds zkey) admin, FromDds.drop_route x route' w),
      )

-- `retain` over the routes from DDS, with a closure that changes the admin space.
unfoldable pub retain_from_dds :
    (Str → RouteDdsZenoh → Map AdminRef × World → Option RouteDdsZenoh × (Map AdminRef × World))
    → Plugin
    → Plugin
retain_from_dds f s =
    let (routes, (admin, w)) = Map.retain_with f s.routes_from_dds (s.admin_space, s.world) in
    record s { routes_from_dds = routes; admin_space = admin; world = w }
