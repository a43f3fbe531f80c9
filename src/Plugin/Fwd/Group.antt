-- ===== src/Plugin/Fwd/Group.antt =====
-- zenoh-plugin-dds/src/lib.rs, `run_fwd_discovery_mode`: the handlers of ros_discovery_info, and of the
-- plugins that join and leave.
use zenoh_plugin_dds.Base.{ℕ, suc, ◌+◌, Bool, true, false, Option, none, some, List, [], ◌∷◌, ◌++◌}
use zenoh_plugin_dds.Base.Tests.{if◌then◌else◌, length, ◌>>=◌}
use zenoh_plugin_dds.Base.Text.{Str, codes}
use zenoh_plugin_dds.Base.Map.{Map}
use zenoh_plugin_dds.Base.Map
use zenoh_plugin_dds.World.{External, World, run_and_log, put, fetch}
use zenoh_plugin_dds.Dds.Samples.{Taken}
use zenoh_plugin_dds.Keyexpr.{
  fwd_key_prefix, ke_prefix_route_from_dds, ke_prefix_route_to_dds, ke_any_1_segment,
  ke_any_n_segment,
}
use zenoh_plugin_dds.Route.FromDds.{
  RouteDdsZenoh, remove_remote_routed_readers_containing, has_remote_routed_reader,
}
use zenoh_plugin_dds.Route.FromDds
use zenoh_plugin_dds.Route.ToDds.{
  RouteZenohDds, remove_remote_routed_writers_containing, has_remote_routed_writer,
}
use zenoh_plugin_dds.Route.ToDds
use zenoh_plugin_dds.Ros.{
  NodeEntitiesInfo, ParticipantEntitiesInfo, update_with, cleanup, remove_reader_gid,
  remove_writer_gid,
}
use zenoh_plugin_dds.Ros.Info.{deserialize_info, read}
use zenoh_plugin_dds.Ros.Manager.{write}
use zenoh_plugin_dds.Plugin.{Plugin, AdminRef}
use zenoh_plugin_dds.Plugin.Local.{query_new_member}
use zenoh_plugin_dds.Plugin.Remap.{remap_entities_info}
use zenoh_plugin_dds.Plugin.Fwd.{Fwd, Codec, after_call}

-- The gids of all nodes: one round more is enough for each loop of `remap_entities_info`.
unfoldable pub gid_count : Map NodeEntitiesInfo → ℕ
gid_count [] = 0
gid_count ((key, node) ∷ nodes) =
    (length node.reader_gid_seq + length node.writer_gid_seq) + gid_count nodes

-- What the closures of `retain` change when a plugin leaves: the admin space, the calls made, the
-- participant's information, and whether that has changed.
abbrev pub Leaving : Type 0
Leaving = Map AdminRef × (World × (ParticipantEntitiesInfo × Bool))

abbrev forget_writer : Option Str → ParticipantEntitiesInfo × Bool → ParticipantEntitiesInfo × Bool
forget_writer none t = t
forget_writer (some guid) (info, changed) = (remove_writer_gid guid info, true)

abbrev forget_reader : Option Str → ParticipantEntitiesInfo × Bool → ParticipantEntitiesInfo × Bool
forget_reader none t = t
forget_reader (some guid) (info, changed) = (remove_reader_gid guid info, true)

module _ (x : External) (c : Codec) where
  unfoldable pub write_info : ParticipantEntitiesInfo → Fwd → Fwd
  write_info info f = record f {
    participant_info = info;
    plugin = record f.plugin {
      world = run_and_log (write c.ros x f.ros_disco_mgr info) f.plugin.world;
    };
  }

  -- A forwarded ros_discovery_info, remapped and written on DDS.
  unfoldable pub on_ros_disco : Str → Fwd → Option Fwd
  on_ros_disco payload f = elim (deserialize_info c.ros payload) [
    | none ↦ some f
    | some info ↦
        remap_entities_info x f.plugin (suc (gid_count info.node_entities_info_seq))
          info.node_entities_info_seq
        >>= λ nodes. some (write_info (update_with nodes f.participant_info) f)
  ]

  -- The loop over the samples that were read, by their gids.
  unfoldable pub forward_infos : Map Str → Plugin → Plugin
  forward_infos [] s = s
  forward_infos ((gid, buf) ∷ infos) s = forward_infos infos (
      after_call x c
        (put (x.div (x.div (fwd_key_prefix x s.zid s.config.scope) (codes "ros_disco")) gid) none
          buf)
        s)

  unfoldable pub on_ros_disco_timer : List Taken → Fwd → Option Fwd
  on_ros_disco_timer taken f =
      read c.ros taken [] >>= λ infos. some (record f { plugin = forward_infos infos f.plugin })

  -- The arrival of a plugin: its past messages and publications are fetched.
  unfoldable pub on_member_joined : Str → Fwd → Fwd
  on_member_joined zid f = elim (x.try_into zid) [
    | none ↦ f
    | some zenoh_id ↦
        let key = x.div (fwd_key_prefix x zenoh_id f.plugin.config.scope) ke_any_n_segment in
        let asked =
          after_call x c
            (fetch
              (x.div (fwd_key_prefix x ke_any_1_segment f.plugin.config.scope) ke_any_n_segment)
              key)
            f.plugin in
        record f {
          plugin = record asked {
            world = query_new_member x zenoh_id asked.routes_to_dds asked.world;
          };
        }
  ]

  -- `@/{zid}/dds/`
  abbrev pub admin_subke : Str → Str
  admin_subke zid = codes "@/" ++ (zid ++ codes "/dds/")

  abbrev pub leave_to_dds : Str → Str → RouteZenohDds → Leaving → Option RouteZenohDds × Leaving
  leave_to_dds zid zkey route (admin, (w, info)) =
      let route' = remove_remote_routed_writers_containing (admin_subke zid) route in
      if has_remote_routed_writer route' then (some route', (admin, (w, info))) else (
        none,
        (
          Map.remove (x.div ke_prefix_route_to_dds zkey) admin,
          (ToDds.drop_route x route' w, forget_writer (x.guid w route'.dds_writer) info),
        ),
      )

  abbrev pub leave_from_dds : Str → Str → RouteDdsZenoh → Leaving → Option RouteDdsZenoh × Leaving
  leave_from_dds zid zkey route (admin, (w, info)) =
      let route' = remove_remote_routed_readers_containing (admin_subke zid) route in
      if has_remote_routed_reader route' then (some route', (admin, (w, info))) else (
        none,
        (
          Map.remove (x.div ke_prefix_route_from_dds zkey) admin,
          (FromDds.drop_route x route' w, forget_reader (x.guid w route'.dds_reader) info),
        ),
      )

  -- The routes that no longer serve a remote entity are dropped.
  unfoldable pub drop_left :
      Str → Plugin → ParticipantEntitiesInfo → Plugin × (ParticipantEntitiesInfo × Bool)
  drop_left zid s info =
      let (to, mid) =
        Map.retain_with (leave_to_dds zid) s.routes_to_dds
          (s.admin_space, (s.world, (info, false))) in
      let (from, (admin, (w, changed))) =
        Map.retain_with (leave_from_dds zid) s.routes_from_dds mid in
      (
        record s { routes_to_dds = to; routes_from_dds = from; admin_space = admin; world = w },
        changed,
      )

  unfoldable pub on_member_left : Str → Fwd → Fwd
  on_member_left zid f =
      let (s, (info, changed)) = drop_left zid f.plugin f.participant_info in
      let f' = record f { plugin = s; participant_info = info } in
      if changed then write_info (cleanup info) f' else f'
