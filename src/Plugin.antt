-- ===== src/Plugin.antt =====
-- zenoh-plugin-dds/src/lib.rs: `DdsPluginRuntime`, its maps and its admin space, and the creation of
-- routes. A method returns the new state; `none` is a panic. The state holds the record of the
-- calls made to DDS and zenoh.
pub mod Admin
pub mod Local
pub mod Account
pub mod Returns
pub mod Ready
pub mod Remap
pub mod Removals
pub mod Fwd
use zenoh_plugin_dds.Base.{ℕ, Bool, true, false, Option, none, some, List, [], ◌∷◌}
use zenoh_plugin_dds.Base.Tests.{Result, ok, err, if◌then◌else◌, ◌>>=◌}
use zenoh_plugin_dds.Base.Int.{ℤ}
use zenoh_plugin_dds.Base.Text.{Str, codes}
use zenoh_plugin_dds.Base.Map.{Map}
use zenoh_plugin_dds.Base.Map
use zenoh_plugin_dds.Qos.{Qos}
use zenoh_plugin_dds.World.{External, World, Error, CongestionControl}
use zenoh_plugin_dds.Dds.{TypeInfo}
use zenoh_plugin_dds.Entity.{
  DdsEntity, DdsParticipant, RouteStatus, routed, not_allowed, creation_failure,
}
use zenoh_plugin_dds.Config.{Config, is_allowed}
use zenoh_plugin_dds.Keyexpr.{
  ke_prefix_route_from_dds, ke_prefix_route_to_dds, get_participant_admin_keyexpr,
  get_entity_admin_keyexpr,
}
use zenoh_plugin_dds.Route.FromDds.{RouteDdsZenoh}
use zenoh_plugin_dds.Route.FromDds
use zenoh_plugin_dds.Route.ToDds.{RouteZenohDds}
use zenoh_plugin_dds.Route.ToDds

pub data AdminRef : Type 0 where
  dds_participant dds_writer_entity dds_reader_entity from_dds_route to_dds_route : Str → AdminRef
  plugin_config plugin_version : AdminRef

pub record Plugin : Type 0 where
  pub config : Config
  pub zid : Str
  pub dp : ℤ
  pub discovered_participants : Map DdsParticipant
  pub discovered_writers : Map DdsEntity
  pub discovered_readers : Map DdsEntity
  pub routes_from_dds : Map RouteDdsZenoh
  pub routes_to_dds : Map RouteZenohDds
  pub admin_space : Map AdminRef
  pub world : World

-- The state when `DdsPluginRuntime::run` enters one of its two loops.
unfoldable pub start : Config → Str → ℤ → World → Plugin
unfolding Map.insert
start config zid dp world = record {
  config = config;
  zid = zid;
  dp = dp;
  discovered_participants = [];
  discovered_writers = [];
  discovered_readers = [];
  routes_from_dds = [];
  routes_to_dds = [];
  admin_space =
      Map.insert (codes "version") plugin_version (Map.insert (codes "config") plugin_config []);
  world = world;
}

unfoldable pub insert_dds_participant : Str → DdsParticipant → Plugin → Plugin
insert_dds_participant admin_keyexpr e s = record s {
  admin_space = Map.insert admin_keyexpr (dds_participant e.key) s.admin_space;
  discovered_participants = Map.insert e.key e s.discovered_participants;
}

unfoldable pub insert_dds_writer : Str → DdsEntity → Plugin → Plugin
insert_dds_writer admin_keyexpr e s = record s {
  admin_space = Map.insert admin_keyexpr (dds_writer_entity e.key) s.admin_space;
  discovered_writers = Map.insert e.key e s.discovered_writers;
}

unfoldable pub insert_dds_reader : Str → DdsEntity → Plugin → Plugin
insert_dds_reader admin_keyexpr e s = record s {
  admin_space = Map.insert admin_keyexpr (dds_reader_entity e.key) s.admin_space;
  discovered_readers = Map.insert e.key e s.discovered_readers;
}

module _ (x : External) where
  -- The removals return the admin key and the entity, if the key was known.
  unfoldable pub remove_dds_participant :
      Str → Plugin → Option (Option (Str × DdsParticipant) × Plugin)
  remove_dds_participant dds_key s = elim (Map.get dds_key s.discovered_participants) [
    | none ↦ some (none, s)
    | some e ↦ get_participant_admin_keyexpr x e >>= λ admin_keyexpr. some (
      some (admin_keyexpr, e),
      record s {
        discovered_participants = Map.remove dds_key s.discovered_participants;
        admin_space = Map.remove admin_keyexpr s.admin_space;
      },
    )
  ]

  unfoldable pub remove_dds_writer : Str → Plugin → Option (Option (Str × DdsEntity) × Plugin)
  remove_dds_writer dds_key s = elim (Map.get dds_key s.discovered_writers) [
    | none ↦ some (none, s)
    | some e ↦ get_entity_admin_keyexpr x e true >>= λ admin_keyexpr. some (
      some (admin_keyexpr, e),
      record s {
        discovered_writers = Map.remove dds_key s.discovered_writers;
        admin_space = Map.remove admin_keyexpr s.admin_space;
      },
    )
  ]

  unfoldable pub remove_dds_reader : Str → Plugin → Option (Option (Str × DdsEntity) × Plugin)
  remove_dds_reader dds_key s = elim (Map.get dds_key s.discovered_readers) [
    | none ↦ some (none, s)
    | some e ↦ get_entity_admin_keyexpr x e false >>= λ admin_keyexpr. some (
      some (admin_keyexpr, e),
      record s {
        discovered_readers = Map.remove dds_key s.discovered_readers;
        admin_space = Map.remove admin_keyexpr s.admin_space;
      },
    )
  ]

  unfoldable pub insert_route_from_dds : Str → RouteDdsZenoh → Plugin → Plugin
  insert_route_from_dds ke r s = record s {
    admin_space = Map.insert (x.div ke_prefix_route_from_dds ke) (from_dds_route ke) s.admin_space;
    routes_from_dds = Map.insert ke r s.routes_from_dds;
  }

  unfoldable pub insert_route_to_dds : Str → RouteZenohDds → Plugin → Plugin
  insert_route_to_dds ke r s = record s {
    admin_space = Map.insert (x.div ke_prefix_route_to_dds ke) (to_dds_route ke) s.admin_space;
    routes_to_dds = Map.insert ke r s.routes_to_dds;
  }

  -- The `match` on the result of `RouteDDSZenoh::new`.
  abbrev pub from_dds_created :
      Str → Plugin → Option (Result Error RouteDdsZenoh × World) → Option (RouteStatus × Plugin)
  from_dds_created ke s none = none
  from_dds_created ke s (some (ok route, w)) =
      some (routed ke, insert_route_from_dds ke route (record s { world = w }))
  from_dds_created ke s (some (err e, w)) = some (creation_failure e, record s { world = w })

  unfoldable pub try_add_route_from_dds :
      Plugin
      → Str
      → Str
      → Str
      → Option TypeInfo
      → Bool
      → Qos
      → CongestionControl
      → Option (RouteStatus × Plugin)
  try_add_route_from_dds s ke topic_name topic_type type_info keyless reader_qos congestion_ctrl =
      if is_allowed x s.config ke
      then (elim (Map.get ke s.routes_from_dds) [
        | some _ ↦ some (routed ke, s)
        | none ↦ from_dds_created ke s (
            FromDds.new x s.dp s.zid s.config topic_name topic_type type_info keyless reader_qos ke
              congestion_ctrl s.world)
      ])
      else some (not_allowed, s)

  -- The route exists: set a DDS Writer, if the caller gives its QoS and the route has none.
  abbrev pub to_dds_existing :
      Str → Plugin → Option (Result Error RouteZenohDds × World) → Option (RouteStatus × Plugin)
  to_dds_existing ke s none = none
  to_dds_existing ke s (some (ok route, w)) = some (
    routed ke,
    record s { routes_to_dds = Map.modify ke (λ _. route) s.routes_to_dds; world = w },
  )
  to_dds_existing ke s (some (err e, w)) = some (creation_failure e, record s { world = w })

  -- The route is new. One that gets no Writer is dropped with the error.
  abbrev pub to_dds_with_writer :
      Str
      → Plugin
      → RouteZenohDds
      → Option (Result Error RouteZenohDds × World)
      → Option (RouteStatus × Plugin)
  to_dds_with_writer ke s bare none = none
  to_dds_with_writer ke s bare (some (ok route, w)) =
      some (routed ke, insert_route_to_dds ke route (record s { world = w }))
  to_dds_with_writer ke s bare (some (err e, w)) =
      some (creation_failure e, record s { world = ToDds.drop_route x bare w })

  -- `set_dds_writer`, if the caller gives a QoS.
  abbrev pub set_writer_if :
      Plugin
      → RouteZenohDds
      → Option TypeInfo
      → Option Qos
      → World
      → Option (Result Error RouteZenohDds × World)
  set_writer_if s route type_info none w = some (ok route, w)
  set_writer_if s route type_info (some qos) w = ToDds.set_dds_writer x s.dp route type_info qos w

  abbrev pub to_dds_created :
      Str
      → Plugin
      → Option TypeInfo
      → Option Qos
      → Option (Result Error RouteZenohDds × World)
      → Option (RouteStatus × Plugin)
  to_dds_created ke s type_info writer_qos none = none
  to_dds_created ke s type_info writer_qos (some (ok route, w)) =
      to_dds_with_writer ke s route (set_writer_if s route type_info writer_qos w)
  to_dds_created ke s type_info writer_qos (some (err e, w)) =
      some (creation_failure e, record s { world = w })

  unfoldable pub try_add_route_to_dds :
      Plugin
      → Str
      → Str
      → Str
      → Option TypeInfo
      → Bool
      → Bool
      → Option Qos
      → Option (RouteStatus × Plugin)
  try_add_route_to_dds s ke topic_name topic_type type_info keyless is_transient writer_qos =
      if is_allowed x s.config ke
      then (elim (Map.get ke s.routes_to_dds) [
        | some route ↦ to_dds_existing ke s (set_writer_if s route type_info writer_qos s.world)
        | none ↦
            to_dds_created ke s type_info writer_qos
              (ToDds.new x ke is_transient topic_name topic_type keyless s.world)
      ])
      else some (not_allowed, s)
