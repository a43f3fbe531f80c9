-- ===== src/Plugin/Fwd/Reached.antt =====
-- zenoh-plugin-dds/src/lib.rs, `run_fwd_discovery_mode`: in every state that the loop reaches, each route
-- serves an entity.
use zenoh_plugin_dds.Base.{Option, none, some, List, inl, inr}
use zenoh_plugin_dds.Base.Tests.{
  Result, ok, err, Bool-cases, Ensures, Ensures-bind, Ensures-any, Ensures-mono,
}
use zenoh_plugin_dds.Base.Int.{ℤ}
use zenoh_plugin_dds.Base.Text.{Str}
use zenoh_plugin_dds.Base.Map.{Map}
use zenoh_plugin_dds.Base.All.{All-retain_with}
use zenoh_plugin_dds.Qos.{Qos, is_transient_local, is_reader_reliable}
use zenoh_plugin_dds.World.{External, World, Error}
use zenoh_plugin_dds.Config.{Config}
use zenoh_plugin_dds.Entity.{DdsEntity}
use zenoh_plugin_dds.Keyexpr.{topic_to_keyexpr}
use zenoh_plugin_dds.Route.FromDds.{
  RouteDdsZenoh, has_remote_routed_reader, remove_remote_routed_reader,
  remove_remote_routed_readers_containing,
}
use zenoh_plugin_dds.Ros.Manager.{RosDiscoveryInfoMgr}
use zenoh_plugin_dds.Plugin.{
  Plugin, AdminRef, insert_dds_participant, insert_dds_writer, insert_dds_reader, start,
}
use zenoh_plugin_dds.Plugin.Local.{congestion_of}
use zenoh_plugin_dds.Plugin.Fwd.{Fwd, Codec, fwd_route_subscription, retain_to_dds}
use zenoh_plugin_dds.Plugin.Fwd.Remote.{
  route_remote_writer, route_remote_reader, release_remote_reader, retain_from_dds,
}
use zenoh_plugin_dds.Plugin.Fwd.Group.{Leaving, drop_left, leave_from_dds, admin_subke}
use zenoh_plugin_dds.Plugin.Fwd.Loop.{FwdEvent, fwd_run, fwd_start, fwd_enter}
use zenoh_plugin_dds.Plugin.Fwd.Preserves.{Preserves, AnyEntity, any_events}
use zenoh_plugin_dds.Plugin.Fwd.Keeps.{fwd_run-Preserves}
use zenoh_plugin_dds.Plugin.Fwd.Writers.{
  IsUsed, NeverNull, fwd_release_reader-IsUsed, release_remote_writer-IsUsed, leave_to_dds-IsUsed,
}
use zenoh_plugin_dds.Plugin.Fwd.Used.{
  AreUsed, ServesReader, AfterTo, AfterFrom, try_add_route_to_dds-AfterTo,
  try_add_route_from_dds-AfterFrom,
}
use zenoh_plugin_dds.Plugin.Fwd.Serving.{
  note_reader-AreUsed, note_remote_writer-AreUsed, note_remote_reader-AreUsed,
  remove_dds_participant-AreUsed, remove_dds_writer-AreUsed, remove_dds_reader-AreUsed,
}

module _ (x : External) (c : Codec) (nonzero : NeverNull x) where
  route_reader_keeps :
      (e : DdsEntity) (part : Option Str) (s : Plugin)
      → AreUsed s
      → Ensures (λ t. AreUsed t.1) (fwd_route_subscription x c e part s)
  unfolding fwd_route_subscription
  route_reader_keeps e part s i =
      Ensures-bind (λ _. Unit {0}) (λ t. AreUsed t.1)
        (topic_to_keyexpr x e.topic_name s.config.scope part) _ (Ensures-any _)
        λ ke _.
          Ensures-bind (AfterTo ke none) (λ t. AreUsed t.1) _ _
            (try_add_route_to_dds-AfterTo x nonzero ke s i e.topic_name e.type_name e.type_info
              e.keyless (is_transient_local e.qos) none)
            λ t it. note_reader-AreUsed ke e.key t.0 t.1 it

  route_writer_of_keeps :
      (full : Str) (e : DdsEntity) (scope : Option Str) (qos : Qos) (part : Option Str) (s : Plugin)
      → AreUsed s
      → Ensures AreUsed (route_remote_writer x full e scope qos part s)
  unfolding route_remote_writer
  route_writer_of_keeps full e scope qos part s i =
      Ensures-bind (λ _. Unit {0}) AreUsed (topic_to_keyexpr x e.topic_name scope part) _
        (Ensures-any _)
        λ ke _.
          Ensures-bind (AfterTo ke (some qos)) AreUsed _ _
            (try_add_route_to_dds-AfterTo x nonzero ke s i e.topic_name e.type_name e.type_info
              e.keyless (is_transient_local qos) (some qos))
            λ t it. note_remote_writer-AreUsed x ke full e.topic_name part qos t.0 t.1 it

  route_reader_of_keeps :
      (full : Str) (e : DdsEntity) (scope : Option Str) (qos : Qos) (part : Option Str) (s : Plugin)
      → AreUsed s
      → Ensures AreUsed (route_remote_reader x full e scope qos part s)
  unfolding route_remote_reader
  route_reader_of_keeps full e scope qos part s i =
      Ensures-bind (λ _. Unit {0}) AreUsed (topic_to_keyexpr x e.topic_name scope part) _
        (Ensures-any _)
        λ ke _.
          Ensures-bind (AfterFrom ke) AreUsed _ _
            (try_add_route_from_dds-AfterFrom x nonzero ke s i e.topic_name e.type_name e.type_info
              e.keyless qos
              (congestion_of s.config.reliable_routes_blocking
                (is_reader_reliable e.qos.reliability)))
            λ t it. note_remote_reader-AreUsed x ke full e.topic_name part t.0 t.1 it

  release_reader_serves :
      (ke k : Str) (r : RouteDdsZenoh) (t : Map AdminRef × World)
      → ServesReader r
      → Ensures ServesReader (release_remote_reader x ke k r t).0
  release_reader_serves ke k r t i =
      let r' = remove_remote_routed_reader ke r in
      elim (Bool-cases (has_remote_routed_reader r')) [ inl y ↦ rw y y | inr f ↦ rw f tt ]

  leave_from_serves :
      (zid k : Str) (r : RouteDdsZenoh) (t : Leaving)
      → ServesReader r
      → Ensures ServesReader (leave_from_dds x c zid k r t).0
  leave_from_serves zid k r t i =
      let r' = remove_remote_routed_readers_containing (admin_subke x c zid) r in
      elim (Bool-cases (has_remote_routed_reader r')) [ inl y ↦ rw y y | inr f ↦ rw f tt ]

  used : Preserves x c AnyEntity AreUsed
  unfolding insert_dds_participant insert_dds_writer insert_dds_reader retain_to_dds retain_from_dds
      drop_left
  used = record {
    ok_routes = λ w e routes ok. tt;
    calls = λ s w same i. record { to_dds = i.to_dds; from_dds = i.from_dds };
    insert_participant = λ adm e s named i. record { to_dds = i.to_dds; from_dds = i.from_dds };
    insert_writer = λ adm e s named ok i. record { to_dds = i.to_dds; from_dds = i.from_dds };
    insert_reader = λ adm e s named ok i. record { to_dds = i.to_dds; from_dds = i.from_dds };
    remove_participant = remove_dds_participant-AreUsed x;
    remove_writer = remove_dds_writer-AreUsed x;
    remove_reader = remove_dds_reader-AreUsed x;
    route_reader = route_reader_keeps;
    route_writer_of = route_writer_of_keeps;
    route_reader_of = route_reader_of_keeps;
    release_local = λ key s i. record {
      to_dds =
          All-retain_with IsUsed IsUsed _ s.routes_to_dds _ (fwd_release_reader-IsUsed x c key)
            i.to_dds;
      from_dds = i.from_dds;
    };
    release_writer = λ ke s i. record {
      to_dds =
          All-retain_with IsUsed IsUsed _ s.routes_to_dds _ (release_remote_writer-IsUsed x c ke)
            i.to_dds;
      from_dds = i.from_dds;
    };
    release_reader = λ ke s i. record {
      to_dds = i.to_dds;
      from_dds =
          All-retain_with ServesReader ServesReader _ s.routes_from_dds _ (release_reader_serves ke)
            i.from_dds;
    };
    leave = λ zid s info i. record {
      to_dds =
          All-retain_with IsUsed IsUsed _ s.routes_to_dds _ (leave_to_dds-IsUsed x c zid) i.to_dds;
      from_dds =
          All-retain_with ServesReader ServesReader _ s.routes_from_dds _ (leave_from_serves zid)
            i.from_dds;
    };
  }

  fwd_enter-AreUsed :
      (config : Config) (zid : Str) (dp : ℤ) (w : World)
      (m : Option (Result Error RosDiscoveryInfoMgr × World))
      → Ensures (λ f. AreUsed f.plugin) (fwd_enter x c (start config zid dp w) m)
  unfolding start
  fwd_enter-AreUsed config zid dp w none = tt
  fwd_enter-AreUsed config zid dp w (some (err e, w')) = tt
  fwd_enter-AreUsed config zid dp w (some (ok mgr, w')) =
      Ensures-bind {B = Fwd} (λ _. Unit {0}) (λ f. AreUsed f.plugin) (x.guid w' dp) _
        (Ensures-any _) λ gid _. record { to_dds = tt; from_dds = tt }

  -- In every state that the forward mode reaches from the start of the plugin, each route from DDS
  -- serves a remote Reader; each route to DDS serves a local Reader or a remote Writer, and it has a
  -- DDS Writer just when it serves a remote Writer. DDS is assumed to give no writer the handle 0.
  pub fwd_run-AreUsed :
      (config : Config) (zid : Str) (dp : ℤ) (w : World) (events : List FwdEvent)
      → Ensures
          (λ f. Ensures (λ f'. AreUsed f'.plugin) (fwd_run x c events f))
          (fwd_start x c config zid dp w)
  unfolding fwd_start
  fwd_run-AreUsed config zid dp w events =
      Ensures-mono (λ f. AreUsed f.plugin) _ (fwd_start x c config zid dp w)
        (fwd_enter-AreUsed config zid dp w _)
        λ f entered.
          fwd_run-Preserves x c AnyEntity AreUsed used events f (any_events events) entered
