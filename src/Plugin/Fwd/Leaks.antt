-- ===== src/Plugin/Fwd/Leaks.antt =====
-- zenoh-plugin-dds/src/lib.rs, `run_fwd_discovery_mode`: no event makes the loop lose a DDS reader or
-- writer.
use zenoh_plugin_dds.Base.{ℕ, suc, Option, none, some, List, [], arith}
use zenoh_plugin_dds.Base.Tests.{Result, ok, err, Ensures, Ensures-bind, Ensures-any, Ensures-mono}
use zenoh_plugin_dds.Base.Int.{ℤ, pos}
use zenoh_plugin_dds.Base.Text.{Str}
use zenoh_plugin_dds.Base.Total.{total}
use zenoh_plugin_dds.Qos.{Qos, is_transient_local, is_reader_reliable}
use zenoh_plugin_dds.World.{External, World, Error}
use zenoh_plugin_dds.Dds.Handles.{created, deleted}
use zenoh_plugin_dds.Config.{Config}
use zenoh_plugin_dds.Entity.{DdsEntity}
use zenoh_plugin_dds.Keyexpr.{topic_to_keyexpr}
use zenoh_plugin_dds.Ros.Manager.{RosDiscoveryInfoMgr}
use zenoh_plugin_dds.Ros.Manager.Handles.{mgr_holds, Hands, create_mgr-Hands}
use zenoh_plugin_dds.Plugin.{
  Plugin, insert_dds_participant, insert_dds_writer, insert_dds_reader, start,
}
use zenoh_plugin_dds.Plugin.Account.{
  IsAccounted, held, try_add_route_from_dds-IsAccounted, try_add_route_to_dds-IsAccounted,
}
use zenoh_plugin_dds.Plugin.Local.{congestion_of}
use zenoh_plugin_dds.Plugin.Local.Account.{note_reader-IsAccounted}
use zenoh_plugin_dds.Plugin.Local.Release.{
  remove_dds_writer-IsAccounted, remove_dds_reader-IsAccounted, remove_dds_participant-IsAccounted,
}
use zenoh_plugin_dds.Plugin.Fwd.{Fwd, Codec, fwd_route_subscription}
use zenoh_plugin_dds.Plugin.Fwd.Remote.{route_remote_writer, route_remote_reader}
use zenoh_plugin_dds.Plugin.Fwd.Loop.{FwdEvent, fwd_run, fwd_start, fwd_enter}
use zenoh_plugin_dds.Plugin.Fwd.Preserves.{SameHandles, Preserves, AnyEntity, any_events}
use zenoh_plugin_dds.Plugin.Fwd.Keeps.{fwd_run-Preserves}
use zenoh_plugin_dds.Plugin.Fwd.Account.{
  note_remote_writer-IsAccounted, note_remote_reader-IsAccounted, retain_to_dds-IsAccounted,
  retain_from_dds-IsAccounted, fwd_release_reader-Balances, release_remote_reader-Balances,
  release_remote_writer-Balances, drop_left-IsAccounted,
}

module _ (x : External) (c : Codec) (n others : ℕ) where
  abbrev h : ℤ
  h = pos (suc n)

  world_after_calls :
      (s : Plugin) (w : World)
      → SameHandles s.world w
      → IsAccounted others h s
      → IsAccounted others h (record s { world = w })
  unfolding held
  world_after_calls s w same acc = record {
    balanced = let (c, d) = same h in omega (arith, acc.balanced, c, d);
    distinct_from = acc.distinct_from;
    distinct_to = acc.distinct_to;
  }

  route_reader_keeps :
      (e : DdsEntity) (part : Option Str) (s : Plugin)
      → IsAccounted others h s
      → Ensures (λ t. IsAccounted others h t.1) (fwd_route_subscription x c e part s)
  unfolding fwd_route_subscription
  route_reader_keeps e part s acc =
      Ensures-bind (λ _. Unit {0}) (λ t. IsAccounted others h t.1)
        (topic_to_keyexpr x e.topic_name s.config.scope part) _ (Ensures-any _)
        λ ke _.
          Ensures-bind (λ t. IsAccounted others h t.1) (λ t. IsAccounted others h t.1) _ _
            (try_add_route_to_dds-IsAccounted n others x ke s acc e.topic_name e.type_name
              e.type_info e.keyless (is_transient_local e.qos) none)
            λ t it. note_reader-IsAccounted x n others e.key t.0 t.1 it

  route_writer_of_keeps :
      (ke : Str) (e : DdsEntity) (scope : Option Str) (qos : Qos) (part : Option Str) (s : Plugin)
      → IsAccounted others h s
      → Ensures (IsAccounted others h) (route_remote_writer x ke e scope qos part s)
  unfolding route_remote_writer
  route_writer_of_keeps ke e scope qos part s acc =
      Ensures-bind (λ _. Unit {0}) (IsAccounted others h)
        (topic_to_keyexpr x e.topic_name scope part) _ (Ensures-any _)
        λ key _.
          Ensures-bind (λ t. IsAccounted others h t.1) (IsAccounted others h) _ _
            (try_add_route_to_dds-IsAccounted n others x key s acc e.topic_name e.type_name
              e.type_info e.keyless (is_transient_local qos) (some qos))
            λ t it. note_remote_writer-IsAccounted x n others ke e.topic_name part t.0 t.1 it

  route_reader_of_keeps :
      (ke : Str) (e : DdsEntity) (scope : Option Str) (qos : Qos) (part : Option Str) (s : Plugin)
      → IsAccounted others h s
      → Ensures (IsAccounted others h) (route_remote_reader x ke e scope qos part s)
  unfolding route_remote_reader
  route_reader_of_keeps ke e scope qos part s acc =
      Ensures-bind (λ _. Unit {0}) (IsAccounted others h)
        (topic_to_keyexpr x e.topic_name scope part) _ (Ensures-any _)
        λ key _.
          Ensures-bind (λ t. IsAccounted others h t.1) (IsAccounted others h) _ _
            (try_add_route_from_dds-IsAccounted n others x key s acc e.topic_name e.type_name
              e.type_info e.keyless qos
              (congestion_of s.config.reliable_routes_blocking
                (is_reader_reliable e.qos.reliability)))
            λ t it. note_remote_reader-IsAccounted x n others ke e.topic_name part t.0 t.1 it

  accounted : Preserves x c AnyEntity (IsAccounted others h)
  unfolding insert_dds_participant insert_dds_writer insert_dds_reader held
  accounted = record {
    ok_routes = λ w e routes ok. tt;
    calls = world_after_calls;
    insert_participant = λ adm e s named acc. record {
      balanced = acc.balanced;
      distinct_from = acc.distinct_from;
      distinct_to = acc.distinct_to;
    };
    insert_writer = λ adm e s named ok acc. record {
      balanced = acc.balanced;
      distinct_from = acc.distinct_from;
      distinct_to = acc.distinct_to;
    };
    insert_reader = λ adm e s named ok acc. record {
      balanced = acc.balanced;
      distinct_from = acc.distinct_from;
      distinct_to = acc.distinct_to;
    };
    remove_participant = remove_dds_participant-IsAccounted x n others;
    remove_writer = remove_dds_writer-IsAccounted x n others;
    remove_reader = remove_dds_reader-IsAccounted x n others;
    route_reader = route_reader_keeps;
    route_writer_of = route_writer_of_keeps;
    route_reader_of = route_reader_of_keeps;
    release_local = λ key s acc.
        retain_to_dds-IsAccounted x n others _ s (fwd_release_reader-Balances x n others c key) acc;
    release_writer = λ ke s acc.
        retain_to_dds-IsAccounted x n others _ s (release_remote_writer-Balances x n others ke) acc;
    release_reader = λ ke s acc.
        retain_from_dds-IsAccounted x n others _ s (release_remote_reader-Balances x n others ke)
          acc;
    leave = λ zid s info acc. drop_left-IsAccounted x n others c zid s info acc;
  }

module _ (x : External) (c : Codec) (n : ℕ) where
  -- When the loop is entered, the manager holds all there is.
  abbrev Entered : Fwd → Type 0
  Entered f = IsAccounted (mgr_holds (pos (suc n)) f.ros_disco_mgr) (pos (suc n)) f.plugin

  fwd_enter-Entered :
      (config : Config) (zid : Str) (dp : ℤ) (m : Option (Result Error RosDiscoveryInfoMgr × World))
      → Hands (pos (suc n)) [] m
      → Ensures Entered (fwd_enter x c (start config zid dp []) m)
  unfolding start held created deleted total
  fwd_enter-Entered config zid dp none hands = tt
  fwd_enter-Entered config zid dp (some (err e, w)) hands = tt
  fwd_enter-Entered config zid dp (some (ok mgr, w)) hands =
      Ensures-bind (λ _. Unit {0}) Entered (x.guid w dp) _ (Ensures-any _)
        λ gid _. record {
          balanced = omega (arith, hands.0, hands.1);
          distinct_from = tt;
          distinct_to = tt;
        }

  -- From the start of the forward discovery mode, for every sequence of events and whatever DDS and
  -- zenoh answer: the creations of a DDS reader or writer with a given positive handle are as many
  -- as the requests to delete it, the routes that hold it and the entities of the manager of
  -- ros_discovery_info with that handle together, in the state after the events, if nothing panics.
  pub fwd_run-IsAccounted :
      (config : Config) (zid : Str) (dp : ℤ) (events : List FwdEvent)
      → Ensures
          (λ f.
            Ensures
              (λ f'. IsAccounted (mgr_holds (pos (suc n)) f.ros_disco_mgr) (pos (suc n)) f'.plugin)
              (fwd_run x c events f))
          (fwd_start x c config zid dp [])
  unfolding fwd_start start
  fwd_run-IsAccounted config zid dp events =
      Ensures-mono Entered _ (fwd_start x c config zid dp [])
        (fwd_enter-Entered config zid dp _ (create_mgr-Hands c.ros x dp (suc n) []))
        λ f entered.
          fwd_run-Preserves x c AnyEntity _
            (accounted x c n (mgr_holds (pos (suc n)) f.ros_disco_mgr)) events f (any_events events)
            entered
