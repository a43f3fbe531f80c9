-- ===== src/Plugin/Fwd/Served.antt =====
-- zenoh-plugin-dds/src/lib.rs, `run_fwd_discovery_mode`: a query of the admin space finds what each entry
-- points to, in every state that the forward mode reaches.
use zenoh_plugin_dds.Base.{◌≡◌, refl, Bool, false, Option, none, some, List, []}
use zenoh_plugin_dds.Base.Tests.{Result, ok, err, Ensures, Ensures-bind, Ensures-any, Ensures-mono}
use zenoh_plugin_dds.Base.Int.{ℤ}
use zenoh_plugin_dds.Base.Text.{Str}
use zenoh_plugin_dds.Base.Map.{Map}
use zenoh_plugin_dds.Base.Map
use zenoh_plugin_dds.Qos.{Qos, is_transient_local, is_reader_reliable}
use zenoh_plugin_dds.World.{External, World, Error}
use zenoh_plugin_dds.Config.{Config}
use zenoh_plugin_dds.Entity.{DdsEntity}
use zenoh_plugin_dds.Keyexpr.{topic_to_keyexpr}
use zenoh_plugin_dds.Ros.{ParticipantEntitiesInfo}
use zenoh_plugin_dds.Ros.Manager.{RosDiscoveryInfoMgr}
use zenoh_plugin_dds.Plugin.{Plugin, start}
use zenoh_plugin_dds.Plugin.Admin.{admin_answers}
use zenoh_plugin_dds.Plugin.Admin.Registered.{Points-get_admin_value}
use zenoh_plugin_dds.Plugin.Admin.Entries.{
  IsServed, IsPlaced, insert_dds_participant-IsServed, insert_dds_writer-IsServed,
  insert_dds_reader-IsServed,
}
use zenoh_plugin_dds.Plugin.Admin.Removals.{
  remove_dds_participant-IsServed, remove_dds_writer-IsServed, remove_dds_reader-IsServed,
}
use zenoh_plugin_dds.Plugin.Admin.Routes.{
  retained_from_dds-IsServed, retained_to_dds-IsServed, retained_to_dds,
}
use zenoh_plugin_dds.Plugin.Admin.Served.{
  with_world-IsServed, try_add_route_from_dds-IsServed, try_add_route_to_dds-IsServed,
  note_reader-IsServed,
}
use zenoh_plugin_dds.Plugin.Admin.Reached.{dangling_refs, admin_answers_found, start-IsServed}
use zenoh_plugin_dds.Plugin.Local.{congestion_of}
use zenoh_plugin_dds.Plugin.Fwd.{
  Fwd, Codec, fwd_route_subscription, fwd_release_reader, retain_to_dds,
}
use zenoh_plugin_dds.Plugin.Fwd.Remote.{
  route_remote_writer, route_remote_reader, release_remote_writer, release_remote_reader,
  retain_from_dds,
}
use zenoh_plugin_dds.Plugin.Fwd.Group.{Leaving, drop_left, leave_to_dds, leave_from_dds}
use zenoh_plugin_dds.Plugin.Fwd.Loop.{FwdEvent, fwd_run, fwd_start, fwd_enter}
use zenoh_plugin_dds.Plugin.Fwd.Preserves.{Preserves, EventsOk}
use zenoh_plugin_dds.Plugin.Fwd.Keeps.{fwd_run-Preserves}
use zenoh_plugin_dds.Plugin.Fwd.Noted.{note_remote_writer-IsServed, note_remote_reader-IsServed}
use zenoh_plugin_dds.Plugin.Fwd.Closes.{
  fwd_release_reader-Closes, release_remote_writer-Closes, release_remote_reader-Closes,
  leave_to_dds-Closes, leave_from_dds-Closes,
}

module _ (x : External) (c : Codec) (place : Bool → Str → Str × Str) where
  route_reader_keeps :
      (e : DdsEntity) (part : Option Str) (s : Plugin)
      → IsServed x place s
      → Ensures (λ t. IsServed x place t.1) (fwd_route_subscription x c e part s)
  unfolding fwd_route_subscription
  route_reader_keeps e part s i =
      Ensures-bind (λ _. Unit {0}) (λ t. IsServed x place t.1)
        (topic_to_keyexpr x e.topic_name s.config.scope part) _ (Ensures-any _)
        λ ke _.
          Ensures-bind (λ t. IsServed x place t.1) (λ t. IsServed x place t.1) _ _
            (try_add_route_to_dds-IsServed x place ke s i e.topic_name e.type_name e.type_info
              e.keyless (is_transient_local e.qos) none)
            λ t it. note_reader-IsServed x place e.key t.0 t.1 it

  route_writer_of_keeps :
      (ke : Str) (e : DdsEntity) (scope : Option Str) (qos : Qos) (part : Option Str) (s : Plugin)
      → IsServed x place s
      → Ensures (IsServed x place) (route_remote_writer x ke e scope qos part s)
  unfolding route_remote_writer
  route_writer_of_keeps ke e scope qos part s i =
      Ensures-bind (λ _. Unit {0}) (IsServed x place) (topic_to_keyexpr x e.topic_name scope part) _
        (Ensures-any _)
        λ key _.
          Ensures-bind (λ t. IsServed x place t.1) (IsServed x place) _ _
            (try_add_route_to_dds-IsServed x place key s i e.topic_name e.type_name e.type_info
              e.keyless (is_transient_local qos) (some qos))
            λ t it. note_remote_writer-IsServed x place ke e.topic_name part t.0 t.1 it

  route_reader_of_keeps :
      (ke : Str) (e : DdsEntity) (scope : Option Str) (qos : Qos) (part : Option Str) (s : Plugin)
      → IsServed x place s
      → Ensures (IsServed x place) (route_remote_reader x ke e scope qos part s)
  unfolding route_remote_reader
  route_reader_of_keeps ke e scope qos part s i =
      Ensures-bind (λ _. Unit {0}) (IsServed x place) (topic_to_keyexpr x e.topic_name scope part) _
        (Ensures-any _)
        λ key _.
          Ensures-bind (λ t. IsServed x place t.1) (IsServed x place) _ _
            (try_add_route_from_dds-IsServed x place key s i e.topic_name e.type_name e.type_info
              e.keyless qos
              (congestion_of s.config.reliable_routes_blocking
                (is_reader_reliable e.qos.reliability)))
            λ t it. note_remote_reader-IsServed x place ke e.topic_name part t.0 t.1 it

  leave_keeps :
      (zid : Str) (s : Plugin) (info : ParticipantEntitiesInfo)
      → IsServed x place s
      → IsServed x place (drop_left x c zid s info).0
  unfolding drop_left
  leave_keeps zid s info i =
      let start : Leaving = (s.admin_space, (s.world, (info, false))) in
      let mid : Leaving = (Map.retain_with (leave_to_dds x c zid) s.routes_to_dds start).1 in
      retained_from_dds-IsServed x place (λ t. t.0) (leave_from_dds x c zid)
        (retained_to_dds (λ t. t.0) (leave_to_dds x c zid) s start s.world) mid _
        (leave_from_dds-Closes x c zid) refl
        (retained_to_dds-IsServed x place (λ t. t.0) (leave_to_dds x c zid) s start s.world
          (leave_to_dds-Closes x c zid) refl i)

  abbrev Placed : Bool → DdsEntity → Type 0
  Placed w e = IsPlaced x place w e.key e

  served : Preserves x c Placed (IsServed x place)
  unfolding retain_to_dds retain_from_dds
  served = record {
    ok_routes = λ w e routes ok. ok;
    calls = λ s w same i. with_world-IsServed x place [] s i w;
    insert_participant = insert_dds_participant-IsServed x place;
    insert_writer = insert_dds_writer-IsServed x place;
    insert_reader = insert_dds_reader-IsServed x place;
    remove_participant = remove_dds_participant-IsServed x place;
    remove_writer = remove_dds_writer-IsServed x place;
    remove_reader = remove_dds_reader-IsServed x place;
    route_reader = route_reader_keeps;
    route_writer_of = route_writer_of_keeps;
    route_reader_of = route_reader_of_keeps;
    release_local = λ key s i.
        retained_to_dds-IsServed x place (λ t. t.0) (fwd_release_reader x c key) s
          (s.admin_space, s.world) _ (fwd_release_reader-Closes x c key) refl i;
    release_writer = λ ke s i.
        retained_to_dds-IsServed x place (λ t. t.0) (release_remote_writer x ke) s
          (s.admin_space, s.world) _ (release_remote_writer-Closes x c ke) refl i;
    release_reader = λ ke s i.
        retained_from_dds-IsServed x place (λ t. t.0) (release_remote_reader x ke) s
          (s.admin_space, s.world) _ (release_remote_reader-Closes x c ke) refl i;
    leave = leave_keeps;
  }

  -- When the loop is entered, the admin space has its two first entries.
  fwd_enter-IsServed :
      (config : Config) (zid : Str) (dp : ℤ) (w : World)
      (m : Option (Result Error RosDiscoveryInfoMgr × World))
      → Ensures (λ f. IsServed x place f.plugin) (fwd_enter x c (start config zid dp w) m)
  unfolding start
  fwd_enter-IsServed config zid dp w none = tt
  fwd_enter-IsServed config zid dp w (some (err e, w')) = tt
  fwd_enter-IsServed config zid dp w (some (ok mgr, w')) =
      Ensures-bind {B = Fwd} (λ _. Unit {0}) (λ f. IsServed x place f.plugin) (x.guid w' dp) _
        (Ensures-any _)
        λ gid _. with_world-IsServed x place [] _ (start-IsServed x place config zid dp w) w'

  -- In every state that the forward mode reaches from the start of the plugin, a query of the admin
  -- space meets no dangling entry: each answer is a value. A key of DDS stands for one endpoint
  -- only, of one participant and topic.
  pub fwd_run-admin_answers :
      (config : Config) (zid : Str) (dp : ℤ) (w : World) (events : List FwdEvent)
      → EventsOk (λ is_writer e. IsPlaced x place is_writer e.key e) events
      → (intersects : Str → Str → Bool) (kes : List Str)
      → Ensures
          (λ f.
            Ensures
              (λ f'. dangling_refs (admin_answers intersects f'.plugin kes) ≡ [])
              (fwd_run x c events f))
          (fwd_start x c config zid dp w)
  unfolding fwd_start
  fwd_run-admin_answers config zid dp w events placed intersects kes =
      Ensures-mono (λ f. IsServed x place f.plugin) _ (fwd_start x c config zid dp w)
        (fwd_enter-IsServed config zid dp w _)
        λ f entered.
          Ensures-mono (λ f'. IsServed x place f'.plugin) _ (fwd_run x c events f)
            (fwd_run-Preserves x c Placed (IsServed x place) served events f placed entered)
            λ f' i.
              admin_answers_found intersects f'.plugin kes i.distinct
                λ a ref h. Points-get_admin_value x place f'.plugin a ref (i.registered a ref h)
