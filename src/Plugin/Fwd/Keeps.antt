-- ===== src/Plugin/Fwd/Keeps.antt =====
-- zenoh-plugin-dds/src/lib.rs, `run_fwd_discovery_mode`: a property that each change of the plugin's state
-- keeps, through the messages of other plugins and the loop.
use zenoh_plugin_dds.Base.{
  Bool, true, false, Option, none, some, List, [], ◌∷◌, inl, inr, arith, suc,
}
use zenoh_plugin_dds.Base.Tests.{Bool-cases, Option-cases, Ensures, Ensures-bind, Ensures-any}
use zenoh_plugin_dds.Base.Text.{Str}
use zenoh_plugin_dds.Base.Map.{Map}
use zenoh_plugin_dds.Qos.{Qos}
use zenoh_plugin_dds.World.{External, World, run_and_log, perform, fetch}
use zenoh_plugin_dds.Dds.Handles.{created, deleted}
use zenoh_plugin_dds.Entity.{DdsEntity}
use zenoh_plugin_dds.Keyexpr.{
  DiscoKind, reader, writer, ros_disco, parse_fwd_discovery_keyexpr, fwd_key_prefix,
  ke_any_1_segment, ke_any_n_segment,
}
use zenoh_plugin_dds.Ros.{ParticipantEntitiesInfo, cleanup, update_with}
use zenoh_plugin_dds.Ros.Info.{deserialize_info, read}
use zenoh_plugin_dds.Ros.Manager.{RosDiscoveryInfoMgr, write}
use zenoh_plugin_dds.Plugin.{Plugin}
use zenoh_plugin_dds.Plugin.Local.{in_partition}
use zenoh_plugin_dds.Plugin.Local.Quiet.{query_new_member-quiet}
use zenoh_plugin_dds.Plugin.Remap.{remap_entities_info}
use zenoh_plugin_dds.Plugin.Fwd.{Fwd, Codec, after_call, fwd_discovery}
use zenoh_plugin_dds.Plugin.Fwd.Remote.{
  route_remote_writer, route_remote_writer_partitions, route_remote_writer_in,
  remote_writer_discovered, route_remote_reader, route_remote_reader_partitions,
  route_remote_reader_in, remote_reader_discovered,
}
use zenoh_plugin_dds.Plugin.Fwd.Group.{
  write_info, on_ros_disco, forward_infos, on_ros_disco_timer, on_member_joined, drop_left,
  on_member_left, gid_count,
}
use zenoh_plugin_dds.Plugin.Fwd.Loop.{
  FwdEvent, discovery, forwarded, member_joined, member_left, ros_disco_timer, deserialized,
  on_writer_message, on_reader_message, on_kind, on_forwarded, fwd_step, fwd_run,
}
use zenoh_plugin_dds.Plugin.Fwd.Preserves.{
  SameHandles, Preserves, EventsOk, fwd_discovery_keeps, after_put, after_fetch,
}

write-SameHandles :
    (x : External) (c : Codec) (mgr : RosDiscoveryInfoMgr) (info : ParticipantEntitiesInfo)
    (w : World)
    → SameHandles w (run_and_log (write c.ros x mgr info) w)
unfolding write run_and_log perform created deleted
write-SameHandles x c mgr info w h = ground arith

module _ (x : External) (c : Codec) (Ok : Bool → DdsEntity → Type 0) (I : Plugin → Type 0)
    (laws : Preserves x c Ok I) where
  writer_partitions_keep :
      (ke : Str) (e : DdsEntity) (scope : Option Str) (qos : Qos) (ps : List Str) (s : Plugin)
      → I s
      → Ensures I (route_remote_writer_partitions x ke e scope qos ps s)
  unfolding route_remote_writer_partitions
  writer_partitions_keep ke e scope qos [] s i = i
  writer_partitions_keep ke e scope qos (p ∷ ps) s i =
      Ensures-bind I I (route_remote_writer x ke e scope (in_partition p qos) (some p) s) _
        (laws.route_writer_of ke e scope (in_partition p qos) (some p) s i)
        λ t it. writer_partitions_keep ke e scope qos ps t it

  writer_in_keeps :
      (ke : Str) (e : DdsEntity) (scope : Option Str) (qos : Qos) (b : Bool)
      (partition : Option (List Str)) (s : Plugin)
      → I s
      → Ensures I (route_remote_writer_in x ke e scope qos b partition s)
  writer_in_keeps ke e scope qos true partition s i = laws.route_writer_of ke e scope qos none s i
  writer_in_keeps ke e scope qos false none s i = tt
  writer_in_keeps ke e scope qos false (some ps) s i = writer_partitions_keep ke e scope qos ps s i

  reader_partitions_keep :
      (ke : Str) (e : DdsEntity) (scope : Option Str) (qos : Qos) (ps : List Str) (s : Plugin)
      → I s
      → Ensures I (route_remote_reader_partitions x ke e scope qos ps s)
  unfolding route_remote_reader_partitions
  reader_partitions_keep ke e scope qos [] s i = i
  reader_partitions_keep ke e scope qos (p ∷ ps) s i =
      Ensures-bind I I (route_remote_reader x ke e scope (in_partition p qos) (some p) s) _
        (laws.route_reader_of ke e scope (in_partition p qos) (some p) s i)
        λ t it. reader_partitions_keep ke e scope qos ps t it

  reader_in_keeps :
      (ke : Str) (e : DdsEntity) (scope : Option Str) (qos : Qos) (b : Bool)
      (partition : Option (List Str)) (s : Plugin)
      → I s
      → Ensures I (route_remote_reader_in x ke e scope qos b partition s)
  reader_in_keeps ke e scope qos true partition s i = laws.route_reader_of ke e scope qos none s i
  reader_in_keeps ke e scope qos false none s i = tt
  reader_in_keeps ke e scope qos false (some ps) s i = reader_partitions_keep ke e scope qos ps s i

  deserialized_keeps :
      (o : Option (DdsEntity × Option Str)) (f : DdsEntity → Option Str → Plugin → Option Plugin)
      (s : Plugin)
      → ((e : DdsEntity) (scope : Option Str) → Ensures I (f e scope s))
      → I s
      → Ensures I (deserialized x c o f s)
  deserialized_keeps none f s k i = i
  deserialized_keeps (some (e, scope)) f s k i = k e scope

  writer_message_keeps :
      (ke : Str) (payload : Option Str) (s : Plugin)
      → I s
      → Ensures I (on_writer_message x c ke payload s)
  unfolding remote_writer_discovered
  writer_message_keeps ke (some payload) s i =
      deserialized_keeps (c.deserialize payload) _ s
        (λ e scope. writer_in_keeps ke e scope _ _ e.qos.partition s i) i
  writer_message_keeps ke none s i = laws.release_writer ke s i

  reader_message_keeps :
      (ke : Str) (payload : Option Str) (s : Plugin)
      → I s
      → Ensures I (on_reader_message x c ke payload s)
  unfolding remote_reader_discovered
  reader_message_keeps ke (some payload) s i =
      deserialized_keeps (c.deserialize payload) _ s
        (λ e scope. reader_in_keeps ke e scope _ _ e.qos.partition s i) i
  reader_message_keeps ke none s i = laws.release_reader ke s i

  abbrev Keeps : Fwd → Type 0
  Keeps f = I f.plugin

  write_info-Keeps :
      (info : ParticipantEntitiesInfo) (f : Fwd) → Keeps f → Keeps (write_info x c info f)
  unfolding write_info
  write_info-Keeps info f i =
      laws.calls f.plugin _ (write-SameHandles x c f.ros_disco_mgr info f.plugin.world) i

  ros_disco-Keeps : (payload : Str) (f : Fwd) → Keeps f → Ensures Keeps (on_ros_disco x c payload f)
  unfolding on_ros_disco
  ros_disco-Keeps payload f i = elim (Option-cases (deserialize_info c.ros payload)) [
    | inl e ↦ rw (e, on_ros_disco) i
    | inr (info, e) ↦
        rw (e, on_ros_disco)
          (Ensures-bind (λ _. Unit {0}) Keeps
            (remap_entities_info x f.plugin (suc (gid_count info.node_entities_info_seq))
              info.node_entities_info_seq)
            _ (Ensures-any _)
            λ nodes _. write_info-Keeps (update_with nodes f.participant_info) f i)
  ]

  forward_infos_keep : (infos : Map Str) (s : Plugin) → I s → I (forward_infos x c infos s)
  unfolding forward_infos
  forward_infos_keep [] s i = i
  forward_infos_keep ((gid, buf) ∷ infos) s i =
      forward_infos_keep infos _ (after_put x c Ok I laws _ buf none s i)

  kind-Keeps :
      (uuid : Str) (kind : DiscoKind) (remaining : Str) (payload : Option Str) (f : Fwd)
      → Keeps f
      → Ensures Keeps (on_kind x c uuid kind remaining payload f)
  unfolding on_kind
  kind-Keeps uuid writer remaining payload f i =
      Ensures-bind I Keeps (on_writer_message x c _ payload f.plugin) _
        (writer_message_keeps _ payload f.plugin i) λ s is. is
  kind-Keeps uuid reader remaining payload f i =
      Ensures-bind I Keeps (on_reader_message x c _ payload f.plugin) _
        (reader_message_keeps _ payload f.plugin i) λ s is. is
  kind-Keeps uuid ros_disco remaining payload f i = ros_disco-Keeps _ f i

  parsed-Keeps :
      (parsed : Option (Str × DiscoKind × Str)) (payload : Option Str) (f : Fwd)
      → Keeps f
      → Ensures Keeps (elim parsed [
        | none ↦ some f
        | some (uuid, kind, remaining) ↦ on_kind x c uuid kind remaining payload f
      ])
  parsed-Keeps none payload f i = i
  parsed-Keeps (some (uuid, kind, remaining)) payload f i =
      kind-Keeps uuid kind remaining payload f i

  member_joined-Keeps : (zid : Str) (f : Fwd) → Keeps f → Keeps (on_member_joined x c zid f)
  unfolding on_member_joined
  member_joined-Keeps zid f i = elim (Option-cases (x.try_into zid)) [
    | inl e ↦ rw (e, on_member_joined) i
    | inr (id, e) ↦
        rw (e, on_member_joined)
          (laws.calls
            (after_call x c
              (fetch
                (x.div (fwd_key_prefix x ke_any_1_segment f.plugin.config.scope) ke_any_n_segment)
                (x.div (fwd_key_prefix x id f.plugin.config.scope) ke_any_n_segment))
              f.plugin)
            _ (λ h. query_new_member-quiet x h id _ _) (after_fetch x c Ok I laws _ _ f.plugin i))
  ]

  member_left-Keeps : (zid : Str) (f : Fwd) → Keeps f → Keeps (on_member_left x c zid f)
  unfolding on_member_left
  member_left-Keeps zid f i =
      let left = drop_left x c zid f.plugin f.participant_info in
      let kept = laws.leave zid f.plugin f.participant_info i in
      elim (Bool-cases left.1.1) [
        | inl t ↦ rw t (
            write_info-Keeps (cleanup left.1.0)
              (record f { plugin = left.0; participant_info = left.1.0 }) kept)
        | inr n ↦ rw n kept
      ]

  -- One round of the loop.
  pub fwd_step-Preserves :
      (e : FwdEvent) (events : List FwdEvent) (f : Fwd)
      → EventsOk Ok (e ∷ events)
      → I f.plugin
      → Ensures (λ f. I f.plugin) (fwd_step x c e f)
  unfolding fwd_step on_forwarded on_ros_disco_timer
  fwd_step-Preserves (discovery event) events f ok i =
      Ensures-bind I Keeps (fwd_discovery x c event f.plugin) _
        (fwd_discovery_keeps x c Ok I laws event f.plugin ok.0 i) λ s is. is
  fwd_step-Preserves (forwarded sample) events f ok i =
      Ensures-bind (λ _. Unit {0}) Keeps (parse_fwd_discovery_keyexpr sample.key_expr) _
        (Ensures-any _) λ parsed _. parsed-Keeps parsed sample.payload f i
  fwd_step-Preserves (member_joined zid) events f ok i = member_joined-Keeps zid f i
  fwd_step-Preserves (member_left zid) events f ok i = member_left-Keeps zid f i
  fwd_step-Preserves (ros_disco_timer taken) events f ok i =
      Ensures-bind (λ _. Unit {0}) Keeps (read c.ros taken []) _ (Ensures-any _)
        λ infos _. forward_infos_keep infos f.plugin i

  ok_after : (e : FwdEvent) (events : List FwdEvent) → EventsOk Ok (e ∷ events) → EventsOk Ok events
  ok_after (discovery event) events ok = ok.1
  ok_after (forwarded sample) events ok = ok
  ok_after (member_joined zid) events ok = ok
  ok_after (member_left zid) events ok = ok
  ok_after (ros_disco_timer taken) events ok = ok

  pub fwd_run-Preserves :
      (events : List FwdEvent) (f : Fwd)
      → EventsOk Ok events
      → I f.plugin
      → Ensures (λ f. I f.plugin) (fwd_run x c events f)
  unfolding fwd_run
  fwd_run-Preserves [] f ok i = i
  fwd_run-Preserves (e ∷ events) f ok i =
      Ensures-bind Keeps Keeps (fwd_step x c e f) _ (fwd_step-Preserves e events f ok i)
        λ t it. fwd_run-Preserves events t (ok_after e events ok) it
