-- ===== src/Plugin/Fwd/Loop.antt =====
-- zenoh-plugin-dds/src/lib.rs, `run_fwd_discovery_mode`: its `select!`, and the loop.
use zenoh_plugin_dds.Base.{Option, none, some, List, [], ◌∷◌}
use zenoh_plugin_dds.Base.Tests.{Result, ok, err, ◌>>=◌}
use zenoh_plugin_dds.Base.Int.{ℤ}
use zenoh_plugin_dds.Base.Text.{Str}
use zenoh_plugin_dds.World.{External, World, Error}
use zenoh_plugin_dds.Config.{Config}
use zenoh_plugin_dds.Dds.Samples.{Taken}
use zenoh_plugin_dds.Entity.{DdsEntity, DiscoveryEvent}
use zenoh_plugin_dds.Keyexpr.{
  ke_prefix_admin_space, ke_prefix_dds, DiscoKind, reader, writer, ros_disco,
  parse_fwd_discovery_keyexpr,
}
use zenoh_plugin_dds.Ros
use zenoh_plugin_dds.Ros.Manager.{RosDiscoveryInfoMgr, create_mgr}
use zenoh_plugin_dds.Plugin.{Plugin, start}
use zenoh_plugin_dds.Plugin.Fwd.{Fwd, Codec, fwd_discovery, retain_to_dds}
use zenoh_plugin_dds.Plugin.Fwd.Remote.{
  remote_writer_discovered, release_remote_writer, remote_reader_discovered, release_remote_reader,
  retain_from_dds,
}
use zenoh_plugin_dds.Plugin.Fwd.Group.{
  on_ros_disco, on_ros_disco_timer, on_member_joined, on_member_left,
}

-- A sample of the Fwd Discovery subscriber: a put with its payload, or a deletion.
pub record Sample : Type 0 where
  pub key_expr : Str
  pub payload : Option Str

-- What the `select!` receives. A query of the admin space changes nothing.
pub data FwdEvent : Type 0 where
  discovery : DiscoveryEvent → FwdEvent
  forwarded : Sample → FwdEvent
  member_joined : Str → FwdEvent
  member_left : Str → FwdEvent
  ros_disco_timer : List Taken → FwdEvent

module _ (x : External) (c : Codec) where
  -- full admin keyexpr for an entity (i.e. with its remote plugin's uuid)
  abbrev pub full_admin_keyexpr : Str → Str → Str
  full_admin_keyexpr remote_uuid remaining_ke =
      x.div (x.div (x.div ke_prefix_admin_space remote_uuid) ke_prefix_dds) remaining_ke

  -- A message that cannot be deserialized is ignored.
  abbrev pub deserialized :
      Option (DdsEntity × Option Str)
      → (DdsEntity → Option Str → Plugin → Option Plugin)
      → Plugin
      → Option Plugin
  deserialized none f s = some s
  deserialized (some (e, scope)) f s = f e scope s

  abbrev pub on_writer_message : Str → Option Str → Plugin → Option Plugin
  on_writer_message full_ke (some payload) s =
      deserialized (c.deserialize payload) (remote_writer_discovered x full_ke) s
  on_writer_message full_ke none s = some (retain_to_dds (release_remote_writer x full_ke) s)

  abbrev pub on_reader_message : Str → Option Str → Plugin → Option Plugin
  on_reader_message full_ke (some payload) s =
      deserialized (c.deserialize payload) (remote_reader_discovered x full_ke) s
  on_reader_message full_ke none s = some (retain_from_dds (release_remote_reader x full_ke) s)

  abbrev pub with_plugin : Fwd → Option Plugin → Option Fwd
  with_plugin f o = o >>= λ s. some (record f { plugin = s })

  abbrev payload_bytes : Option Str → Str
  payload_bytes none = []
  payload_bytes (some payload) = payload

  -- The `match disco_kind`.
  unfoldable pub on_kind : Str → DiscoKind → Str → Option Str → Fwd → Option Fwd
  on_kind uuid writer remaining payload f =
      with_plugin f (on_writer_message (full_admin_keyexpr uuid remaining) payload f.plugin)
  on_kind uuid reader remaining payload f =
      with_plugin f (on_reader_message (full_admin_keyexpr uuid remaining) payload f.plugin)
  on_kind uuid ros_disco remaining payload f = on_ros_disco x c (payload_bytes payload) f

  unfoldable pub on_forwarded : Sample → Fwd → Option Fwd
  on_forwarded sample f = parse_fwd_discovery_keyexpr sample.key_expr >>= λ parsed. elim parsed [
    | none ↦ some f
    | some (uuid, kind, remaining) ↦ on_kind uuid kind remaining sample.payload f
  ]

  unfoldable pub fwd_step : FwdEvent → Fwd → Option Fwd
  fwd_step (discovery event) f = with_plugin f (fwd_discovery x c event f.plugin)
  fwd_step (forwarded sample) f = on_forwarded sample f
  fwd_step (member_joined zid) f = some (on_member_joined x c zid f)
  fwd_step (member_left zid) f = some (on_member_left x c zid f)
  fwd_step (ros_disco_timer taken) f = on_ros_disco_timer x c taken f

  unfoldable pub fwd_run : List FwdEvent → Fwd → Option Fwd
  fwd_run [] f = some f
  fwd_run (e ∷ events) f = fwd_step e f >>= λ f'. fwd_run events f'

  -- The state when the loop is entered: `expect` panics without a manager or without the guid of
  -- the participant. The calls that declare the keys of zenoh come before and return no handle.
  abbrev pub fwd_enter : Plugin → Option (Result Error RosDiscoveryInfoMgr × World) → Option Fwd
  fwd_enter s none = none
  fwd_enter s (some (err e, w)) = none
  fwd_enter s (some (ok mgr, w)) = x.guid w s.dp >>= λ gid. some (record {
    plugin = record s { world = w };
    participant_info = Ros.new gid;
    ros_disco_mgr = mgr;
  })

  unfoldable pub fwd_start : Config → Str → ℤ → World → Option Fwd
  fwd_start config zid dp w =
      let s = start config zid dp w in fwd_enter s (create_mgr c.ros x s.dp s.world)
