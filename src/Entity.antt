-- ===== src/Entity.antt =====
-- zenoh-plugin-dds/src/dds_mgt.rs: the entities that discovery reports, and its events.
use zenoh_plugin_dds.Base.{Bool, Option}
use zenoh_plugin_dds.Base.Text.{Str}
use zenoh_plugin_dds.Base.Map.{Map}
use zenoh_plugin_dds.Qos.{Qos}
use zenoh_plugin_dds.World.{Error}
use zenoh_plugin_dds.Dds.{TypeInfo}

pub data RouteStatus : Type 0 where
  routed : Str → RouteStatus
  not_allowed : RouteStatus
  creation_failure : Error → RouteStatus
  qos_conflict : RouteStatus

pub record DdsEntity : Type 0 where
  pub key : Str
  pub participant_key : Str
  pub topic_name : Str
  pub type_name : Str
  pub type_info : Option TypeInfo
  pub keyless : Bool
  pub qos : Qos
  pub routes : Map RouteStatus

pub record DdsParticipant : Type 0 where
  pub key : Str
  pub qos : Qos

pub data DiscoveryEvent : Type 0 where
  discovered_publication : DdsEntity → DiscoveryEvent
  undiscovered_publication : Str → DiscoveryEvent
  discovered_subscription : DdsEntity → DiscoveryEvent
  undiscovered_subscription : Str → DiscoveryEvent
  discovered_participant : DdsParticipant → DiscoveryEvent
  undiscovered_participant : Str → DiscoveryEvent
