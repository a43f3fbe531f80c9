-- ===== src/Dds/Discovery.antt =====
-- zenoh-plugin-dds/src/dds_mgt.rs, `on_data`: the listener of the builtin topics, which tells the plugin what
-- DDS discovers. The samples are those that `dds_take` hands out, at most 32.
pub mod Reports
use zenoh_plugin_dds.Base.{
  ℕ, zero, suc, Bool, true, false, ◌||◌, Option, none, some, List, [], ◌∷◌, ◌++◌,
}
use zenoh_plugin_dds.Base.Tests.{if◌then◌else◌, ◌==◌}
use zenoh_plugin_dds.Base.Text.{Str, codes, str_eq, starts_with}
use zenoh_plugin_dds.Qos.{Qos}
use zenoh_plugin_dds.Dds.{TypeInfo}
use zenoh_plugin_dds.Entity.{
  DdsEntity, DdsParticipant, DiscoveryEvent, discovered_publication, undiscovered_publication,
  discovered_subscription, undiscovered_subscription, discovered_participant,
  undiscovered_participant,
}

-- `DiscoveryType::Publication` and `Subscription`; that of participants has samples of its own.
pub data EndpointType : Type 0 where
  publication subscription : EndpointType

-- `dds_builtintopic_endpoint_t`, and whether its instance is alive. A name is `none` if it is not
-- UTF-8; `type_info` is the return code of the lookup with the pointer that it sets, if any.
pub record EndpointSample : Type 0 where
  pub is_alive : Bool
  pub key : Str
  pub participant_key : Str
  pub participant_instance_handle : ℕ
  pub topic_name : Option Str
  pub type_name : Option Str
  pub type_info_ret : ℕ
  pub type_info : Option TypeInfo
  pub qos : Qos

pub record ParticipantSample : Type 0 where
  pub is_alive : Bool
  pub key : Str
  pub qos : Qos

-- Byte `n` of a key; a key has 16.
unfoldable pub byte_at : ℕ → Str → ℕ
byte_at n [] = 0
byte_at zero (b ∷ key) = b
byte_at (suc n) (b ∷ key) = byte_at n key

unfoldable pub is_keyless : Str → Bool
unfolding byte_at
is_keyless key = (byte_at 15 key == 3) || (byte_at 15 key == 4)

unfoldable pub found_type_info : ℕ → Option TypeInfo → Option TypeInfo
found_type_info ret type_info = if ret == 0 then type_info else none

-- `hex` is `hex::encode`.
module _ (hex : Str → Str) where
  unfoldable pub entity_of : EndpointSample → Str → Str → DdsEntity
  entity_of sample topic_name type_name = record {
    key = hex sample.key;
    participant_key = hex sample.participant_key;
    topic_name = topic_name;
    type_name = type_name;
    type_info = found_type_info sample.type_info_ret sample.type_info;
    keyless = is_keyless sample.key;
    qos = sample.qos;
    routes = [];
  }

  abbrev pub discovered : EndpointType → DdsEntity → DiscoveryEvent
  discovered publication entity = discovered_publication entity
  discovered subscription entity = discovered_subscription entity

  abbrev pub undiscovered : EndpointType → Str → DiscoveryEvent
  undiscovered publication key = undiscovered_publication key
  undiscovered subscription key = undiscovered_subscription key

  abbrev pub typed_event : EndpointType → EndpointSample → Str → Option Str → List DiscoveryEvent
  typed_event kind sample topic_name none = []
  typed_event kind sample topic_name (some type_name) =
      discovered kind (entity_of sample topic_name type_name) ∷ []

  abbrev pub alive_event : EndpointType → EndpointSample → Option Str → List DiscoveryEvent
  alive_event kind sample none = []
  alive_event kind sample (some topic_name) =
      if starts_with topic_name (codes "DCPS")
      then []
      else typed_event kind sample topic_name sample.type_name

  -- The event for one endpoint, if it is not one of our own participant.
  unfoldable pub endpoint_event : ℕ → EndpointType → EndpointSample → List DiscoveryEvent
  endpoint_event dpih kind sample =
      if sample.participant_instance_handle == dpih
      then []
      else (if sample.is_alive
          then alive_event kind sample sample.topic_name
          else undiscovered kind (hex sample.key) ∷ [])

  unfoldable pub participant_event : Str → ParticipantSample → List DiscoveryEvent
  participant_event guid sample =
      if str_eq (hex sample.key) (hex guid)
      then []
      else (if sample.is_alive
          then discovered_participant (record { key = hex sample.key; qos = sample.qos }) ∷ []
          else undiscovered_participant (hex sample.key) ∷ [])

  -- The loops over the samples that were taken: the events that are sent, in order.
  unfoldable pub on_endpoints : ℕ → EndpointType → List EndpointSample → List DiscoveryEvent
  on_endpoints dpih kind [] = []
  on_endpoints dpih kind (sample ∷ samples) =
      endpoint_event dpih kind sample ++ on_endpoints dpih kind samples

  unfoldable pub on_participants : Str → List ParticipantSample → List DiscoveryEvent
  on_participants guid [] = []
  on_participants guid (sample ∷ samples) =
      participant_event guid sample ++ on_participants guid samples
