-- ===== src/Dds/Discovery/Reports.antt =====
-- zenoh-plugin-dds/src/dds_mgt.rs, `on_data`: which samples are reported, and as what.
use zenoh_plugin_dds.Base.{
  ℕ, ◌≡◌, refl, ap, ◌∙◌, Bool, true, false, not, ◌&&◌, ◌||◌, Option, none, some, List, [], ◌∷◌,
  ◌++◌, inl, inr,
}
use zenoh_plugin_dds.Base.Tests.{if◌then◌else◌, ◌==◌, Bool-cases}
use zenoh_plugin_dds.Base.Text.{Str, codes, starts_with}
use zenoh_plugin_dds.Qos.{Qos}
use zenoh_plugin_dds.Entity.{
  DdsEntity, DiscoveryEvent, discovered_publication, undiscovered_publication,
  discovered_subscription, undiscovered_subscription, discovered_participant,
  undiscovered_participant,
}
use zenoh_plugin_dds.Dds.Discovery.{
  EndpointType, publication, subscription, EndpointSample, endpoint_event, on_endpoints, entity_of,
  discovered, undiscovered, typed_event, alive_event,
}

-- The samples that are reported: of other participants, and alive only with valid names, of a topic
-- that is not builtin.
abbrev is_some : Option Str → Bool
is_some none = false
is_some (some name) = true

abbrev has_names : Option Str → Option Str → Bool
has_names none type_name = false
has_names (some topic_name) type_name =
    not (starts_with topic_name (codes "DCPS")) && is_some type_name

abbrev pub is_reported : ℕ → EndpointSample → Bool
is_reported dpih sample =
    not (sample.participant_instance_handle == dpih)
    && (not sample.is_alive || has_names sample.topic_name sample.type_name)

abbrev text_of : Option Str → Str
text_of none = []
text_of (some name) = name

-- What is known of an endpoint that is there: its participant, topic, type and QoS; `none` if it is gone.
abbrev pub Known : Type 0
Known = Option (Str × Str × Str × Qos)

abbrev known_of : (Str → Str) → EndpointSample → Known
known_of hex sample =
    if sample.is_alive
    then some (
      hex sample.participant_key,
      text_of sample.topic_name,
      text_of sample.type_name,
      sample.qos,
    )
    else none

-- Their keys, in order, each with what is known of the endpoint.
abbrev pub reported_keys : (Str → Str) → ℕ → List EndpointSample → List (Str × Known)
reported_keys hex dpih [] = []
reported_keys hex dpih (sample ∷ samples) =
    (if is_reported dpih sample then (hex sample.key, known_of hex sample) ∷ [] else [])
    ++ reported_keys hex dpih samples

abbrev known_entity : DdsEntity → Known
known_entity e = some (e.participant_key, e.topic_name, e.type_name, e.qos)

abbrev event_key : DiscoveryEvent → Str × Known
event_key (discovered_publication e) = (e.key, known_entity e)
event_key (undiscovered_publication key) = (key, none)
event_key (discovered_subscription e) = (e.key, known_entity e)
event_key (undiscovered_subscription key) = (key, none)
event_key (discovered_participant e) = (e.key, none)
event_key (undiscovered_participant key) = (key, none)

abbrev pub event_keys : List DiscoveryEvent → List (Str × Known)
event_keys [] = []
event_keys (event ∷ events) = event_key event ∷ event_keys events

-- What holds of a reported event: a discovered endpoint has no routes yet, and no builtin topic.
abbrev IsFresh : DdsEntity → Type 0
IsFresh e = (e.routes ≡ []) × (starts_with e.topic_name (codes "DCPS") ≡ false)

abbrev IsEventOf : EndpointType → DiscoveryEvent → Type 0
IsEventOf publication (discovered_publication e) = IsFresh e
IsEventOf publication (undiscovered_publication key) = Unit
IsEventOf subscription (discovered_subscription e) = IsFresh e
IsEventOf subscription (undiscovered_subscription key) = Unit
IsEventOf _ _ = ⊥

abbrev pub AreEventsOf : EndpointType → List DiscoveryEvent → Type 0
AreEventsOf kind [] = Unit
AreEventsOf kind (event ∷ events) = IsEventOf kind event × AreEventsOf kind events

append-AreEventsOf :
    (kind : EndpointType) (us vs : List DiscoveryEvent)
    → AreEventsOf kind us
    → AreEventsOf kind vs
    → AreEventsOf kind (us ++ vs)
append-AreEventsOf kind [] vs p q = q
append-AreEventsOf kind (u ∷ us) vs (p, ps) q = (p, append-AreEventsOf kind us vs ps q)

event_keys-append :
    (us vs : List DiscoveryEvent) → event_keys (us ++ vs) ≡ event_keys us ++ event_keys vs
event_keys-append [] vs = refl
event_keys-append (u ∷ us) vs = ap (λ ks. event_key u ∷ ks) (event_keys-append us vs)

module _ (hex : Str → Str) (dpih : ℕ) (kind : EndpointType) where
  -- The events for one sample, with what is to be reported.
  abbrev Right : EndpointSample → Known → Bool → List DiscoveryEvent → Type 0
  Right sample known reported events =
      (event_keys events ≡ (if reported then (hex sample.key, known) ∷ [] else []))
      × AreEventsOf kind events

  typed_event-Right :
      (sample : EndpointSample) (topic_name : Str) (type_name : Option Str)
      → starts_with topic_name (codes "DCPS") ≡ false
      → Right sample
          (some (hex sample.participant_key, topic_name, text_of type_name, sample.qos))
          (is_some type_name)
          (typed_event hex kind sample topic_name type_name)
  unfolding entity_of
  typed_event-Right sample topic_name none user = (refl, tt)
  typed_event-Right sample topic_name (some type_name) user = found kind
    where
      found :
          (kind : EndpointType)
          → (event_keys (discovered hex kind (entity_of hex sample topic_name type_name) ∷ [])
              ≡ (
                hex sample.key,
                some (hex sample.participant_key, topic_name, type_name, sample.qos),
              )
                ∷ [])
            × AreEventsOf kind
                (discovered hex kind (entity_of hex sample topic_name type_name) ∷ [])
      found publication = (refl, ((refl, user), tt))
      found subscription = (refl, ((refl, user), tt))

  alive_event-Right :
      (sample : EndpointSample) (topic_name : Option Str)
      → Right sample
          (some
            (hex sample.participant_key, text_of topic_name, text_of sample.type_name, sample.qos))
          (has_names topic_name sample.type_name)
          (alive_event hex kind sample topic_name)
  alive_event-Right sample none = (refl, tt)
  alive_event-Right sample (some topic_name) =
      elim (Bool-cases (starts_with topic_name (codes "DCPS"))) [
        | inl builtin ↦ rw builtin (refl, tt)
        | inr user ↦ rw user (typed_event-Right sample topic_name sample.type_name user)
      ]

  gone-Right :
      (kind : EndpointType) (key : Str)
      → (event_keys (undiscovered hex kind key ∷ []) ≡ (key, none) ∷ [])
        × AreEventsOf kind (undiscovered hex kind key ∷ [])
  gone-Right publication key = (refl, (tt, tt))
  gone-Right subscription key = (refl, (tt, tt))

  endpoint_event-Right :
      (sample : EndpointSample)
      → Right sample
          (known_of hex sample)
          (is_reported dpih sample)
          (endpoint_event hex dpih kind sample)
  unfolding endpoint_event entity_of
  endpoint_event-Right sample = elim (Bool-cases (sample.participant_instance_handle == dpih)) [
    | inl own ↦ rw own (refl, tt)
    | inr other ↦ elim (Bool-cases sample.is_alive) [
      | inl alive ↦ rw (other, alive) (alive_event-Right sample sample.topic_name)
      | inr gone ↦ rw (other, gone) (gone-Right kind (hex sample.key))
    ]
  ]

  -- Of the samples of a builtin topic, those of other participants are reported by their key, once
  -- each and in order: as gone if the endpoint is, else as discovered, with its participant, topic,
  -- type and QoS and with no routes, if both names are valid and the topic is not builtin. Nothing
  -- else is reported, and no event is of another kind.
  pub on_endpoints-reported_keys :
      (samples : List EndpointSample)
      → (event_keys (on_endpoints hex dpih kind samples) ≡ reported_keys hex dpih samples)
        × AreEventsOf kind (on_endpoints hex dpih kind samples)
  unfolding on_endpoints
  on_endpoints-reported_keys [] = (refl, tt)
  on_endpoints-reported_keys (sample ∷ samples) =
      let (keys, kinds) = endpoint_event-Right sample in
      let (rest, others) = on_endpoints-reported_keys samples in
      (
        event_keys-append (endpoint_event hex dpih kind sample) (on_endpoints hex dpih kind samples)
            ∙ cc,
        append-AreEventsOf kind (endpoint_event hex dpih kind sample)
            (on_endpoints hex dpih kind samples) kinds others,
      )
