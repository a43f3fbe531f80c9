-- ===== src/Plugin/Fwd/Preserves.antt =====
-- zenoh-plugin-dds/src/lib.rs, `run_fwd_discovery_mode`: what each change of the plugin's state keeps, the
-- loop keeps.
use zenoh_plugin_dds.Base.{◌≡◌, Bool, true, false, Option, none, some, List, [], ◌∷◌, arith}
use zenoh_plugin_dds.Base.Tests.{Ensures, Ensures-bind, Ensures-bind_eq}
use zenoh_plugin_dds.Base.Int.{ℤ}
use zenoh_plugin_dds.Base.Text.{Str}
use zenoh_plugin_dds.Base.Map.{Map}
use zenoh_plugin_dds.Base.Map
use zenoh_plugin_dds.Qos.{Qos, partition_is_empty}
use zenoh_plugin_dds.World.{
  External, World, CongestionControl, put, delete, fetch, run_and_log, perform,
}
use zenoh_plugin_dds.Dds.Handles.{created, deleted}
use zenoh_plugin_dds.Entity.{
  DdsEntity, DdsParticipant, RouteStatus, DiscoveryEvent, discovered_publication,
  undiscovered_publication, discovered_subscription, undiscovered_subscription,
  discovered_participant, undiscovered_participant,
}
use zenoh_plugin_dds.Keyexpr.{get_entity_admin_keyexpr, get_participant_admin_keyexpr}
use zenoh_plugin_dds.Ros.{ParticipantEntitiesInfo}
use zenoh_plugin_dds.Plugin.{
  Plugin, insert_dds_participant, insert_dds_writer, insert_dds_reader, remove_dds_participant,
  remove_dds_writer, remove_dds_reader,
}
use zenoh_plugin_dds.Plugin.Local.{on_discovered_participant, on_undiscovered_participant}
use zenoh_plugin_dds.Plugin.Fwd.{
  Codec, after_call, advertise_writer, advertise_reader, advertise_removal,
  fwd_discovered_publication, fwd_undiscovered_publication, fwd_route_subscription,
  fwd_route_subscription_partitions, fwd_subscription_routes, fwd_discovered_subscription,
  fwd_release_reader, retain_to_dds, fwd_undiscovered_subscription, fwd_discovery,
}
use zenoh_plugin_dds.Plugin.Fwd.Remote.{
  route_remote_writer, release_remote_writer, route_remote_reader, release_remote_reader,
  retain_from_dds,
}
use zenoh_plugin_dds.Plugin.Fwd.Group.{drop_left}
use zenoh_plugin_dds.Plugin.Fwd.Loop.{
  FwdEvent, discovery, forwarded, member_joined, member_left, ros_disco_timer,
}

-- The calls in between have created and deleted no reader or writer.
abbrev pub SameHandles : World → World → Type 0
SameHandles w w' = (h : ℤ) → (created h w' ≡ created h w) × (deleted h w' ≡ deleted h w)

-- A property `I` of the plugin's state that each of its changes keeps, for entities with `Ok`.
pub record Preserves (x : External) (c : Codec) (Ok : Bool → DdsEntity → Type 0)
    (I : Plugin → Type 0) : Type 0 where
  pub ok_routes :
      (w : Bool) (e : DdsEntity) (routes : Map RouteStatus)
      → Ok w e
      → Ok w (record e { routes = routes })
  pub calls : (s : Plugin) (w : World) → SameHandles s.world w → I s → I (record s { world = w })
  pub insert_participant :
      (adm : Str) (e : DdsParticipant) (s : Plugin)
      → get_participant_admin_keyexpr x e ≡ some adm
      → I s
      → I (insert_dds_participant adm e s)
  pub insert_writer :
      (adm : Str) (e : DdsEntity) (s : Plugin)
      → get_entity_admin_keyexpr x e true ≡ some adm
      → Ok true e
      → I s
      → I (insert_dds_writer adm e s)
  pub insert_reader :
      (adm : Str) (e : DdsEntity) (s : Plugin)
      → get_entity_admin_keyexpr x e false ≡ some adm
      → Ok false e
      → I s
      → I (insert_dds_reader adm e s)
  pub remove_participant :
      (key : Str) (s : Plugin) → I s → Ensures (λ t. I t.1) (remove_dds_participant x key s)
  pub remove_writer :
      (key : Str) (s : Plugin) → I s → Ensures (λ t. I t.1) (remove_dds_writer x key s)
  pub remove_reader :
      (key : Str) (s : Plugin) → I s → Ensures (λ t. I t.1) (remove_dds_reader x key s)
  pub route_reader :
      (e : DdsEntity) (part : Option Str) (s : Plugin)
      → I s
      → Ensures (λ t. I t.1) (fwd_route_subscription x c e part s)
  pub route_writer_of :
      (ke : Str) (e : DdsEntity) (scope : Option Str) (qos : Qos) (part : Option Str) (s : Plugin)
      → I s
      → Ensures I (route_remote_writer x ke e scope qos part s)
  pub route_reader_of :
      (ke : Str) (e : DdsEntity) (scope : Option Str) (qos : Qos) (part : Option Str) (s : Plugin)
      → I s
      → Ensures I (route_remote_reader x ke e scope qos part s)
  pub release_local :
      (key : Str) (s : Plugin) → I s → I (retain_to_dds (fwd_release_reader x c key) s)
  pub release_writer :
      (ke : Str) (s : Plugin) → I s → I (retain_to_dds (release_remote_writer x ke) s)
  pub release_reader :
      (ke : Str) (s : Plugin) → I s → I (retain_from_dds (release_remote_reader x ke) s)
  pub leave :
      (zid : Str) (s : Plugin) (info : ParticipantEntitiesInfo)
      → I s
      → I (drop_left x c zid s info).0

-- The discovered entities of the events satisfy `Ok`.
module _ (Ok : Bool → DdsEntity → Type 0) where
  abbrev EventOk : DiscoveryEvent → Type 0
  EventOk (discovered_publication e) = Ok true e
  EventOk (discovered_subscription e) = Ok false e
  EventOk _ = Unit

  abbrev pub EventsOk : List FwdEvent → Type 0
  EventsOk [] = Unit
  EventsOk (discovery e ∷ events) = EventOk e × EventsOk events
  EventsOk (_ ∷ events) = EventsOk events

abbrev pub AnyEntity : Bool → DdsEntity → Type 0
AnyEntity w e = Unit

pub any_events : (events : List FwdEvent) → EventsOk AnyEntity events
any_events [] = tt
any_events (discovery (discovered_publication e) ∷ events) = (tt, any_events events)
any_events (discovery (undiscovered_publication key) ∷ events) = (tt, any_events events)
any_events (discovery (discovered_subscription e) ∷ events) = (tt, any_events events)
any_events (discovery (undiscovered_subscription key) ∷ events) = (tt, any_events events)
any_events (discovery (discovered_participant e) ∷ events) = (tt, any_events events)
any_events (discovery (undiscovered_participant key) ∷ events) = (tt, any_events events)
any_events (forwarded sample ∷ events) = any_events events
any_events (member_joined zid ∷ events) = any_events events
any_events (member_left zid ∷ events) = any_events events
any_events (ros_disco_timer taken ∷ events) = any_events events

module _ (x : External) (c : Codec) (Ok : Bool → DdsEntity → Type 0) (I : Plugin → Type 0)
    (laws : Preserves x c Ok I) where
  -- A call of zenoh.
  pub after_put :
      (key payload : Str) (control : Option CongestionControl) (s : Plugin)
      → I s
      → I (after_call x c (put key control payload) s)
  unfolding after_call run_and_log perform created deleted
  after_put key payload control s i =
      laws.calls s (run_and_log (perform x (put key control payload)) s.world)
        (λ h. (omega arith, omega arith)) i

  after_delete :
      (key : Str) (control : CongestionControl) (s : Plugin)
      → I s
      → I (after_call x c (delete key control) s)
  unfolding after_call run_and_log perform created deleted
  after_delete key control s i =
      laws.calls s (run_and_log (perform x (delete key control)) s.world)
        (λ h. (omega arith, omega arith)) i

  pub after_fetch : (key sel : Str) (s : Plugin) → I s → I (after_call x c (fetch key sel) s)
  unfolding after_call run_and_log perform created deleted
  after_fetch key sel s i =
      laws.calls s (run_and_log (perform x (fetch key sel)) s.world)
        (λ h. (omega arith, omega arith)) i

  advertise_writer_keeps :
      (adm : Str) (e : DdsEntity) (s : Plugin) (msg : Option Str)
      → get_entity_admin_keyexpr x e true ≡ some adm
      → Ok true e
      → I s
      → I (advertise_writer x c adm e s msg)
  advertise_writer_keeps adm e s none named ok i = i
  advertise_writer_keeps adm e s (some msg) named ok i =
      laws.insert_writer adm e _ named ok (after_put _ msg _ s i)

  advertise_reader_keeps :
      (adm : Str) (e : DdsEntity) (s : Plugin) (msg : Option Str)
      → get_entity_admin_keyexpr x e false ≡ some adm
      → Ok false e
      → I s
      → I (advertise_reader x c adm e s msg)
  advertise_reader_keeps adm e s none named ok i = i
  advertise_reader_keeps adm e s (some msg) named ok i =
      laws.insert_reader adm e _ named ok (after_put _ msg _ s i)

  advertise_removal_keeps :
      (w : Bool) (removed : Option (Str × DdsEntity)) (s : Plugin)
      → I s
      → I (advertise_removal x c w removed s)
  advertise_removal_keeps w none s i = i
  advertise_removal_keeps w (some (adm, e)) s i = after_delete _ _ s i

  partitions_keep :
      (e : DdsEntity) (ps : List Str) (routes : Map RouteStatus) (s : Plugin)
      → I s
      → Ensures (λ t. I t.1) (fwd_route_subscription_partitions x c e ps routes s)
  unfolding fwd_route_subscription_partitions
  partitions_keep e [] routes s i = i
  partitions_keep e (p ∷ ps) routes s i =
      Ensures-bind (λ t. I t.1) (λ t. I t.1) (fwd_route_subscription x c e (some p) s) _
        (laws.route_reader e (some p) s i)
        λ t it. partitions_keep e ps (Map.insert p t.0 routes) t.1 it

  subscription_routes_keep :
      (e : DdsEntity) (b : Bool) (partition : Option (List Str)) (s : Plugin)
      → I s
      → Ensures (λ t. I t.1) (fwd_subscription_routes x c e b partition s)
  subscription_routes_keep e true partition s i =
      Ensures-bind (λ t. I t.1) (λ t. I t.1) (fwd_route_subscription x c e none s) _
        (laws.route_reader e none s i) λ t it. it
  subscription_routes_keep e false none s i = tt
  subscription_routes_keep e false (some ps) s i = partitions_keep e ps e.routes s i

  pub fwd_discovery_keeps :
      (event : DiscoveryEvent) (s : Plugin)
      → EventOk Ok event
      → I s
      → Ensures I (fwd_discovery x c event s)
  unfolding fwd_discovery fwd_discovered_publication fwd_undiscovered_publication
      fwd_discovered_subscription fwd_undiscovered_subscription on_discovered_participant
      on_undiscovered_participant get_entity_admin_keyexpr
  fwd_discovery_keeps (discovered_publication e) s ok i =
      Ensures-bind_eq I (get_entity_admin_keyexpr x e true) _
        λ adm named. advertise_writer_keeps adm e s _ named ok i
  fwd_discovery_keeps (undiscovered_publication key) s ok i =
      Ensures-bind (λ t. I t.1) I (remove_dds_writer x key s) _ (laws.remove_writer key s i)
        λ t it. advertise_removal_keeps true t.0 t.1 it
  fwd_discovery_keeps (discovered_subscription e) s ok i =
      Ensures-bind (λ t. I t.1) I
        (fwd_subscription_routes x c e (partition_is_empty e.qos.partition) e.qos.partition s) _
        (subscription_routes_keep e _ e.qos.partition s i)
        λ t it. Ensures-bind_eq I (get_entity_admin_keyexpr x e false) _ λ adm named.
          advertise_reader_keeps adm (record e { routes = t.0 }) t.1 _ named
            (laws.ok_routes false e t.0 ok) it
  fwd_discovery_keeps (undiscovered_subscription key) s ok i =
      Ensures-bind (λ t. I t.1) I (remove_dds_reader x key s) _ (laws.remove_reader key s i)
        λ t it. laws.release_local key _ (advertise_removal_keeps false t.0 t.1 it)
  fwd_discovery_keeps (discovered_participant e) s ok i =
      Ensures-bind_eq I (get_participant_admin_keyexpr x e) _
        λ adm named. laws.insert_participant adm e s named i
  fwd_discovery_keeps (undiscovered_participant key) s ok i =
      Ensures-bind (λ t. I t.1) I (remove_dds_participant x key s) _
        (laws.remove_participant key s i) λ t it. it
