-- ===== src/Plugin/Local/Serves.antt =====
-- zenoh-plugin-dds/src/lib.rs, `run_local_discovery_mode`: in every state that the loop reaches, each route
-- serves a local entity.
use zenoh_plugin_dds.Base.{subst, true, false, Option, none, some, List, [], ◌∷◌, inl, inr}
use zenoh_plugin_dds.Base.Tests.{Bool-cases, Option-cases, Ensures, Ensures-bind, Ensures-any}
use zenoh_plugin_dds.Base.Int.{ℤ}
use zenoh_plugin_dds.Base.Text.{Str}
use zenoh_plugin_dds.Base.Map.{Map}
use zenoh_plugin_dds.Base.All.{All, All-retain_with}
use zenoh_plugin_dds.Qos.{Qos, is_transient_local}
use zenoh_plugin_dds.World.{External, World, CongestionControl}
use zenoh_plugin_dds.Config.{Config}
use zenoh_plugin_dds.Entity.{
  DdsEntity, DiscoveryEvent, discovered_publication, undiscovered_publication,
  discovered_subscription, undiscovered_subscription, discovered_participant,
  undiscovered_participant,
}
use zenoh_plugin_dds.Keyexpr.{
  topic_to_keyexpr, get_entity_admin_keyexpr, get_participant_admin_keyexpr,
}
use zenoh_plugin_dds.Route.FromDds.{
  RouteDdsZenoh, has_local_routed_writer, remove_local_routed_writer,
}
use zenoh_plugin_dds.Route.ToDds.{
  RouteZenohDds, has_local_routed_reader, remove_local_routed_reader,
}
use zenoh_plugin_dds.Plugin.{
  Plugin, AdminRef, start, insert_dds_participant, insert_dds_writer, insert_dds_reader,
  remove_dds_participant, remove_dds_writer, remove_dds_reader,
}
use zenoh_plugin_dds.Plugin.Removals.{
  SameRoutes, remove_dds_participant-SameRoutes, remove_dds_writer-SameRoutes,
  remove_dds_reader-SameRoutes,
}
use zenoh_plugin_dds.Plugin.Fwd.Writers.{NeverNull}
use zenoh_plugin_dds.Plugin.Local.{
  LocalEvent, discovery, new_member, local_run, loop_step, local_step, on_new_member,
  route_publication, route_subscription, publication_routes, subscription_routes, release_writer,
  release_reader, release_from_dds, release_to_dds, on_discovered_publication,
  on_discovered_subscription, on_undiscovered_publication, on_undiscovered_subscription,
  on_discovered_participant, on_undiscovered_participant,
}
use zenoh_plugin_dds.Plugin.Local.Keeps.{publication_routes-each, subscription_routes-each}
use zenoh_plugin_dds.Plugin.Local.Used.{
  AreLocal, ServesLocalWriter, ServesLocalReader, AfterTo, AfterFrom, try_add_route_to_dds-AfterTo,
  try_add_route_from_dds-AfterFrom, note_reader-AreLocal, note_writer-AreLocal,
}

SameRoutes-AreLocal : (s t : Plugin) → AreLocal s → SameRoutes s t → AreLocal t
SameRoutes-AreLocal s t i (to, from) = record {
  to_dds = subst (All (λ k. ServesLocalReader)) to i.to_dds;
  from_dds = subst (All (λ k. ServesLocalWriter)) from i.from_dds;
}

module _ (x : External) where
  release_writer-Serves :
      (key k : Str) (r : RouteDdsZenoh) (t : Map AdminRef × World)
      → ServesLocalWriter r
      → Ensures ServesLocalWriter (release_writer x key k r t).0
  release_writer-Serves key k r t i =
      elim (Bool-cases (has_local_routed_writer (remove_local_routed_writer key r))) [
        | inl y ↦ rw y y
        | inr f ↦ rw f tt
      ]

  release_reader-Serves :
      (key k : Str) (r : RouteZenohDds) (t : Map AdminRef × World)
      → ServesLocalReader r
      → Ensures ServesLocalReader (release_reader x key k r t).0
  unfolding remove_local_routed_reader
  release_reader-Serves key k r t (writer, used) =
      elim (Bool-cases (has_local_routed_reader (remove_local_routed_reader key r))) [
        | inl y ↦ rw y (writer, y)
        | inr f ↦ rw f tt
      ]

  release_writer_if :
      {A : Type 0} (key : Str) (o : Option A) (s : Plugin)
      → AreLocal s
      → Ensures AreLocal (elim o [ none ↦ some s | some _ ↦ some (release_from_dds x key s) ])
  unfolding release_from_dds
  release_writer_if key none s i = i
  release_writer_if key (some _) s i = record {
    to_dds = i.to_dds;
    from_dds =
        All-retain_with ServesLocalWriter ServesLocalWriter _ s.routes_from_dds _
          (release_writer-Serves key) i.from_dds;
  }

  release_reader_if :
      {A : Type 0} (key : Str) (o : Option A) (s : Plugin)
      → AreLocal s
      → Ensures AreLocal (elim o [ none ↦ some s | some _ ↦ some (release_to_dds x key s) ])
  unfolding release_to_dds
  release_reader_if key none s i = i
  release_reader_if key (some _) s i = record {
    to_dds =
        All-retain_with ServesLocalReader ServesLocalReader _ s.routes_to_dds _
          (release_reader-Serves key) i.to_dds;
    from_dds = i.from_dds;
  }

module _ (x : External) (nonzero : NeverNull x) where
  route_publication-AreLocal :
      (e : DdsEntity) (qos : Qos) (cc : CongestionControl) (part : Option Str) (s : Plugin)
      → AreLocal s
      → Ensures (λ t. AreLocal t.1) (route_publication x e qos cc part s)
  unfolding route_publication
  route_publication-AreLocal e qos cc part s i =
      Ensures-bind (λ _. Unit {0}) (λ t. AreLocal t.1)
        (topic_to_keyexpr x e.topic_name s.config.scope part) _ (Ensures-any _)
        λ ke _.
          Ensures-bind (AfterFrom ke) (λ t. AreLocal t.1) _ _
            (try_add_route_from_dds-AfterFrom x nonzero ke s i e.topic_name e.type_name e.type_info
              e.keyless qos cc)
            λ t it. note_writer-AreLocal e.key ke t.0 t.1 it

  route_subscription-AreLocal :
      (e : DdsEntity) (qos : Qos) (part : Option Str) (s : Plugin)
      → AreLocal s
      → Ensures (λ t. AreLocal t.1) (route_subscription x e qos part s)
  unfolding route_subscription
  route_subscription-AreLocal e qos part s i =
      Ensures-bind (λ _. Unit {0}) (λ t. AreLocal t.1)
        (topic_to_keyexpr x e.topic_name s.config.scope part) _ (Ensures-any _)
        λ ke _.
          Ensures-bind (AfterTo ke) (λ t. AreLocal t.1) _ _
            (try_add_route_to_dds-AfterTo x nonzero ke s i e.topic_name e.type_name e.type_info
              e.keyless (is_transient_local qos) qos)
            λ t it. note_reader-AreLocal e.key ke t.0 t.1 it

  on_discovered_publication-AreLocal :
      (e : DdsEntity) (s : Plugin) → AreLocal s → Ensures AreLocal (on_discovered_publication x e s)
  unfolding on_discovered_publication insert_dds_writer
  on_discovered_publication-AreLocal e s i =
      Ensures-bind (λ _. Unit {0}) AreLocal (get_entity_admin_keyexpr x e true) _ (Ensures-any _)
        λ adm _.
          Ensures-bind (λ t. AreLocal t.1) AreLocal (publication_routes x e s) _
            (publication_routes-each x e AreLocal (route_publication-AreLocal e) s i)
            λ t it. record { to_dds = it.to_dds; from_dds = it.from_dds }

  on_discovered_subscription-AreLocal :
      (e : DdsEntity) (s : Plugin)
      → AreLocal s
      → Ensures AreLocal (on_discovered_subscription x e s)
  unfolding on_discovered_subscription insert_dds_reader
  on_discovered_subscription-AreLocal e s i =
      Ensures-bind (λ _. Unit {0}) AreLocal (get_entity_admin_keyexpr x e false) _ (Ensures-any _)
        λ adm _.
          Ensures-bind (λ t. AreLocal t.1) AreLocal (subscription_routes x e s) _
            (subscription_routes-each x e AreLocal (route_subscription-AreLocal e) s i)
            λ t it. record { to_dds = it.to_dds; from_dds = it.from_dds }

  local_step-AreLocal :
      (event : DiscoveryEvent) (s : Plugin) → AreLocal s → Ensures AreLocal (local_step x event s)
  unfolding local_step on_undiscovered_publication on_undiscovered_subscription
      on_discovered_participant on_undiscovered_participant insert_dds_participant
  local_step-AreLocal (discovered_publication e) s i = on_discovered_publication-AreLocal e s i
  local_step-AreLocal (undiscovered_publication key) s i =
      Ensures-bind (λ t. SameRoutes s t.1) AreLocal (remove_dds_writer x key s) _
        (remove_dds_writer-SameRoutes x key s)
        λ t same. release_writer_if x key t.0 t.1 (SameRoutes-AreLocal s t.1 i same)
  local_step-AreLocal (discovered_subscription e) s i = on_discovered_subscription-AreLocal e s i
  local_step-AreLocal (undiscovered_subscription key) s i =
      Ensures-bind (λ t. SameRoutes s t.1) AreLocal (remove_dds_reader x key s) _
        (remove_dds_reader-SameRoutes x key s)
        λ t same. release_reader_if x key t.0 t.1 (SameRoutes-AreLocal s t.1 i same)
  local_step-AreLocal (discovered_participant e) s i =
      Ensures-bind (λ _. Unit {0}) AreLocal (get_participant_admin_keyexpr x e) _ (Ensures-any _)
        λ adm _. record { to_dds = i.to_dds; from_dds = i.from_dds }
  local_step-AreLocal (undiscovered_participant key) s i =
      Ensures-bind (λ t. SameRoutes s t.1) AreLocal (remove_dds_participant x key s) _
        (remove_dds_participant-SameRoutes x key s) λ t same. SameRoutes-AreLocal s t.1 i same

  on_new_member-AreLocal : (zid : Str) (s : Plugin) → AreLocal s → AreLocal (on_new_member x zid s)
  unfolding on_new_member
  on_new_member-AreLocal zid s i = elim (Option-cases (x.try_into zid)) [
    | inl e ↦ rw (e, on_new_member) i
    | inr (id, e) ↦ rw (e, on_new_member) (record { to_dds = i.to_dds; from_dds = i.from_dds })
  ]

  local_run_from-AreLocal :
      (events : List LocalEvent) (s : Plugin) → AreLocal s → Ensures AreLocal (local_run x events s)
  unfolding local_run loop_step
  local_run_from-AreLocal [] s i = i
  local_run_from-AreLocal (discovery event ∷ events) s i =
      Ensures-bind AreLocal AreLocal (local_step x event s) _ (local_step-AreLocal event s i)
        λ t it. local_run_from-AreLocal events t it
  local_run_from-AreLocal (new_member zid ∷ events) s i =
      local_run_from-AreLocal events (on_new_member x zid s) (on_new_member-AreLocal zid s i)

  -- In every state that the local mode reaches from the start of the plugin, each route from DDS
  -- serves a local Writer, and each route to DDS serves a local Reader and has a DDS Writer. DDS is
  -- assumed to give no writer the handle 0.
  pub local_run-AreLocal :
      (config : Config) (zid : Str) (dp : ℤ) (w : World) (events : List LocalEvent)
      → Ensures AreLocal (local_run x events (start config zid dp w))
  unfolding start
  local_run-AreLocal config zid dp w events =
      local_run_from-AreLocal events (start config zid dp w) (record { to_dds = tt; from_dds = tt })
