-- ===== src/Plugin/Local/Total.antt =====
-- zenoh-plugin-dds/src/lib.rs, `run_local_discovery_mode`: its handlers and its loop do not panic on
-- entities whose names are valid.
use zenoh_plugin_dds.Base.{◌≡◌, refl, true, false, some, List, [], ◌∷◌, inl, inr}
use zenoh_plugin_dds.Base.Tests.{Option-cases, Yields, Yields-bind}
use zenoh_plugin_dds.Base.Int.{ℤ}
use zenoh_plugin_dds.Base.Text.{Str}
use zenoh_plugin_dds.Base.Map.{Map}
use zenoh_plugin_dds.Base.Map
use zenoh_plugin_dds.World.{External, World}
use zenoh_plugin_dds.Entity.{
  DiscoveryEvent, discovered_publication, undiscovered_publication, discovered_subscription,
  undiscovered_subscription, discovered_participant, undiscovered_participant,
}
use zenoh_plugin_dds.Config.{Config}
use zenoh_plugin_dds.Keyexpr.{get_participant_admin_keyexpr, get_entity_admin_keyexpr}
use zenoh_plugin_dds.Plugin.{
  Plugin, start, insert_dds_participant, insert_dds_writer, insert_dds_reader,
  remove_dds_participant, remove_dds_writer, remove_dds_reader,
}
use zenoh_plugin_dds.Base.All.{All-retain_with}
use zenoh_plugin_dds.Dds.Returns.{IsCString}
use zenoh_plugin_dds.Plugin.Returns.{HasPeriods, HasCNames}
use zenoh_plugin_dds.Plugin.Ready.{IsReady, with_routes}
use zenoh_plugin_dds.Plugin.Local.Returns.{
  HasRouteKeys, publication_routes-IsReady, subscription_routes-IsReady,
}
use zenoh_plugin_dds.Plugin.Local.{
  LocalEvent, discovery, new_member, local_step, loop_step, local_run, on_discovered_publication,
  on_undiscovered_publication, on_discovered_subscription, on_undiscovered_subscription,
  on_discovered_participant, on_undiscovered_participant, publication_routes, subscription_routes,
  release_from_dds, release_to_dds, release_reader, on_new_member,
}
use zenoh_plugin_dds.Plugin.Local.Removing.{
  remove_dds_participant-IsReady, remove_dds_writer-IsReady, remove_dds_reader-IsReady,
  release_reader-names, release_if-IsReady,
}

module _ (x : External) (config : Config) where
  -- The names of what is discovered are key expressions: its key in the admin space, and the keys
  -- of its routes. The names of the topic and its type hold no zero byte.
  abbrev pub IsNamed : DiscoveryEvent → Type 0
  IsNamed (discovered_publication e) =
      ((a : Str) × (get_entity_admin_keyexpr x e true ≡ some a))
      × (IsCString e.topic_name × (IsCString e.type_name × HasRouteKeys x config e e.qos.partition))
  IsNamed (discovered_subscription e) =
      ((a : Str) × (get_entity_admin_keyexpr x e false ≡ some a))
      × (IsCString e.topic_name × (IsCString e.type_name × HasRouteKeys x config e e.qos.partition))
  IsNamed (discovered_participant e) = (a : Str) × (get_participant_admin_keyexpr x e ≡ some a)
  IsNamed _ = Unit

  abbrev pub AreNamed : List LocalEvent → Type 0
  AreNamed [] = Unit
  AreNamed (discovery e ∷ events) = IsNamed e × AreNamed events
  AreNamed (new_member zid ∷ events) = AreNamed events

  local_step-IsReady :
      HasPeriods x config.max_frequencies
      → (event : DiscoveryEvent) (s : Plugin) → IsReady x config s
      → IsNamed event
      → Yields (IsReady x config) (local_step x event s)
  unfolding local_step on_discovered_publication on_undiscovered_publication
      on_discovered_subscription on_undiscovered_subscription on_discovered_participant
      on_undiscovered_participant insert_dds_participant insert_dds_writer insert_dds_reader
      release_from_dds release_to_dds get_entity_admin_keyexpr
  local_step-IsReady periods (discovered_publication e) s r (adm, (cton, (ctyn, keys))) =
      Yields-bind (λ _. Unit {0}) (IsReady x config) (get_entity_admin_keyexpr x e true) _
        (adm.0, adm.1, tt)
        λ a _.
          Yields-bind (λ t. IsReady x config t.1) (IsReady x config) (publication_routes x e s) _
            (publication_routes-IsReady x config e cton ctyn periods s r keys)
            λ t it. (
              _,
              refl,
              record {
                config_is = it.config_is;
                participants = it.participants;
                writers =
                    Map.insert-Each _ e.key (record e { routes = t.0 }) t.1.discovered_writers adm
                      it.writers;
                readers = it.readers;
                route_names = it.route_names;
              },
            )
  local_step-IsReady periods (undiscovered_publication key) s r named =
      Yields-bind (λ t. IsReady x config t.1) (IsReady x config) (remove_dds_writer x key s) _
        (remove_dds_writer-IsReady x config key s r)
        λ t it.
          release_if-IsReady x config t.0 t.1 (release_from_dds x key)
            (λ u ready. with_routes x config u _ _ _ _ ready.route_names ready) it
  local_step-IsReady periods (discovered_subscription e) s r (adm, (cton, (ctyn, keys))) =
      Yields-bind (λ _. Unit {0}) (IsReady x config) (get_entity_admin_keyexpr x e false) _
        (adm.0, adm.1, tt)
        λ a _.
          Yields-bind (λ t. IsReady x config t.1) (IsReady x config) (subscription_routes x e s) _
            (subscription_routes-IsReady x config e cton ctyn s r keys)
            λ t it. (
              _,
              refl,
              record {
                config_is = it.config_is;
                participants = it.participants;
                writers = it.writers;
                readers =
                    Map.insert-Each _ e.key (record e { routes = t.0 }) t.1.discovered_readers adm
                      it.readers;
                route_names = it.route_names;
              },
            )
  local_step-IsReady periods (undiscovered_subscription key) s r named =
      Yields-bind (λ t. IsReady x config t.1) (IsReady x config) (remove_dds_reader x key s) _
        (remove_dds_reader-IsReady x config key s r)
        λ t it.
          release_if-IsReady x config t.0 t.1 (release_to_dds x key)
            (λ u ready.
              with_routes x config u _ _ _ _
                (All-retain_with HasCNames HasCNames (release_reader x key) u.routes_to_dds
                  (u.admin_space, u.world) (release_reader-names x config key) ready.route_names)
                ready)
            it
  local_step-IsReady periods (discovered_participant e) s r named =
      Yields-bind (λ _. Unit {0}) (IsReady x config) (get_participant_admin_keyexpr x e) _
        (named.0, named.1, tt)
        λ a _. (
          _,
          refl,
          record {
            config_is = r.config_is;
            participants = Map.insert-Each _ e.key e s.discovered_participants named r.participants;
            writers = r.writers;
            readers = r.readers;
            route_names = r.route_names;
          },
        )
  local_step-IsReady periods (undiscovered_participant key) s r named =
      Yields-bind (λ t. IsReady x config t.1) (IsReady x config) (remove_dds_participant x key s) _
        (remove_dds_participant-IsReady x config key s r) λ t it. (_, refl, it)

  on_new_member-IsReady :
      (zid : Str) (s : Plugin) → IsReady x config s → IsReady x config (on_new_member x zid s)
  unfolding on_new_member
  on_new_member-IsReady zid s r = elim (Option-cases (x.try_into zid)) [
    | inl e ↦ rw (e, on_new_member) r
    | inr (id, e) ↦ rw (e, on_new_member) (with_routes x config s _ _ _ _ r.route_names r)
  ]

  local_run_from-IsReady :
      HasPeriods x config.max_frequencies
      → (events : List LocalEvent) (s : Plugin) → IsReady x config s
      → AreNamed events
      → Yields (IsReady x config) (local_run x events s)
  unfolding local_run loop_step
  local_run_from-IsReady periods [] s r named = (_, refl, r)
  local_run_from-IsReady periods (discovery e ∷ events) s r named =
      Yields-bind (IsReady x config) (IsReady x config) (local_step x e s) _
        (local_step-IsReady periods e s r named.0)
        λ t it. local_run_from-IsReady periods events t it named.1
  local_run_from-IsReady periods (new_member zid ∷ events) s r named =
      local_run_from-IsReady periods events (on_new_member x zid s) (on_new_member-IsReady zid s r)
        named

  -- From the start of the plugin the loop takes every sequence of events without a panic, whatever
  -- DDS and zenoh answer, if the names of what is discovered are key expressions, the names of topics
  -- and types hold no zero byte, and each configured frequency has a period. In the state after the
  -- events the admin key of each known entity is a key expression, so that its removal does not
  -- panic, and the names of each route to DDS hold no zero byte.
  pub local_run-IsReady :
      (zid : Str) (dp : ℤ) (w : World) (events : List LocalEvent)
      → HasPeriods x config.max_frequencies
      → AreNamed events
      → Yields (IsReady x config) (local_run x events (start config zid dp w))
  unfolding start Map.get
  local_run-IsReady zid dp w events periods named =
      local_run_from-IsReady periods events (start config zid dp w)
        (record {
          config_is = refl;
          participants = λ k e found. absurd cc;
          writers = λ k e found. absurd cc;
          readers = λ k e found. absurd cc;
          route_names = tt;
        })
        named
