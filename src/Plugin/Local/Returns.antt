-- ===== src/Plugin/Local/Returns.antt =====
-- zenoh-plugin-dds/src/lib.rs, `run_local_discovery_mode`: the loop does not panic on entities whose
-- names are valid.
use zenoh_plugin_dds.Base.{◌≡◌, refl, ap, ◌∙◌, Option, none, some, List, [], ◌∷◌}
use zenoh_plugin_dds.Base.Tests.{Yields, Yields-bind}
use zenoh_plugin_dds.Base.Text.{Str}
use zenoh_plugin_dds.Base.Map.{Map, get-insert, get-remove}
use zenoh_plugin_dds.Base.Map
use zenoh_plugin_dds.Qos.{Qos, partition_is_empty}
use zenoh_plugin_dds.World.{External, CongestionControl}
use zenoh_plugin_dds.Entity.{
  DdsEntity, RouteStatus, routed, not_allowed, creation_failure, qos_conflict,
}
use zenoh_plugin_dds.Config.{Config}
use zenoh_plugin_dds.Keyexpr.{topic_to_keyexpr}
use zenoh_plugin_dds.Plugin.{Plugin, try_add_route_from_dds, try_add_route_to_dds}
use zenoh_plugin_dds.Base.All.{All-change}
use zenoh_plugin_dds.Dds.Returns.{IsCString}
use zenoh_plugin_dds.Route.ToDds.{add_local_routed_reader}
use zenoh_plugin_dds.Plugin.Returns.{HasPeriods, HasCNames}
use zenoh_plugin_dds.Plugin.Ready.{
  IsReady, with_routes, try_add_route_from_dds-IsReady, try_add_route_to_dds-IsReady,
}
use zenoh_plugin_dds.Plugin.Local.{
  note_writer, note_reader, in_partition, route_publication, route_publication_partitions,
  route_publication_in, route_subscription, route_subscription_partitions, route_subscription_in,
  publication_routes, subscription_routes,
}

module _ (x : External) (config : Config) where
  -- The topic, in a partition or in none, has a key.
  abbrev pub HasTopicKey : DdsEntity → Option Str → Type 0
  HasTopicKey e part = (ke : Str) × (topic_to_keyexpr x e.topic_name config.scope part ≡ some ke)

  abbrev pub HasPartitionKeys : DdsEntity → List Str → Type 0
  HasPartitionKeys e [] = Unit
  HasPartitionKeys e (p ∷ ps) = HasTopicKey e (some p) × HasPartitionKeys e ps

  abbrev pub HasRouteKeys : DdsEntity → Option (List Str) → Type 0
  HasRouteKeys e none = HasTopicKey e none
  HasRouteKeys e (some []) = HasTopicKey e none
  HasRouteKeys e (some (p ∷ ps)) = HasPartitionKeys e (p ∷ ps)

  note_writer-IsReady :
      (key : Str) (status : RouteStatus) (s : Plugin)
      → IsReady x config s
      → IsReady x config (note_writer key status s)
  note_writer-IsReady key (routed k) s r = with_routes x config s _ _ _ _ r.route_names r
  note_writer-IsReady key not_allowed s r = r
  note_writer-IsReady key (creation_failure e) s r = r
  note_writer-IsReady key qos_conflict s r = r

  note_reader-IsReady :
      (key : Str) (status : RouteStatus) (s : Plugin)
      → IsReady x config s
      → IsReady x config (note_reader key status s)
  unfolding add_local_routed_reader
  note_reader-IsReady key (routed k) s r =
      with_routes x config s _ _ _ _
        (All-change HasCNames k (add_local_routed_reader key) s.routes_to_dds (λ v names. names)
          r.route_names)
        r
  note_reader-IsReady key not_allowed s r = r
  note_reader-IsReady key (creation_failure e) s r = r
  note_reader-IsReady key qos_conflict s r = r

  -- The names of the topic and of its type hold no zero byte.
  module _ (e : DdsEntity) (cton : IsCString e.topic_name) (ctyn : IsCString e.type_name) where
    -- The key of the topic, for the scope that the plugin holds.
    topic_key :
        (part : Option Str) (s : Plugin)
        → IsReady x config s
        → HasTopicKey e part
        → Yields (λ _. Unit {0}) (topic_to_keyexpr x e.topic_name s.config.scope part)
    topic_key part s r (ke, found) =
        (ke, ap (λ c. topic_to_keyexpr x e.topic_name c.scope part) r.config_is ∙ found, tt)

    route_publication-IsReady :
        HasPeriods x config.max_frequencies
        → (qos : Qos) (cc : CongestionControl) (part : Option Str) (s : Plugin) → IsReady x config s
        → HasTopicKey e part
        → Yields (λ t. IsReady x config t.1) (route_publication x e qos cc part s)
    unfolding route_publication
    route_publication-IsReady periods qos cc part s r key =
        Yields-bind (λ _. Unit {0}) (λ t. IsReady x config t.1)
          (topic_to_keyexpr x e.topic_name s.config.scope part) _ (topic_key part s r key)
          λ ke _.
            Yields-bind (λ t. IsReady x config t.1) (λ t. IsReady x config t.1)
              (try_add_route_from_dds x s ke e.topic_name e.type_name e.type_info e.keyless qos cc)
              _
              (try_add_route_from_dds-IsReady x config ke s r e.topic_name e.type_name e.type_info
                e.keyless qos cc periods cton ctyn)
              λ t it. (_, refl, note_writer-IsReady e.key t.0 t.1 it)

    route_publication_partitions-IsReady :
        HasPeriods x config.max_frequencies
        → (qos : Qos) (cc : CongestionControl) (ps : List Str) (routes : Map RouteStatus)
          (s : Plugin)
        → IsReady x config s
        → HasPartitionKeys e ps
        → Yields (λ t. IsReady x config t.1) (route_publication_partitions x e qos cc ps routes s)
    unfolding route_publication_partitions
    route_publication_partitions-IsReady periods qos cc [] routes s r keys = (_, refl, r)
    route_publication_partitions-IsReady periods qos cc (p ∷ ps) routes s r keys =
        Yields-bind (λ t. IsReady x config t.1) (λ t. IsReady x config t.1)
          (route_publication x e (in_partition p qos) cc (some p) s) _
          (route_publication-IsReady periods (in_partition p qos) cc (some p) s r keys.0)
          λ t it.
            route_publication_partitions-IsReady periods qos cc ps (Map.insert p t.0 routes) t.1 it
              keys.1

    route_publication_in-IsReady :
        HasPeriods x config.max_frequencies
        → (qos : Qos) (cc : CongestionControl) (partition : Option (List Str)) (s : Plugin)
        → IsReady x config s
        → HasRouteKeys e partition
        → Yields
            (λ t. IsReady x config t.1)
            (route_publication_in x e qos cc (partition_is_empty partition) partition s)
    unfolding partition_is_empty
    route_publication_in-IsReady periods qos cc none s r key =
        Yields-bind (λ t. IsReady x config t.1) (λ t. IsReady x config t.1)
          (route_publication x e qos cc none s) _
          (route_publication-IsReady periods qos cc none s r key) λ t it. (_, refl, it)
    route_publication_in-IsReady periods qos cc (some []) s r key =
        Yields-bind (λ t. IsReady x config t.1) (λ t. IsReady x config t.1)
          (route_publication x e qos cc none s) _
          (route_publication-IsReady periods qos cc none s r key) λ t it. (_, refl, it)
    route_publication_in-IsReady periods qos cc (some (p ∷ ps)) s r keys =
        route_publication_partitions-IsReady periods qos cc (p ∷ ps) e.routes s r keys

    pub publication_routes-IsReady :
        HasPeriods x config.max_frequencies
        → (s : Plugin) → IsReady x config s
        → HasRouteKeys e e.qos.partition
        → Yields (λ t. IsReady x config t.1) (publication_routes x e s)
    unfolding publication_routes
    publication_routes-IsReady periods s r keys =
        route_publication_in-IsReady periods _ _ e.qos.partition s r keys

    route_subscription-IsReady :
        (qos : Qos) (part : Option Str) (s : Plugin)
        → IsReady x config s
        → HasTopicKey e part
        → Yields (λ t. IsReady x config t.1) (route_subscription x e qos part s)
    unfolding route_subscription
    route_subscription-IsReady qos part s r key =
        Yields-bind (λ _. Unit {0}) (λ t. IsReady x config t.1)
          (topic_to_keyexpr x e.topic_name s.config.scope part) _ (topic_key part s r key)
          λ ke _.
            Yields-bind (λ t. IsReady x config t.1) (λ t. IsReady x config t.1)
              (try_add_route_to_dds x s ke e.topic_name e.type_name e.type_info e.keyless _
                (some qos))
              _
              (try_add_route_to_dds-IsReady x config ke s r e.topic_name e.type_name e.type_info
                e.keyless _ (some qos) cton ctyn)
              λ t it. (_, refl, note_reader-IsReady e.key t.0 t.1 it)

    route_subscription_partitions-IsReady :
        (qos : Qos) (ps : List Str) (routes : Map RouteStatus) (s : Plugin)
        → IsReady x config s
        → HasPartitionKeys e ps
        → Yields (λ t. IsReady x config t.1) (route_subscription_partitions x e qos ps routes s)
    unfolding route_subscription_partitions
    route_subscription_partitions-IsReady qos [] routes s r keys = (_, refl, r)
    route_subscription_partitions-IsReady qos (p ∷ ps) routes s r keys =
        Yields-bind (λ t. IsReady x config t.1) (λ t. IsReady x config t.1)
          (route_subscription x e (in_partition p qos) (some p) s) _
          (route_subscription-IsReady (in_partition p qos) (some p) s r keys.0)
          λ t it.
            route_subscription_partitions-IsReady qos ps (Map.insert p t.0 routes) t.1 it keys.1

    route_subscription_in-IsReady :
        (qos : Qos) (partition : Option (List Str)) (s : Plugin)
        → IsReady x config s
        → HasRouteKeys e partition
        → Yields
            (λ t. IsReady x config t.1)
            (route_subscription_in x e qos (partition_is_empty partition) partition s)
    unfolding partition_is_empty
    route_subscription_in-IsReady qos none s r key =
        Yields-bind (λ t. IsReady x config t.1) (λ t. IsReady x config t.1)
          (route_subscription x e qos none s) _ (route_subscription-IsReady qos none s r key)
          λ t it. (_, refl, it)
    route_subscription_in-IsReady qos (some []) s r key =
        Yields-bind (λ t. IsReady x config t.1) (λ t. IsReady x config t.1)
          (route_subscription x e qos none s) _ (route_subscription-IsReady qos none s r key)
          λ t it. (_, refl, it)
    route_subscription_in-IsReady qos (some (p ∷ ps)) s r keys =
        route_subscription_partitions-IsReady qos (p ∷ ps) e.routes s r keys

    pub subscription_routes-IsReady :
        (s : Plugin)
        → IsReady x config s
        → HasRouteKeys e e.qos.partition
        → Yields (λ t. IsReady x config t.1) (subscription_routes x e s)
    unfolding subscription_routes
    subscription_routes-IsReady s r keys = route_subscription_in-IsReady _ e.qos.partition s r keys
