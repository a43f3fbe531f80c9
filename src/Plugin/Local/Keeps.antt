-- ===== src/Plugin/Local/Keeps.antt =====
-- zenoh-plugin-dds/src/lib.rs, `run_local_discovery_mode`: what the creation of one route keeps, the
-- loops over the partitions keep.
use zenoh_plugin_dds.Base.{Bool, true, false, Option, none, some, List, [], ◌∷◌}
use zenoh_plugin_dds.Base.Tests.{Ensures, Ensures-bind, Ensures-any}
use zenoh_plugin_dds.Base.Text.{Str}
use zenoh_plugin_dds.Base.Map.{Map}
use zenoh_plugin_dds.Base.Map
use zenoh_plugin_dds.Qos.{
  Qos, partition_is_empty, adapt_writer_qos_for_reader, adapt_reader_qos_for_writer,
  is_writer_reliable,
}
use zenoh_plugin_dds.World.{External, CongestionControl}
use zenoh_plugin_dds.Entity.{DdsEntity, RouteStatus}
use zenoh_plugin_dds.Plugin.{Plugin, try_add_route_from_dds, try_add_route_to_dds}
use zenoh_plugin_dds.Plugin.Local.{
  congestion_of, note_writer, note_reader, in_partition, route_publication,
  route_publication_partitions, route_publication_in, route_subscription,
  route_subscription_partitions, route_subscription_in, publication_routes, subscription_routes,
}
use zenoh_plugin_dds.Keyexpr.{topic_to_keyexpr}

module _ {ℓ} (x : External) (e : DdsEntity) (I : Plugin → Type ℓ)
    (route_publication-keeps : (qos : Qos) (cc : CongestionControl) (part : Option Str) (s : Plugin)
      → I s
      → Ensures (λ t. I t.1) (route_publication x e qos cc part s)) where
  route_publication_partitions-keeps :
      (qos : Qos) (cc : CongestionControl) (ps : List Str) (routes : Map RouteStatus) (s : Plugin)
      → I s
      → Ensures (λ t. I t.1) (route_publication_partitions x e qos cc ps routes s)
  unfolding route_publication_partitions
  route_publication_partitions-keeps qos cc [] routes s i = i
  route_publication_partitions-keeps qos cc (p ∷ ps) routes s i =
      Ensures-bind (λ t. I t.1) (λ t. I t.1)
        (route_publication x e (in_partition p qos) cc (some p) s) _
        (route_publication-keeps (in_partition p qos) cc (some p) s i)
        λ t it. route_publication_partitions-keeps qos cc ps (Map.insert p t.0 routes) t.1 it

  route_publication_in-keeps :
      (qos : Qos) (cc : CongestionControl) (b : Bool) (partition : Option (List Str)) (s : Plugin)
      → I s
      → Ensures (λ t. I t.1) (route_publication_in x e qos cc b partition s)
  route_publication_in-keeps qos cc true partition s i =
      Ensures-bind (λ t. I t.1) (λ t. I t.1) (route_publication x e qos cc none s) _
        (route_publication-keeps qos cc none s i) λ t it. it
  route_publication_in-keeps qos cc false none s i = tt
  route_publication_in-keeps qos cc false (some ps) s i =
      route_publication_partitions-keeps qos cc ps e.routes s i

  pub publication_routes-each : (s : Plugin) → I s → Ensures (λ t. I t.1) (publication_routes x e s)
  unfolding publication_routes
  publication_routes-each s i =
      route_publication_in-keeps (adapt_writer_qos_for_reader x.cyclors e.qos)
        (congestion_of s.config.reliable_routes_blocking (is_writer_reliable e.qos.reliability))
        (partition_is_empty e.qos.partition) e.qos.partition s i

module _ {ℓ} (x : External) (e : DdsEntity) (I : Plugin → Type ℓ)
    (add : (s : Plugin) (ke : Str) (qos : Qos) (cc : CongestionControl)
      → I s
      → Ensures
          (λ t. I t.1)
          (try_add_route_from_dds x s ke e.topic_name e.type_name e.type_info e.keyless qos cc))
    (note : (status : RouteStatus) (s : Plugin) → I s → I (note_writer e.key status s)) where
  route_publication-keeps :
      (qos : Qos) (cc : CongestionControl) (part : Option Str) (s : Plugin)
      → I s
      → Ensures (λ t. I t.1) (route_publication x e qos cc part s)
  unfolding route_publication
  route_publication-keeps qos cc part s i =
      Ensures-bind (λ _. Unit {0}) (λ t. I t.1)
        (topic_to_keyexpr x e.topic_name s.config.scope part) _ (Ensures-any _)
        λ ke _.
          Ensures-bind (λ t. I t.1) (λ t. I t.1)
            (try_add_route_from_dds x s ke e.topic_name e.type_name e.type_info e.keyless qos cc) _
            (add s ke qos cc i) λ t it. note t.0 t.1 it

  pub publication_routes-keeps :
      (s : Plugin) → I s → Ensures (λ t. I t.1) (publication_routes x e s)
  publication_routes-keeps = publication_routes-each x e I route_publication-keeps

module _ {ℓ} (x : External) (e : DdsEntity) (I : Plugin → Type ℓ)
    (route_subscription-keeps : (qos : Qos) (part : Option Str) (s : Plugin)
      → I s
      → Ensures (λ t. I t.1) (route_subscription x e qos part s)) where
  route_subscription_partitions-keeps :
      (qos : Qos) (ps : List Str) (routes : Map RouteStatus) (s : Plugin)
      → I s
      → Ensures (λ t. I t.1) (route_subscription_partitions x e qos ps routes s)
  unfolding route_subscription_partitions
  route_subscription_partitions-keeps qos [] routes s i = i
  route_subscription_partitions-keeps qos (p ∷ ps) routes s i =
      Ensures-bind (λ t. I t.1) (λ t. I t.1)
        (route_subscription x e (in_partition p qos) (some p) s) _
        (route_subscription-keeps (in_partition p qos) (some p) s i)
        λ t it. route_subscription_partitions-keeps qos ps (Map.insert p t.0 routes) t.1 it

  route_subscription_in-keeps :
      (qos : Qos) (b : Bool) (partition : Option (List Str)) (s : Plugin)
      → I s
      → Ensures (λ t. I t.1) (route_subscription_in x e qos b partition s)
  route_subscription_in-keeps qos true partition s i =
      Ensures-bind (λ t. I t.1) (λ t. I t.1) (route_subscription x e qos none s) _
        (route_subscription-keeps qos none s i) λ t it. it
  route_subscription_in-keeps qos false none s i = tt
  route_subscription_in-keeps qos false (some ps) s i =
      route_subscription_partitions-keeps qos ps e.routes s i

  pub subscription_routes-each :
      (s : Plugin) → I s → Ensures (λ t. I t.1) (subscription_routes x e s)
  unfolding subscription_routes
  subscription_routes-each s i =
      route_subscription_in-keeps (adapt_reader_qos_for_writer x.cyclors e.qos)
        (partition_is_empty e.qos.partition) e.qos.partition s i

module _ {ℓ} (x : External) (e : DdsEntity) (I : Plugin → Type ℓ)
    (add : (s : Plugin) (ke : Str) (transient : Bool) (qos : Option Qos)
      → I s
      → Ensures
          (λ t. I t.1)
          (try_add_route_to_dds x s ke e.topic_name e.type_name e.type_info e.keyless transient
            qos))
    (note : (status : RouteStatus) (s : Plugin) → I s → I (note_reader e.key status s)) where
  route_subscription-keeps :
      (qos : Qos) (part : Option Str) (s : Plugin)
      → I s
      → Ensures (λ t. I t.1) (route_subscription x e qos part s)
  unfolding route_subscription
  route_subscription-keeps qos part s i =
      Ensures-bind (λ _. Unit {0}) (λ t. I t.1)
        (topic_to_keyexpr x e.topic_name s.config.scope part) _ (Ensures-any _)
        λ ke _.
          Ensures-bind (λ t. I t.1) (λ t. I t.1)
            (try_add_route_to_dds x s ke e.topic_name e.type_name e.type_info e.keyless _
              (some qos))
            _ (add s ke _ (some qos) i) λ t it. note t.0 t.1 it

  pub subscription_routes-keeps :
      (s : Plugin) → I s → Ensures (λ t. I t.1) (subscription_routes x e s)
  subscription_routes-keeps = subscription_routes-each x e I route_subscription-keeps
