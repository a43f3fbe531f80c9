-- ===== src/Plugin/Admin/Served.antt =====
-- zenoh-plugin-dds/src/lib.rs: a query of the admin space finds what each entry points to, in every
-- state that the local mode reaches.
use zenoh_plugin_dds.Base.{Bool, true, false, Option, none, some, List, [], ◌∷◌, inl, inr}
use zenoh_plugin_dds.Base.Tests.{Result, ok, err, Bool-cases, Option-cases, Ensures}
use zenoh_plugin_dds.Base.Text.{Str}
use zenoh_plugin_dds.Base.Map.{Map}
use zenoh_plugin_dds.Base.Map
use zenoh_plugin_dds.Qos.{Qos}
use zenoh_plugin_dds.World.{External, World, CongestionControl, Error}
use zenoh_plugin_dds.Dds.{TypeInfo}
use zenoh_plugin_dds.Entity.{
  DdsEntity, RouteStatus, routed, not_allowed, creation_failure, qos_conflict,
  discovered_publication, discovered_subscription,
}
use zenoh_plugin_dds.Config.{is_allowed}
use zenoh_plugin_dds.Route.FromDds.{RouteDdsZenoh, add_local_routed_writer}
use zenoh_plugin_dds.Route.ToDds.{RouteZenohDds, add_local_routed_reader}
use zenoh_plugin_dds.Plugin.{
  Plugin, from_dds_created, to_dds_existing, to_dds_created, to_dds_with_writer,
  try_add_route_from_dds, try_add_route_to_dds,
}
use zenoh_plugin_dds.Plugin.Local.{
  LocalEvent, discovery, publication_routes, subscription_routes, note_writer, note_reader,
}
use zenoh_plugin_dds.Plugin.Local.Keeps.{publication_routes-keeps, subscription_routes-keeps}
use zenoh_plugin_dds.Plugin.Admin.Registered.{modify-Known}
use zenoh_plugin_dds.Plugin.Admin.Entries.{IsServed, IsPlaced}
use zenoh_plugin_dds.Plugin.Admin.Routes.{
  moved_routes-IsServed, insert_route_from_dds-IsServed, insert_route_to_dds-IsServed,
}

module _ (x : External) (place : Bool → Str → Str × Str) where
  module _ (ke : Str) (s : Plugin) (i : IsServed x place s) where
    pub with_world-IsServed : (w : World) → IsServed x place (record s { world = w })
    with_world-IsServed w =
        moved_routes-IsServed x place s s.routes_from_dds s.routes_to_dds w (λ k v. v) (λ k v. v) i

    from_dds_created-IsServed :
        (m : Option (Result Error RouteDdsZenoh × World))
        → Ensures (λ r. IsServed x place r.1) (from_dds_created x ke s m)
    from_dds_created-IsServed none = tt
    from_dds_created-IsServed (some (ok route, w)) =
        insert_route_from_dds-IsServed x place ke route _ (with_world-IsServed w)
    from_dds_created-IsServed (some (err e, w)) = with_world-IsServed w

    pub try_add_route_from_dds-IsServed :
        (ton tyn : Str) (ti : Option TypeInfo) (keyless : Bool) (qos : Qos) (cc : CongestionControl)
        → Ensures
            (λ r. IsServed x place r.1)
            (try_add_route_from_dds x s ke ton tyn ti keyless qos cc)
    unfolding try_add_route_from_dds
    try_add_route_from_dds-IsServed ton tyn ti keyless qos cc =
        elim (Bool-cases (is_allowed x s.config ke)) [
          | inr f ↦ rw (f, try_add_route_from_dds) i
          | inl t ↦ elim (Option-cases (Map.get ke s.routes_from_dds)) [
            | inr (route, e) ↦ rw (t, e, try_add_route_from_dds) i
            | inl e ↦ rw (t, e, try_add_route_from_dds) (from_dds_created-IsServed _)
          ]
        ]

    to_dds_existing-IsServed :
        (m : Option (Result Error RouteZenohDds × World))
        → Ensures (λ r. IsServed x place r.1) (to_dds_existing x ke s m)
    to_dds_existing-IsServed none = tt
    to_dds_existing-IsServed (some (ok route, w)) =
        moved_routes-IsServed x place s s.routes_from_dds
          (Map.modify ke (λ _. route) s.routes_to_dds) w (λ k v. v)
          (λ k v. modify-Known ke k _ s.routes_to_dds v) i
    to_dds_existing-IsServed (some (err e, w)) = with_world-IsServed w

    to_dds_with_writer-IsServed :
        (bare : RouteZenohDds) (m : Option (Result Error RouteZenohDds × World))
        → Ensures (λ r. IsServed x place r.1) (to_dds_with_writer x ke s bare m)
    to_dds_with_writer-IsServed bare none = tt
    to_dds_with_writer-IsServed bare (some (ok route, w)) =
        insert_route_to_dds-IsServed x place ke route _ (with_world-IsServed w)
    to_dds_with_writer-IsServed bare (some (err e, w)) = with_world-IsServed _

    to_dds_created-IsServed :
        (ti : Option TypeInfo) (qos : Option Qos) (m : Option (Result Error RouteZenohDds × World))
        → Ensures (λ r. IsServed x place r.1) (to_dds_created x ke s ti qos m)
    to_dds_created-IsServed ti qos none = tt
    to_dds_created-IsServed ti qos (some (ok route, w)) = to_dds_with_writer-IsServed route _
    to_dds_created-IsServed ti qos (some (err e, w)) = with_world-IsServed w

    pub try_add_route_to_dds-IsServed :
        (ton tyn : Str) (ti : Option TypeInfo) (keyless transient : Bool) (qos : Option Qos)
        → Ensures
            (λ r. IsServed x place r.1)
            (try_add_route_to_dds x s ke ton tyn ti keyless transient qos)
    unfolding try_add_route_to_dds
    try_add_route_to_dds-IsServed ton tyn ti keyless transient qos =
        elim (Bool-cases (is_allowed x s.config ke)) [
          | inr f ↦ rw (f, try_add_route_to_dds) i
          | inl t ↦ elim (Option-cases (Map.get ke s.routes_to_dds)) [
            | inr (route, e) ↦ rw (t, e, try_add_route_to_dds) (to_dds_existing-IsServed _)
            | inl e ↦ rw (t, e, try_add_route_to_dds) (to_dds_created-IsServed ti qos _)
          ]
        ]

  note_writer-IsServed :
      (key : Str) (status : RouteStatus) (s : Plugin)
      → IsServed x place s
      → IsServed x place (note_writer key status s)
  note_writer-IsServed key (routed k) s i =
      moved_routes-IsServed x place s (Map.modify k (add_local_routed_writer key) s.routes_from_dds)
        s.routes_to_dds s.world (λ j v. modify-Known k j _ s.routes_from_dds v) (λ j v. v) i
  note_writer-IsServed key not_allowed s i = i
  note_writer-IsServed key (creation_failure e) s i = i
  note_writer-IsServed key qos_conflict s i = i

  pub note_reader-IsServed :
      (key : Str) (status : RouteStatus) (s : Plugin)
      → IsServed x place s
      → IsServed x place (note_reader key status s)
  note_reader-IsServed key (routed k) s i =
      moved_routes-IsServed x place s s.routes_from_dds
        (Map.modify k (add_local_routed_reader key) s.routes_to_dds) s.world (λ j v. v)
        (λ j v. modify-Known k j _ s.routes_to_dds v) i
  note_reader-IsServed key not_allowed s i = i
  note_reader-IsServed key (creation_failure e) s i = i
  note_reader-IsServed key qos_conflict s i = i

  -- A discovered endpoint has the participant and the topic of its key: DDS gives no key to two.
  abbrev pub ArePlaced : List LocalEvent → Type 0
  ArePlaced [] = Unit
  ArePlaced (discovery (discovered_publication e) ∷ events) =
      IsPlaced x place true e.key e × ArePlaced events
  ArePlaced (discovery (discovered_subscription e) ∷ events) =
      IsPlaced x place false e.key e × ArePlaced events
  ArePlaced (_ ∷ events) = ArePlaced events

  pub publication_routes-IsServed :
      (e : DdsEntity) (s : Plugin)
      → IsServed x place s
      → Ensures (λ t. IsServed x place t.1) (publication_routes x e s)
  publication_routes-IsServed e s i =
      publication_routes-keeps x e (IsServed x place)
        (λ s ke qos cc i.
          try_add_route_from_dds-IsServed ke s i e.topic_name e.type_name e.type_info e.keyless qos
            cc)
        (note_writer-IsServed e.key) s i

  pub subscription_routes-IsServed :
      (e : DdsEntity) (s : Plugin)
      → IsServed x place s
      → Ensures (λ t. IsServed x place t.1) (subscription_routes x e s)
  subscription_routes-IsServed e s i =
      subscription_routes-keeps x e (IsServed x place)
        (λ s ke transient qos i.
          try_add_route_to_dds-IsServed ke s i e.topic_name e.type_name e.type_info e.keyless
            transient qos)
        (note_reader-IsServed e.key) s i
