-- ===== src/Plugin/Ready.antt =====
-- zenoh-plugin-dds/src/lib.rs: what the handlers of discovery rely on, through the creation of routes.
use zenoh_plugin_dds.Base.{◌≡◌, refl, subst, arith, Bool, true, false, Option, none, some, inl, inr}
use zenoh_plugin_dds.Base.Tests.{Result, ok, err, Bool-cases, Option-cases, Yields, Ensures}
use zenoh_plugin_dds.Base.Text.{Str}
use zenoh_plugin_dds.Base.Map.{Map}
use zenoh_plugin_dds.Base.Map
use zenoh_plugin_dds.Qos.{Qos}
use zenoh_plugin_dds.World.{pure, External, World, CongestionControl, Error}
use zenoh_plugin_dds.Dds.{TypeInfo, create_forwarding_dds_writer}
use zenoh_plugin_dds.Entity.{DdsEntity, DdsParticipant}
use zenoh_plugin_dds.Config.{Config, is_allowed}
use zenoh_plugin_dds.Keyexpr.{get_participant_admin_keyexpr, get_entity_admin_keyexpr}
use zenoh_plugin_dds.Route.FromDds.{RouteDdsZenoh}
use zenoh_plugin_dds.Route.ToDds.{RouteZenohDds, dds_entity_null}
use zenoh_plugin_dds.Route.ToDds
use zenoh_plugin_dds.Plugin.{
  Plugin, AdminRef, insert_route_from_dds, insert_route_to_dds, from_dds_created, to_dds_existing,
  to_dds_created, to_dds_with_writer, set_writer_if, try_add_route_from_dds, try_add_route_to_dds,
}
use zenoh_plugin_dds.Plugin.Fwd.Writers.{Results, Results-bind, Results-any}
use zenoh_plugin_dds.Base.All.{All, All-get, All-insert, All-change}
use zenoh_plugin_dds.Base.Int.{ℤ, eqb_ℤ}
use zenoh_plugin_dds.Dds.Returns.{IsCString}
use zenoh_plugin_dds.Plugin.Returns.{
  HasPeriods, HasCNames, from_dds_new-Returns, to_dds_new-Returns, set_dds_writer-Returns,
}

-- What the handlers of the next event rely on: the admin key of each known entity, which its removal
-- computes, is a key expression; the names of each route to DDS, with which its Writer is created, hold
-- no zero byte; and the configuration is the given one.
pub record IsReady (x : External) (config : Config) (s : Plugin) : Type 0 where
  pub config_is : s.config ≡ config
  pub participants :
      (k : Str) (e : DdsParticipant)
      → Map.get k s.discovered_participants ≡ some e
      → (a : Str) × (get_participant_admin_keyexpr x e ≡ some a)
  pub writers :
      (k : Str) (e : DdsEntity)
      → Map.get k s.discovered_writers ≡ some e
      → (a : Str) × (get_entity_admin_keyexpr x e true ≡ some a)
  pub readers :
      (k : Str) (e : DdsEntity)
      → Map.get k s.discovered_readers ≡ some e
      → (a : Str) × (get_entity_admin_keyexpr x e false ≡ some a)
  pub route_names : All (λ k. HasCNames) s.routes_to_dds

module _ (x : External) (config : Config) where
  -- The routes, the admin space and the world may change, if the names of the routes stay valid.
  pub with_routes :
      (s : Plugin) (from : Map RouteDdsZenoh) (to : Map RouteZenohDds) (adm : Map AdminRef)
      (w : World)
      → All (λ k. HasCNames) to
      → IsReady x config s
      → IsReady x config
          (record s { routes_from_dds = from; routes_to_dds = to; admin_space = adm; world = w })
  with_routes s from to adm w names r = record {
    config_is = r.config_is;
    participants = r.participants;
    writers = r.writers;
    readers = r.readers;
    route_names = names;
  }

  module _ (ke : Str) (s : Plugin) (r : IsReady x config s) where
    from_dds_created-IsReady :
        (m : Option (Result Error RouteDdsZenoh × World)) (t : Result Error RouteDdsZenoh × World)
        → m ≡ some t
        → Yields (λ r. IsReady x config r.1) (from_dds_created x ke s m)
    unfolding insert_route_from_dds
    from_dds_created-IsReady none t e = absurd cc
    from_dds_created-IsReady (some (ok route, w)) t e =
        (_, refl, with_routes s _ _ _ _ r.route_names r)
    from_dds_created-IsReady (some (err er, w)) t e =
        (_, refl, with_routes s _ _ _ _ r.route_names r)

    pub try_add_route_from_dds-IsReady :
        (ton tyn : Str) (ti : Option TypeInfo) (keyless : Bool) (qos : Qos) (cc : CongestionControl)
        → HasPeriods x config.max_frequencies
        → IsCString ton
        → IsCString tyn
        → Yields
            (λ r. IsReady x config r.1)
            (try_add_route_from_dds x s ke ton tyn ti keyless qos cc)
    unfolding try_add_route_from_dds
    try_add_route_from_dds-IsReady ton tyn ti keyless qos cc periods cton ctyn =
        elim (Bool-cases (is_allowed x s.config ke)) [
          | inr f ↦ rw (f, try_add_route_from_dds) (_, refl, r)
          | inl t ↦ elim (Option-cases (Map.get ke s.routes_from_dds)) [
            | inr (route, e) ↦ rw (t, e, try_add_route_from_dds) (_, refl, r)
            | inl e ↦
                let (res, made) =
                  from_dds_new-Returns x s.dp s.zid s.config (rw r.config_is periods) ton tyn ti
                    keyless qos ke cc cton ctyn s.world in
                rw (t, e, try_add_route_from_dds) (from_dds_created-IsReady _ res made)
          ]
        ]

    -- A result with a route that has valid names.
    abbrev GivesRoute : Option (Result Error RouteZenohDds × World) → Type 0
    GivesRoute m = ((t : Result Error RouteZenohDds × World) × (m ≡ some t)) × Results HasCNames m

    to_dds_existing-IsReady :
        (m : Option (Result Error RouteZenohDds × World))
        → GivesRoute m
        → Yields (λ r. IsReady x config r.1) (to_dds_existing x ke s m)
    to_dds_existing-IsReady none ((t, e), names) = absurd cc
    to_dds_existing-IsReady (some (ok route, w)) ((t, e), names) = (
      _,
      refl,
      with_routes s _ _ _ _
          (All-change HasCNames ke (λ _. route) s.routes_to_dds (λ v p. names) r.route_names) r,
    )
    to_dds_existing-IsReady (some (err er, w)) ((t, e), names) =
        (_, refl, with_routes s _ _ _ _ r.route_names r)

    to_dds_with_writer-IsReady :
        (bare : RouteZenohDds) (m : Option (Result Error RouteZenohDds × World))
        → GivesRoute m
        → Yields (λ r. IsReady x config r.1) (to_dds_with_writer x ke s bare m)
    unfolding insert_route_to_dds
    to_dds_with_writer-IsReady bare none ((t, e), names) = absurd cc
    to_dds_with_writer-IsReady bare (some (ok route, w)) ((t, e), names) = (
      _,
      refl,
      with_routes s _ _ _ _ (All-insert HasCNames ke route s.routes_to_dds names r.route_names) r,
    )
    to_dds_with_writer-IsReady bare (some (err er, w)) ((t, e), names) =
        (_, refl, with_routes s _ _ _ _ r.route_names r)

    set_dds_writer-names :
        (route : RouteZenohDds) (ti : Option TypeInfo) (qos : Qos) (w : World)
        → HasCNames route
        → Results HasCNames (ToDds.set_dds_writer x s.dp route ti qos w)
    unfolding ToDds.set_dds_writer
    set_dds_writer-names route ti qos w names =
        elim (Bool-cases (eqb_ℤ route.dds_writer dds_entity_null)) [
          | inr f ↦ rw (f, ToDds.set_dds_writer) names
          | inl t ↦
              rw (t, ToDds.set_dds_writer)
                (Results-bind {A = ℤ} (λ _. Unit {0}) HasCNames
                  (λ dw. pure (record route { dds_writer = dw })) (λ dw w' h. names)
                  (create_forwarding_dds_writer x s.dp route.topic_name route.topic_type ti
                    route.keyless qos w)
                  (Results-any _))
        ]

    set_writer_if-GivesRoute :
        (route : RouteZenohDds) (ti : Option TypeInfo) (qos : Option Qos) (w : World)
        → HasCNames route
        → GivesRoute (set_writer_if x s route ti qos w)
    set_writer_if-GivesRoute route ti none w names = ((_, refl), names)
    set_writer_if-GivesRoute route ti (some qos) w names = (
      set_dds_writer-Returns x s.dp route ti qos names w,
      set_dds_writer-names route ti qos w names,
    )

    to_dds_created-IsReady :
        (ti : Option TypeInfo) (qos : Option Qos) (m : Option (Result Error RouteZenohDds × World))
        → GivesRoute m
        → Yields (λ r. IsReady x config r.1) (to_dds_created x ke s ti qos m)
    to_dds_created-IsReady ti qos none ((t, e), names) = absurd cc
    to_dds_created-IsReady ti qos (some (ok route, w)) ((t, e), names) =
        to_dds_with_writer-IsReady route _ (set_writer_if-GivesRoute route ti qos w names)
    to_dds_created-IsReady ti qos (some (err er, w)) ((t, e), names) =
        (_, refl, with_routes s _ _ _ _ r.route_names r)

    new-names :
        (transient : Bool) (ton tyn : Str) (keyless : Bool) (w : World)
        → IsCString ton
        → IsCString tyn
        → Results HasCNames (ToDds.new x ke transient ton tyn keyless w)
    unfolding ToDds.new
    new-names transient ton tyn keyless w cton ctyn = ground (arith, cton, ctyn)

    pub try_add_route_to_dds-IsReady :
        (ton tyn : Str) (ti : Option TypeInfo) (keyless transient : Bool) (qos : Option Qos)
        → IsCString ton
        → IsCString tyn
        → Yields
            (λ r. IsReady x config r.1)
            (try_add_route_to_dds x s ke ton tyn ti keyless transient qos)
    unfolding try_add_route_to_dds
    try_add_route_to_dds-IsReady ton tyn ti keyless transient qos cton ctyn =
        elim (Bool-cases (is_allowed x s.config ke)) [
          | inr f ↦ rw (f, try_add_route_to_dds) (_, refl, r)
          | inl t ↦ elim (Option-cases (Map.get ke s.routes_to_dds)) [
            | inr (route, e) ↦
                let (j, names) =
                  subst (Ensures (λ r. (j : Str) × HasCNames r)) e
                    (All-get (λ k. HasCNames) ke s.routes_to_dds r.route_names) in
                rw (t, e, try_add_route_to_dds)
                  (to_dds_existing-IsReady _ (set_writer_if-GivesRoute route ti qos s.world names))
            | inl e ↦
                rw (t, e, try_add_route_to_dds)
                  (to_dds_created-IsReady ti qos _ (
                    to_dds_new-Returns x ke transient ton tyn keyless s.world,
                    new-names transient ton tyn keyless s.world cton ctyn,
                  ))
          ]
        ]
