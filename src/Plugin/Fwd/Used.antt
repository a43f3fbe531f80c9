-- ===== src/Plugin/Fwd/Used.antt =====
-- zenoh-plugin-dds/src/lib.rs, `run_fwd_discovery_mode`: in every state that the loop reaches, each route
-- is used, and has a DDS Writer just when a remote Writer needs it.
use zenoh_plugin_dds.Base.{◌≡◌, refl, subst, Bool, true, Option, none, some, arith, inl, inr}
use zenoh_plugin_dds.Base.Tests.{Result, ok, err, Bool-cases, Option-cases, Ensures}
use zenoh_plugin_dds.Base.Text.{Str}
use zenoh_plugin_dds.Base.Map.{Map}
use zenoh_plugin_dds.Base.Map
use zenoh_plugin_dds.Base.All.{All, At, All-get, All-insert_new, All-At, All-set}
use zenoh_plugin_dds.Qos.{Qos}
use zenoh_plugin_dds.World.{External, World, Error, CongestionControl}
use zenoh_plugin_dds.Dds.{TypeInfo}
use zenoh_plugin_dds.Config.{is_allowed}
use zenoh_plugin_dds.Entity.{RouteStatus, routed}
use zenoh_plugin_dds.Route.FromDds.{RouteDdsZenoh, has_remote_routed_reader}
use zenoh_plugin_dds.Route.ToDds.{RouteZenohDds, has_remote_routed_writer}
use zenoh_plugin_dds.Route.ToDds
use zenoh_plugin_dds.Plugin.{
  Plugin, from_dds_created, to_dds_existing, to_dds_created, to_dds_with_writer, set_writer_if,
  try_add_route_from_dds, try_add_route_to_dds, insert_route_from_dds, insert_route_to_dds,
}
use zenoh_plugin_dds.Plugin.Fwd.Writers.{
  IsUsed, HasWriter, HasWriterIfRouted, NeverNull, Results, set_dds_writer-HasWriter,
}

-- The route serves a remote Reader.
abbrev pub ServesReader : RouteDdsZenoh → Type 0
ServesReader r = has_remote_routed_reader r ≡ true

pub record AreUsed (s : Plugin) : Type 0 where
  pub to_dds : All (λ k. IsUsed) s.routes_to_dds
  pub from_dds : All (λ k. ServesReader) s.routes_from_dds

-- What `try_add_route_to_dds` leaves: a route that is not noted yet, but has what the caller needs.
abbrev pub Needed : Option Qos → RouteZenohDds → Type 0
Needed none = HasWriterIfRouted
Needed (some qos) = HasWriter

abbrev pub AfterTo : Str → Option Qos → RouteStatus × Plugin → Type 0
AfterTo ke qos (routed k, s) =
    (k ≡ ke)
    × All (At ke (Needed qos) IsUsed) s.routes_to_dds
    × All (λ k. ServesReader) s.routes_from_dds
AfterTo ke qos (_, s) = AreUsed s

abbrev pub AfterFrom : Str → RouteStatus × Plugin → Type 0
AfterFrom ke (routed k, s) =
    (k ≡ ke)
    × All (At ke (λ r. Unit) ServesReader) s.routes_from_dds
    × All (λ k. IsUsed) s.routes_to_dds
AfterFrom ke (_, s) = AreUsed s

module _ (x : External) (nonzero : NeverNull x) (ke : Str) (s : Plugin) (i : AreUsed s) where
  set_writer_if-Needed :
      (r : RouteZenohDds) (ti : Option TypeInfo) (qos : Option Qos) (w : World)
      → HasWriterIfRouted r
      → Results (Needed qos) (set_writer_if x s r ti qos w)
  set_writer_if-Needed r ti none w h = h
  set_writer_if-Needed r ti (some qos) w h = set_dds_writer-HasWriter x nonzero s.dp r ti qos w

  existing_keeps :
      (qos : Option Qos) (m : Option (Result Error RouteZenohDds × World))
      → Results (Needed qos) m
      → Ensures (AfterTo ke qos) (to_dds_existing x ke s m)
  existing_keeps qos none h = tt
  existing_keeps qos (some (ok route, w)) h =
      (refl, All-set ke (Needed qos) IsUsed route s.routes_to_dds h i.to_dds, i.from_dds)
  existing_keeps qos (some (err e, w)) h = record { to_dds = i.to_dds; from_dds = i.from_dds }

  with_writer_keeps :
      (bare : RouteZenohDds) (qos : Option Qos) (m : Option (Result Error RouteZenohDds × World))
      → Map.get ke s.routes_to_dds ≡ none
      → Results (Needed qos) m
      → Ensures (AfterTo ke qos) (to_dds_with_writer x ke s bare m)
  unfolding insert_route_to_dds
  with_writer_keeps bare qos none new h = tt
  with_writer_keeps bare qos (some (ok route, w)) new h =
      (refl, All-insert_new ke (Needed qos) IsUsed route s.routes_to_dds new h i.to_dds, i.from_dds)
  with_writer_keeps bare qos (some (err e, w)) new h = record {
    to_dds = i.to_dds;
    from_dds = i.from_dds;
  }

  created_keeps :
      (ti : Option TypeInfo) (qos : Option Qos) (m : Option (Result Error RouteZenohDds × World))
      → Map.get ke s.routes_to_dds ≡ none
      → Results HasWriterIfRouted m
      → Ensures (AfterTo ke qos) (to_dds_created x ke s ti qos m)
  created_keeps ti qos none new h = tt
  created_keeps ti qos (some (ok route, w)) new h =
      with_writer_keeps route qos (set_writer_if x s route ti qos w) new
        (set_writer_if-Needed route ti qos w h)
  created_keeps ti qos (some (err e, w)) new h = record { to_dds = i.to_dds; from_dds = i.from_dds }

  new-HasWriterIfRouted :
      (querying : Bool) (ton tyn : Str) (keyless : Bool) (w : World)
      → Results HasWriterIfRouted (ToDds.new x ke querying ton tyn keyless w)
  unfolding ToDds.new has_remote_routed_writer
  new-HasWriterIfRouted querying ton tyn keyless w = ground arith

  pub try_add_route_to_dds-AfterTo :
      (ton tyn : Str) (ti : Option TypeInfo) (keyless transient : Bool) (qos : Option Qos)
      → Ensures (AfterTo ke qos) (try_add_route_to_dds x s ke ton tyn ti keyless transient qos)
  unfolding try_add_route_to_dds
  try_add_route_to_dds-AfterTo ton tyn ti keyless transient qos =
      elim (Bool-cases (is_allowed x s.config ke)) [
        | inr f ↦ rw (f, try_add_route_to_dds) i
        | inl t ↦ elim (Option-cases (Map.get ke s.routes_to_dds)) [
          | inr (r, e) ↦
              let (j, u) =
                subst (Ensures (λ r. (j : Str) × IsUsed r)) e
                  (All-get (λ k. IsUsed) ke s.routes_to_dds i.to_dds) in
              rw (t, e, try_add_route_to_dds)
                (existing_keeps qos _ (set_writer_if-Needed r ti qos s.world u.writer))
          | inl e ↦
              rw (t, e, try_add_route_to_dds)
                (created_keeps ti qos _ e (new-HasWriterIfRouted transient ton tyn keyless s.world))
        ]
      ]

  from_created_keeps :
      (m : Option (Result Error RouteDdsZenoh × World))
      → Map.get ke s.routes_from_dds ≡ none
      → Ensures (AfterFrom ke) (from_dds_created x ke s m)
  unfolding insert_route_from_dds
  from_created_keeps none new = tt
  from_created_keeps (some (ok route, w)) new = (
    refl,
    All-insert_new ke (λ r. Unit) ServesReader route s.routes_from_dds new tt i.from_dds,
    i.to_dds,
  )
  from_created_keeps (some (err e, w)) new = record { to_dds = i.to_dds; from_dds = i.from_dds }

  pub try_add_route_from_dds-AfterFrom :
      (ton tyn : Str) (ti : Option TypeInfo) (keyless : Bool) (qos : Qos) (cc : CongestionControl)
      → Ensures (AfterFrom ke) (try_add_route_from_dds x s ke ton tyn ti keyless qos cc)
  unfolding try_add_route_from_dds
  try_add_route_from_dds-AfterFrom ton tyn ti keyless qos cc =
      elim (Bool-cases (is_allowed x s.config ke)) [
        | inr f ↦ rw (f, try_add_route_from_dds) i
        | inl t ↦ elim (Option-cases (Map.get ke s.routes_from_dds)) [
          | inr (r, e) ↦
              rw (t, e, try_add_route_from_dds)
                (
                  refl,
                  All-At ke (λ r. Unit) ServesReader s.routes_from_dds (λ v q. tt) i.from_dds,
                  i.to_dds,
                )
          | inl e ↦ rw (t, e, try_add_route_from_dds) (from_created_keeps _ e)
        ]
      ]
