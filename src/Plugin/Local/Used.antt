-- ===== src/Plugin/Local/Used.antt =====
-- zenoh-plugin-dds/src/lib.rs, `run_local_discovery_mode`: a route is created for a local entity, and lists
-- it before the next event.
use zenoh_plugin_dds.Base.{◌≡◌, refl, sym, subst, Bool, true, Option, none, some, arith, inl, inr}
use zenoh_plugin_dds.Base.Tests.{Result, ok, err, Bool-cases, Option-cases, Ensures}
use zenoh_plugin_dds.Base.Text.{Str}
use zenoh_plugin_dds.Base.Set.{insert-not_empty}
use zenoh_plugin_dds.Base.Map.{Map}
use zenoh_plugin_dds.Base.Map
use zenoh_plugin_dds.Base.All.{All, At, All-insert_new, All-At, All-set, All-modify}
use zenoh_plugin_dds.Qos.{Qos}
use zenoh_plugin_dds.World.{External, World, Error, CongestionControl}
use zenoh_plugin_dds.Dds.{TypeInfo}
use zenoh_plugin_dds.Config.{is_allowed}
use zenoh_plugin_dds.Entity.{RouteStatus, routed, not_allowed, creation_failure, qos_conflict}
use zenoh_plugin_dds.Route.FromDds.{RouteDdsZenoh, has_local_routed_writer, add_local_routed_writer}
use zenoh_plugin_dds.Route.ToDds.{RouteZenohDds, has_local_routed_reader, add_local_routed_reader}
use zenoh_plugin_dds.Plugin.{
  Plugin, from_dds_created, to_dds_existing, to_dds_created, to_dds_with_writer, set_writer_if,
  try_add_route_from_dds, try_add_route_to_dds, insert_route_from_dds, insert_route_to_dds,
}
use zenoh_plugin_dds.Plugin.Local.{note_writer, note_reader}
use zenoh_plugin_dds.Plugin.Fwd.Writers.{HasWriter, NeverNull, Results, set_dds_writer-HasWriter}

-- The route serves a local Writer.
abbrev pub ServesLocalWriter : RouteDdsZenoh → Type 0
ServesLocalWriter r = has_local_routed_writer r ≡ true

-- The route serves a local Reader, with a DDS Writer.
abbrev pub ServesLocalReader : RouteZenohDds → Type 0
ServesLocalReader r = HasWriter r × (has_local_routed_reader r ≡ true)

pub record AreLocal (s : Plugin) : Type 0 where
  pub to_dds : All (λ k. ServesLocalReader) s.routes_to_dds
  pub from_dds : All (λ k. ServesLocalWriter) s.routes_from_dds

-- What `try_add_route_to_dds` leaves: a route with a DDS Writer, that does not list the Reader yet.
abbrev pub AfterTo : Str → RouteStatus × Plugin → Type 0
AfterTo ke (routed k, s) =
    (k ≡ ke)
    × All (At ke HasWriter ServesLocalReader) s.routes_to_dds
    × All (λ k. ServesLocalWriter) s.routes_from_dds
AfterTo ke (_, s) = AreLocal s

abbrev pub AfterFrom : Str → RouteStatus × Plugin → Type 0
AfterFrom ke (routed k, s) =
    (k ≡ ke)
    × All (At ke (λ r. Unit) ServesLocalWriter) s.routes_from_dds
    × All (λ k. ServesLocalReader) s.routes_to_dds
AfterFrom ke (_, s) = AreLocal s

module _ (x : External) (nonzero : NeverNull x) (ke : Str) (s : Plugin) (i : AreLocal s) where
  existing_keeps :
      (m : Option (Result Error RouteZenohDds × World))
      → Results HasWriter m
      → Ensures (AfterTo ke) (to_dds_existing x ke s m)
  existing_keeps none h = tt
  existing_keeps (some (ok route, w)) h =
      (refl, All-set ke HasWriter ServesLocalReader route s.routes_to_dds h i.to_dds, i.from_dds)
  existing_keeps (some (err e, w)) h = record { to_dds = i.to_dds; from_dds = i.from_dds }

  with_writer_keeps :
      (bare : RouteZenohDds) (m : Option (Result Error RouteZenohDds × World))
      → Map.get ke s.routes_to_dds ≡ none
      → Results HasWriter m
      → Ensures (AfterTo ke) (to_dds_with_writer x ke s bare m)
  unfolding insert_route_to_dds
  with_writer_keeps bare none new h = tt
  with_writer_keeps bare (some (ok route, w)) new h = (
    refl,
    All-insert_new ke HasWriter ServesLocalReader route s.routes_to_dds new h i.to_dds,
    i.from_dds,
  )
  with_writer_keeps bare (some (err e, w)) new h = record {
    to_dds = i.to_dds;
    from_dds = i.from_dds;
  }

  created_keeps :
      (ti : Option TypeInfo) (qos : Qos) (m : Option (Result Error RouteZenohDds × World))
      → Map.get ke s.routes_to_dds ≡ none
      → Ensures (AfterTo ke) (to_dds_created x ke s ti (some qos) m)
  created_keeps ti qos none new = tt
  created_keeps ti qos (some (ok route, w)) new =
      with_writer_keeps route (set_writer_if x s route ti (some qos) w) new
        (set_dds_writer-HasWriter x nonzero s.dp route ti qos w)
  created_keeps ti qos (some (err e, w)) new = record { to_dds = i.to_dds; from_dds = i.from_dds }

  pub try_add_route_to_dds-AfterTo :
      (ton tyn : Str) (ti : Option TypeInfo) (keyless transient : Bool) (qos : Qos)
      → Ensures (AfterTo ke) (try_add_route_to_dds x s ke ton tyn ti keyless transient (some qos))
  unfolding try_add_route_to_dds
  try_add_route_to_dds-AfterTo ton tyn ti keyless transient qos =
      elim (Bool-cases (is_allowed x s.config ke)) [
        | inr f ↦ rw (f, try_add_route_to_dds) i
        | inl t ↦ elim (Option-cases (Map.get ke s.routes_to_dds)) [
          | inr (r, e) ↦
              rw (t, e, try_add_route_to_dds)
                (existing_keeps _ (set_dds_writer-HasWriter x nonzero s.dp r ti qos s.world))
          | inl e ↦ rw (t, e, try_add_route_to_dds) (created_keeps ti qos _ e)
        ]
      ]

  from_created_keeps :
      (m : Option (Result Error RouteDdsZenoh × World))
      → Map.get ke s.routes_from_dds ≡ none
      → Ensures (AfterFrom ke) (from_dds_created x ke s m)
  unfolding insert_route_from_dds
  from_created_keeps none new = tt
  from_created_keeps (some (ok route, w)) new = (
    refl,
    All-insert_new ke (λ r. Unit) ServesLocalWriter route s.routes_from_dds new tt i.from_dds,
    i.to_dds,
  )
  from_created_keeps (some (err e, w)) new = record { to_dds = i.to_dds; from_dds = i.from_dds }

  pub try_add_route_from_dds-AfterFrom :
      (ton tyn : Str) (ti : Option TypeInfo) (keyless : Bool) (qos : Qos) (cc : CongestionControl)
      → Ensures (AfterFrom ke) (try_add_route_from_dds x s ke ton tyn ti keyless qos cc)
  unfolding try_add_route_from_dds
  try_add_route_from_dds-AfterFrom ton tyn ti keyless qos cc =
      elim (Bool-cases (is_allowed x s.config ke)) [
        | inr f ↦ rw (f, try_add_route_from_dds) i
        | inl t ↦ elim (Option-cases (Map.get ke s.routes_from_dds)) [
          | inr (r, e) ↦
              rw (t, e, try_add_route_from_dds)
                (
                  refl,
                  All-At ke (λ r. Unit) ServesLocalWriter s.routes_from_dds (λ v q. tt) i.from_dds,
                  i.to_dds,
                )
          | inl e ↦ rw (t, e, try_add_route_from_dds) (from_created_keeps _ e)
        ]
      ]

module _ (key : Str) where
  local_reader-Serves :
      (r : RouteZenohDds) → HasWriter r → ServesLocalReader (add_local_routed_reader key r)
  unfolding has_local_routed_reader add_local_routed_reader
  local_reader-Serves r h = (h, ground (arith, insert-not_empty key r.local_routed_readers))

  local_writer-Serves : (r : RouteDdsZenoh) → ServesLocalWriter (add_local_routed_writer key r)
  unfolding has_local_routed_writer add_local_routed_writer
  local_writer-Serves r = ground (arith, insert-not_empty key r.local_routed_writers)

  pub note_reader-AreLocal :
      (ke : Str) (status : RouteStatus) (s : Plugin)
      → AfterTo ke (status, s)
      → AreLocal (note_reader key status s)
  note_reader-AreLocal ke (routed k) s (same, to, from) = record {
    to_dds =
        All-modify k HasWriter ServesLocalReader (add_local_routed_reader key) s.routes_to_dds
          local_reader-Serves
          (subst (λ k. All (At k HasWriter ServesLocalReader) s.routes_to_dds) (sym same) to);
    from_dds = from;
  }
  note_reader-AreLocal ke not_allowed s i = i
  note_reader-AreLocal ke (creation_failure e) s i = i
  note_reader-AreLocal ke qos_conflict s i = i

  pub note_writer-AreLocal :
      (ke : Str) (status : RouteStatus) (s : Plugin)
      → AfterFrom ke (status, s)
      → AreLocal (note_writer key status s)
  note_writer-AreLocal ke (routed k) s (same, from, to) = record {
    from_dds =
        All-modify k (λ r. Unit) ServesLocalWriter (add_local_routed_writer key) s.routes_from_dds
          (λ r _. local_writer-Serves r)
          (subst (λ k. All (At k (λ r. Unit) ServesLocalWriter) s.routes_from_dds) (sym same) from);
    to_dds = to;
  }
  note_writer-AreLocal ke not_allowed s i = i
  note_writer-AreLocal ke (creation_failure e) s i = i
  note_writer-AreLocal ke qos_conflict s i = i
