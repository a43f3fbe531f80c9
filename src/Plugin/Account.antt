-- ===== src/Plugin/Account.antt =====
-- zenoh-plugin-dds/src/lib.rs: the DDS readers and writers that the plugin's routes hold, while
-- routes are created.
use zenoh_plugin_dds.Base.{ℕ, suc, ◌+◌, ◌≡◌, refl, Bool, Option, none, some, arith, inl, inr}
use zenoh_plugin_dds.Base.Tests.{Result, ok, err, Bool-cases, Option-cases, Ensures}
use zenoh_plugin_dds.Base.Int.{ℤ, pos}
use zenoh_plugin_dds.Base.Text.{Str}
use zenoh_plugin_dds.Base.Map.{Map, Distinct}
use zenoh_plugin_dds.Base.Map
use zenoh_plugin_dds.Base.Total.{total, total-insert, total-modify}
use zenoh_plugin_dds.Qos.{Qos}
use zenoh_plugin_dds.World.{External, World, Error, CongestionControl}
use zenoh_plugin_dds.Dds.{TypeInfo}
use zenoh_plugin_dds.Dds.Handles.{created, deleted, is_handle, Makes}
use zenoh_plugin_dds.Config.{is_allowed}
use zenoh_plugin_dds.Route.FromDds.{RouteDdsZenoh}
use zenoh_plugin_dds.Route.FromDds.Laws.{new-Makes, route_holds}
use zenoh_plugin_dds.Route.ToDds.{RouteZenohDds, dds_entity_null}
use zenoh_plugin_dds.Route.ToDds
use zenoh_plugin_dds.Route.ToDds.Laws.{
  New, Sets, new-New, set_dds_writer-Sets, delete_dds_writer-deleted,
}
use zenoh_plugin_dds.Plugin.{
  Plugin, insert_route_from_dds, insert_route_to_dds, from_dds_created, to_dds_existing,
  to_dds_created, to_dds_with_writer, set_writer_if, try_add_route_from_dds, try_add_route_to_dds,
}

-- How many routes hold the handle `h`.
unfoldable pub held : ℤ → Plugin → ℕ
held h s =
    total (λ r. is_handle h r.dds_reader) s.routes_from_dds
    + total (λ r. is_handle h r.dds_writer) s.routes_to_dds

-- Every creation of the handle is matched by one request to delete it, by one route that holds it,
-- or by one of the `others` that hold it.
pub record IsAccounted (others : ℕ) (h : ℤ) (s : Plugin) : Type 0 where
  pub balanced : created h s.world ≡ deleted h s.world + held h s + others
  pub distinct_from : Distinct s.routes_from_dds
  pub distinct_to : Distinct s.routes_to_dds

module _ (n : ℕ) where
  abbrev handle : ℤ
  handle = pos (suc n)

  pub no_handle : (h : ℤ) → h ≡ dds_entity_null → is_handle handle h ≡ 0
  no_handle h e = rw e (ground arith)

  module _ (others : ℕ) (x : External) (ke : Str) (s : Plugin)
      (acc : IsAccounted others handle s) where
    from_dds_created-IsAccounted :
        (m : Option (Result Error RouteDdsZenoh × World))
        → Map.get ke s.routes_from_dds ≡ none
        → Makes handle (route_holds handle) s.world m
        → Ensures (λ r. IsAccounted others handle r.1) (from_dds_created x ke s m)
    unfolding held insert_route_from_dds
    from_dds_created-IsAccounted none new h = tt
    from_dds_created-IsAccounted (some (ok route, w)) new h = record {
      balanced = omega (
        arith,
        acc.balanced,
        h.0,
        h.1,
        total-insert (λ r. is_handle handle r.dds_reader) ke route s.routes_from_dds new,
      );
      distinct_from = Map.insert-Distinct ke route s.routes_from_dds acc.distinct_from;
      distinct_to = acc.distinct_to;
    }
    from_dds_created-IsAccounted (some (err e, w)) new h = record {
      balanced = omega (arith, acc.balanced, h.0, h.1);
      distinct_from = acc.distinct_from;
      distinct_to = acc.distinct_to;
    }

    -- An action on a route's Writer accounts for the handle, with the route `r` in the map.
    to_dds_existing-IsAccounted :
        (m : Option (Result Error RouteZenohDds × World)) (r : RouteZenohDds)
        → Map.get ke s.routes_to_dds ≡ some r
        → Sets handle r s.world m
        → Ensures (λ t. IsAccounted others handle t.1) (to_dds_existing x ke s m)
    unfolding held
    to_dds_existing-IsAccounted none r old h = tt
    to_dds_existing-IsAccounted (some (ok route, w)) r old h = record {
      balanced = omega (
        arith,
        acc.balanced,
        h.0,
        h.1,
        total-modify (λ r. is_handle handle r.dds_writer) ke r route s.routes_to_dds acc.distinct_to
            old,
      );
      distinct_from = acc.distinct_from;
      distinct_to = Map.modify-Distinct ke (λ _. route) s.routes_to_dds acc.distinct_to;
    }
    to_dds_existing-IsAccounted (some (err e, w)) r old h = record {
      balanced = omega (arith, acc.balanced, h.0, h.1);
      distinct_from = acc.distinct_from;
      distinct_to = acc.distinct_to;
    }

    to_dds_with_writer-IsAccounted :
        (m : Option (Result Error RouteZenohDds × World)) (bare : RouteZenohDds) (w : World)
        → Map.get ke s.routes_to_dds ≡ none
        → bare.dds_writer ≡ dds_entity_null
        → (created handle w ≡ created handle s.world) × (deleted handle w ≡ deleted handle s.world)
        → Sets handle bare w m
        → Ensures (λ t. IsAccounted others handle t.1) (to_dds_with_writer x ke s bare m)
    unfolding held insert_route_to_dds ToDds.drop_route
    to_dds_with_writer-IsAccounted none bare w new null same h = tt
    to_dds_with_writer-IsAccounted (some (ok route, w')) bare w new null same h = record {
      balanced = omega (
        arith,
        acc.balanced,
        h.0,
        h.1,
        same.0,
        same.1,
        no_handle bare.dds_writer null,
        total-insert (λ r. is_handle handle r.dds_writer) ke route s.routes_to_dds new,
      );
      distinct_from = acc.distinct_from;
      distinct_to = Map.insert-Distinct ke route s.routes_to_dds acc.distinct_to;
    }
    to_dds_with_writer-IsAccounted (some (err e, w')) bare w new null same h = record {
      balanced =
          let gone = delete_dds_writer-deleted n bare w' x in
          omega (
            arith,
            acc.balanced,
            h.0,
            h.1,
            same.0,
            same.1,
            no_handle bare.dds_writer null,
            gone.1,
            gone.2,
          );
      distinct_from = acc.distinct_from;
      distinct_to = acc.distinct_to;
    }

    set_writer_if-Sets :
        (route : RouteZenohDds) (ti : Option TypeInfo) (qos : Option Qos) (w : World)
        → Sets handle route w (set_writer_if x s route ti qos w)
    set_writer_if-Sets route ti none w = (refl, refl)
    set_writer_if-Sets route ti (some qos) w = set_dds_writer-Sets n route w x s.dp ti qos

    to_dds_created-IsAccounted :
        (m : Option (Result Error RouteZenohDds × World)) (ti : Option TypeInfo) (qos : Option Qos)
        → Map.get ke s.routes_to_dds ≡ none
        → New handle s.world m
        → Ensures (λ t. IsAccounted others handle t.1) (to_dds_created x ke s ti qos m)
    unfolding held
    to_dds_created-IsAccounted none ti qos new h = tt
    to_dds_created-IsAccounted (some (ok route, w)) ti qos new h =
        to_dds_with_writer-IsAccounted (set_writer_if x s route ti qos w) route w new h.0 (h.1, h.2)
          (set_writer_if-Sets route ti qos w)
    to_dds_created-IsAccounted (some (err e, w)) ti qos new h = record {
      balanced = omega (arith, acc.balanced, h.1, h.2);
      distinct_from = acc.distinct_from;
      distinct_to = acc.distinct_to;
    }

    -- The creation of a route from DDS keeps the account.
    pub try_add_route_from_dds-IsAccounted :
        (ton tyn : Str) (ti : Option TypeInfo) (keyless : Bool) (qos : Qos) (cc : CongestionControl)
        → Ensures
            (λ t. IsAccounted others handle t.1)
            (try_add_route_from_dds x s ke ton tyn ti keyless qos cc)
    unfolding try_add_route_from_dds
    try_add_route_from_dds-IsAccounted ton tyn ti keyless qos cc =
        elim (Bool-cases (is_allowed x s.config ke)) [
          | inr e ↦ rw (e, try_add_route_from_dds) acc
          | inl e ↦ elim (Option-cases (Map.get ke s.routes_from_dds)) [
            | inr (r, old) ↦ rw (e, old, try_add_route_from_dds) acc
            | inl new ↦
                rw (e, new, try_add_route_from_dds)
                  (from_dds_created-IsAccounted _ new
                    (new-Makes x s.dp s.zid s.config ton tyn ti keyless qos ke cc (suc n) s.world))
          ]
        ]

    -- So does the creation of a route to DDS, and the setting of its Writer.
    pub try_add_route_to_dds-IsAccounted :
        (ton tyn : Str) (ti : Option TypeInfo) (keyless transient : Bool) (qos : Option Qos)
        → Ensures
            (λ t. IsAccounted others handle t.1)
            (try_add_route_to_dds x s ke ton tyn ti keyless transient qos)
    unfolding try_add_route_to_dds
    try_add_route_to_dds-IsAccounted ton tyn ti keyless transient qos =
        elim (Bool-cases (is_allowed x s.config ke)) [
          | inr e ↦ rw (e, try_add_route_to_dds) acc
          | inl e ↦ elim (Option-cases (Map.get ke s.routes_to_dds)) [
            | inr (r, old) ↦
                rw (e, old, try_add_route_to_dds)
                  (to_dds_existing-IsAccounted _ r old (set_writer_if-Sets r ti qos s.world))
            | inl new ↦
                rw (e, new, try_add_route_to_dds)
                  (to_dds_created-IsAccounted _ ti qos new
                    (new-New x handle ke transient ton tyn keyless s.world))
          ]
        ]
