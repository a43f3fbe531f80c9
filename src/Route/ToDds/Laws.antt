-- ===== src/Route/ToDds/Laws.antt =====
-- zenoh-plugin-dds/src/route_zenoh_dds.rs: the DDS Writer of a route through its life.
use zenoh_plugin_dds.Base.{ℕ, suc, ◌+◌, ◌≡◌, refl, Bool, true, Option, none, some, arith, inl, inr}
use zenoh_plugin_dds.Base.Tests.{Result, ok, err, Bool-cases}
use zenoh_plugin_dds.Base.Int.{ℤ, pos, negsuc, eqb_ℤ}
use zenoh_plugin_dds.Base.Text.{Str}
use zenoh_plugin_dds.Qos.{Qos}
use zenoh_plugin_dds.World.{External, World, Error, run_and_log, perform, pure}
use zenoh_plugin_dds.Dds.{TypeInfo, create_forwarding_dds_writer}
use zenoh_plugin_dds.Dds.Handles.{
  created, deleted, is_handle, holds, Makes, create_forwarding_dds_writer-Makes,
  run_and_log-delete_dds_entity,
}
use zenoh_plugin_dds.Route.ToDds.{
  RouteZenohDds, dds_entity_null, new, query_historical_publications, set_dds_writer,
  delete_dds_writer,
}

-- What a result says of the Writer: a new route has none.
abbrev pub HasNoWriter : Result Error RouteZenohDds → Type 0
HasNoWriter (ok r) = r.dds_writer ≡ dds_entity_null
HasNoWriter (err e) = Unit

abbrev pub New : ℤ → World → Option (Result Error RouteZenohDds × World) → Type 0
New h w none = Unit
New h w (some (r, w')) = HasNoWriter r × (created h w' ≡ created h w) × (deleted h w' ≡ deleted h w)

pub new-New :
    (x : External) (h : ℤ) (ke : Str) (querying : Bool) (ton tyn : Str) (keyless : Bool) (w : World)
    → New h w (new x ke querying ton tyn keyless w)
unfolding new created deleted
new-New x h ke querying ton tyn keyless w = ground arith

-- The account of one positive handle `h` while a Writer is set: what was created is what was held
-- and is held now, and nothing is deleted.
abbrev pub Sets : ℤ → RouteZenohDds → World → Option (Result Error RouteZenohDds × World) → Type 0
Sets h r w none = Unit
Sets h r w (some (ok r', w')) =
    (created h w' + is_handle h r.dds_writer ≡ created h w + is_handle h r'.dds_writer)
    × (deleted h w' ≡ deleted h w)
Sets h r w (some (err e, w')) = (created h w' ≡ created h w) × (deleted h w' ≡ deleted h w)

module _ (n : ℕ) (r : RouteZenohDds) (w : World) where
  set_from :
      (m : Option (Result Error ℤ × World))
      → is_handle (pos (suc n)) r.dds_writer ≡ 0
      → Makes (pos (suc n)) (holds (pos (suc n))) w m
      → Sets (pos (suc n)) r w (elim m [
        | none ↦ none
        | some (ok dw, w') ↦ pure (record r { dds_writer = dw }) w'
        | some (err e, w') ↦ some (err e, w')
      ])
  set_from none e h = tt
  set_from (some (ok dw, w')) e h = (omega arith, h.1)
  set_from (some (err er, w')) e h = (omega arith, h.1)

  null_is_no_handle : (h : ℤ) → eqb_ℤ h dds_entity_null ≡ true → is_handle (pos (suc n)) h ≡ 0
  null_is_no_handle (pos m) e = ground arith
  null_is_no_handle (negsuc m) e = cc

  -- Of the positive handles: a Writer is created only for a route that has none, and the route
  -- then holds it; a failed creation leaves nothing behind; none is deleted.
  pub set_dds_writer-Sets :
      (x : External) (dp : ℤ) (ti : Option TypeInfo) (qos : Qos)
      → Sets (pos (suc n)) r w (set_dds_writer x dp r ti qos w)
  unfolding set_dds_writer
  set_dds_writer-Sets x dp ti qos = elim (Bool-cases (eqb_ℤ r.dds_writer dds_entity_null)) [
    | inl e ↦
        rw (e, set_dds_writer)
          (set_from (create_forwarding_dds_writer x dp r.topic_name r.topic_type ti r.keyless qos w)
            (null_is_no_handle r.dds_writer e)
            (create_forwarding_dds_writer-Makes x dp (suc n) r.topic_name r.topic_type ti r.keyless
              qos w))
    | inr e ↦ rw (e, set_dds_writer) (refl, refl)
  ]

  -- The deletion asks DDS once for the Writer that the route holds, if its handle is positive,
  -- creates none, and leaves the route with none.
  pub delete_dds_writer-deleted :
      (x : External)
      → ((delete_dds_writer x r w).0.dds_writer ≡ dds_entity_null)
        × (created (pos (suc n)) (delete_dds_writer x r w).1 ≡ created (pos (suc n)) w)
        × (deleted (pos (suc n)) (delete_dds_writer x r w).1
            ≡ is_handle (pos (suc n)) r.dds_writer + deleted (pos (suc n)) w)
  unfolding delete_dds_writer
  delete_dds_writer-deleted x = ground (
    arith,
    null_is_no_handle r.dds_writer,
    run_and_log-delete_dds_entity x (pos (suc n)) r.dds_writer w,
  )

-- A query for historical publications creates and deletes no reader or writer.
pub query_historical_publications-quiet :
    (x : External) (h : ℤ) (selector : Str) (r : RouteZenohDds) (w : World)
    → (created h (query_historical_publications x selector r w) ≡ created h w)
      × (deleted h (query_historical_publications x selector r w) ≡ deleted h w)
unfolding query_historical_publications run_and_log perform created deleted
query_historical_publications-quiet x h selector r w = ground arith
