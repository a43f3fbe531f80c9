-- ===== src/Route/ToDds/Deliver.antt =====
-- zenoh-plugin-dds/src/route_zenoh_dds.rs: the callback of a route's zenoh Subscriber, which waits for a DDS
-- Writer, and the writing of a sample.
use zenoh_plugin_dds.Base.{
  ℕ, zero, suc, ◌<◌, ◌≡◌, refl, Bool, true, false, not, Option, none, some, List, [], ◌∷◌, ◌++◌,
  sym, ap, inl, inr, arith,
}
use zenoh_plugin_dds.Base.Tests.{Bool-cases, Yields, if◌then◌else◌}
use zenoh_plugin_dds.Base.Int.{ℤ, eqb_ℤ}
use zenoh_plugin_dds.Base.Text.{Str}
use zenoh_plugin_dds.World.{
  External, World, Call, M, pure, fail, perform, ◌>>=◌, ◌>>◌, run_and_log, get_entity_sertype,
  write_cdr, sertype_lookup,
}
use zenoh_plugin_dds.Dds.{is_negative}
use zenoh_plugin_dds.Route.ToDds.{dds_entity_null}

-- What has been written to DDS, the oldest first: the Writer and the payload.
abbrev write_of : Call → List (ℤ × Str)
write_of (write_cdr data_writer payload) = (data_writer, payload) ∷ []
write_of _ = []

abbrev pub delivered : World → List (ℤ × Str)
delivered [] = []
delivered ((call, r) ∷ w) = delivered w ++ write_of call

append_nil : {A : Type 0} (us : List A) → us ≡ us ++ []
append_nil [] = refl
append_nil (u ∷ us) = ap (λ l. u ∷ l) (append_nil us)

module _ (x : External) (payload : Str) where
  unfoldable pub do_route_data : ℤ → M (Unit {0})
  unfolding perform
  do_route_data data_writer = do
    ret ← perform x (get_entity_sertype data_writer)
    if is_negative ret
        then fail (sertype_lookup ret)
        else (do perform x (write_cdr data_writer payload); pure tt)

  -- What a load of the route's Writer sees, and the calls made by then.
  abbrev pub Load : Type 0
  Load = ℤ × World

  abbrev pub sees_writer : Load → Bool
  sees_writer load = not (eqb_ℤ load.0 dds_entity_null)

  abbrev pub route : Load → World
  route load = run_and_log (do_route_data load.0) load.1

  -- The loop of the task, with the attempts left, each after a sleep. `none`: the data is dropped.
  unfoldable pub wait_for_writer : ℕ → (ℕ → Load) → Option World
  wait_for_writer zero loads = none
  wait_for_writer (suc attempts) loads =
      let later = wait_for_writer attempts (λ i. loads (suc i)) in
      if sees_writer (loads 0) then some (route (loads 0)) else later

  -- The callback: 1 load, and then up to 29 more, `for _ in 1..30`.
  unfoldable pub subscriber_callback : (ℕ → Load) → Option World
  subscriber_callback loads =
      if sees_writer (loads 0)
      then some (route (loads 0))
      else wait_for_writer 29 (λ i. loads (suc i))

  wait_for_writer-first :
      (attempts i : ℕ) (loads : ℕ → Load)
      → i < attempts
      → ((j : ℕ) → j < i → sees_writer (loads j) ≡ false)
      → sees_writer (loads i) ≡ true
      → wait_for_writer attempts loads ≡ some (route (loads i))
  unfolding wait_for_writer
  wait_for_writer-first zero i loads bound before here = absurd (omega (arith, bound))
  wait_for_writer-first (suc attempts) zero loads bound before here = rw here refl
  wait_for_writer-first (suc attempts) (suc i) loads bound before here =
      rw (before 0 (omega arith)) (
        wait_for_writer-first attempts i (λ j. loads (suc j)) (omega (arith, bound))
          (λ j less. before (suc j) (omega (arith, less))) here)

  wait_for_writer-dropped :
      (attempts : ℕ) (loads : ℕ → Load)
      → ((j : ℕ) → j < attempts → sees_writer (loads j) ≡ false)
      → wait_for_writer attempts loads ≡ none
  unfolding wait_for_writer
  wait_for_writer-dropped zero loads null = refl
  wait_for_writer-dropped (suc attempts) loads null = rw (null 0 (omega arith)) (
      wait_for_writer-dropped attempts (λ j. loads (suc j))
        (λ j less. null (suc j) (omega (arith, less))))

  -- The callback routes with the first load that sees a Writer.
  subscriber_callback-route :
      (i : ℕ) (loads : ℕ → Load)
      → i < 30
      → ((j : ℕ) → j < i → sees_writer (loads j) ≡ false)
      → sees_writer (loads i) ≡ true
      → subscriber_callback loads ≡ some (route (loads i))
  unfolding subscriber_callback
  subscriber_callback-route zero loads bound before here = rw here refl
  subscriber_callback-route (suc i) loads bound before here = rw (before 0 (omega arith)) (
      wait_for_writer-first 29 i (λ j. loads (suc j)) (omega (arith, bound))
        (λ j less. before (suc j) (omega (arith, less))) here)

  -- What is written to DDS by a route of the load: the payload, to the Writer that the load sees, if
  -- the lookup of the Writer's sertype succeeds.
  route-delivered :
      (load : Load)
      → delivered (route load)
        ≡ delivered load.1
          ++ (if is_negative (x.answer load.1 (get_entity_sertype load.0))
              then []
              else (load.0, payload) ∷ [])
  unfolding do_route_data run_and_log perform
  route-delivered load =
      elim (Bool-cases (is_negative (x.answer load.1 (get_entity_sertype load.0)))) [
        | inl t ↦ rw t refl
        | inr f ↦ rw f (ap (λ l. l ++ (load.0, payload) ∷ []) (sym (append_nil (delivered load.1))))
      ]

  -- The callback goes on with the first of the loads 0 to 29 that sees a Writer, and then writes the
  -- payload to that Writer, once and nothing else; if the lookup of the Writer's sertype fails,
  -- nothing is written.
  pub subscriber_callback-first :
      (i : ℕ) (loads : ℕ → Load)
      → i < 30
      → ((j : ℕ) → j < i → sees_writer (loads j) ≡ false)
      → sees_writer (loads i) ≡ true
      → Yields
          (λ w.
            delivered w
            ≡ delivered (loads i).1
              ++ (if is_negative (x.answer (loads i).1 (get_entity_sertype (loads i).0))
                  then []
                  else ((loads i).0, payload) ∷ []))
          (subscriber_callback loads)
  subscriber_callback-first i loads bound before here = (
    route (loads i),
    subscriber_callback-route i loads bound before here,
    route-delivered (loads i),
  )

  -- The data is dropped if none of the loads 0 to 29 sees a Writer, whatever the later ones would see.
  pub subscriber_callback-dropped :
      (loads : ℕ → Load)
      → ((j : ℕ) → j < 30 → sees_writer (loads j) ≡ false)
      → subscriber_callback loads ≡ none
  unfolding subscriber_callback
  subscriber_callback-dropped loads null = rw (null 0 (omega arith)) (
      wait_for_writer-dropped 29 (λ j. loads (suc j))
        (λ j less. null (suc j) (omega (arith, less))))
