-- ===== src/Route/FromDds/Laws.antt =====
-- zenoh-plugin-dds/src/route_dds_zenoh.rs: the size of the publication cache, and the DDS Reader of a route.
use zenoh_plugin_dds.Base.{
  ℕ, ◌+◌, ◌*◌, ◌^◌, ◌≤◌, ◌<◌, ◌≡◌, refl, Bool, false, Option, none, some, arith,
}
use zenoh_plugin_dds.Base.Tests.{Result, ok, err}
use zenoh_plugin_dds.Base.Int.{ℤ, pos}
use zenoh_plugin_dds.Base.Text.{Str}
use zenoh_plugin_dds.Qos.{Qos, Cyclors, keep_last}
use zenoh_plugin_dds.World.{
  External, World, Error, perform_or, lift, CongestionControl, declare_keyexpr, keyexpr_declaration,
  Forwarder,
}
use zenoh_plugin_dds.Dds.{TypeInfo, create_forwarding_dds_reader}
use zenoh_plugin_dds.Dds.Handles.{
  created, deleted, is_handle, holds, Makes, Makes-bind, Makes-map,
  create_forwarding_dds_reader-Makes, run_and_log-delete_dds_entity,
}
use zenoh_plugin_dds.Config.{Config, get_read_period}
use zenoh_plugin_dds.Route.FromDds.{
  product_or_max, RouteDdsZenoh, ZPublisher, usize_max, as_usize, checked_mul, cache_history,
  new_publisher, new_route, new_with_reader, new_with_publisher, new_declared, new, drop_route,
}

product_bound : (n m : ℕ) → n < 2 ^ 31 → m < 2 ^ 31 → n * m ≤ usize_max
product_bound n m hn hm = let step : n * m ≤ 2 ^ 31 * m = grind arith in omega arith

checked_product :
    (n m : ℕ)
    → n * m ≤ usize_max
    → (n * m ≤ product_or_max (checked_mul (pos n) (pos m)))
      × (product_or_max (checked_mul (pos n) (pos m)) ≤ usize_max)
unfolding checked_mul as_usize
checked_product n m h = ground arith

-- For a Writer with keys and KEEP_LAST `n`, the cache holds `n` samples of each of `m` instances,
-- and its size fits a `usize`, for `n` and `m` below 2 ^ 31 and `m` positive.
pub cache_history-holds :
    (c : Cyclors) (n m : ℕ)
    → n < 2 ^ 31
    → 0 < m
    → m < 2 ^ 31
    → (n * m ≤ cache_history c false keep_last (pos n) (pos m))
      × (cache_history c false keep_last (pos n) (pos m) ≤ usize_max)
unfolding cache_history
cache_history-holds c n m hn h0 hm =
    ground (arith, product_bound n m hn hm, checked_product n m (product_bound n m hn hm))

-- The handles `h` that a result hands to the caller.
abbrev pub route_holds : ℤ → Result Error RouteDdsZenoh → ℕ
route_holds h (ok r) = is_handle h r.dds_reader
route_holds h (err e) = 0

module _ (x : External) (dp : ℤ) (zid : Str) (config : Config) (topic_name topic_type : Str)
    (type_info : Option TypeInfo) (keyless : Bool) (reader_qos : Qos) (ke : Str)
    (congestion_ctrl : CongestionControl) (n : ℕ) where
  new_with_reader-Makes :
      (p : ZPublisher) (period : Option ℕ) (w : World)
      → Makes (pos n) (route_holds (pos n)) w (
          new_with_reader x dp zid config topic_name topic_type type_info keyless reader_qos ke
            congestion_ctrl p period w)
  unfolding new_with_reader
  new_with_reader-Makes p period w =
      Makes-map (pos n) (holds (pos n)) (route_holds (pos n))
        (new_route x dp zid config topic_name topic_type type_info keyless reader_qos ke
          congestion_ctrl p)
        (λ a. refl) (λ e. refl)
        (create_forwarding_dds_reader x dp topic_type type_info keyless reader_qos to period) w
        (create_forwarding_dds_reader-Makes x dp n topic_type type_info keyless reader_qos to period
          w)
    where
      to : Forwarder
      to = record { topic_name = topic_name; z_key = ke; congestion_ctrl = congestion_ctrl }

  lift-Makes : {A : Type 0} (o : Option A) (w : World) → Makes {A = A} (pos n) (λ _. 0) w (lift o w)
  lift-Makes none w = tt
  lift-Makes (some a) w = (omega arith, refl)

  new_with_publisher-Makes :
      (p : ZPublisher) (w : World)
      → Makes (pos n) (route_holds (pos n)) w (
          new_with_publisher x dp zid config topic_name topic_type type_info keyless reader_qos ke
            congestion_ctrl p w)
  unfolding new_with_publisher
  new_with_publisher-Makes p w =
      Makes-bind (pos n) (route_holds (pos n)) (λ e. refl) (lift (get_read_period x config ke))
        (new_with_reader x dp zid config topic_name topic_type type_info keyless reader_qos ke
          congestion_ctrl p)
        w (lift-Makes _ w) (λ period w'. new_with_reader-Makes p period w')

  new_publisher-Makes :
      (w : World) → Makes (pos n) (λ _. 0) w (new_publisher x zid ke keyless reader_qos w)
  unfolding new_publisher created deleted
  new_publisher-Makes w = ground arith

  new_declared-Makes :
      (w : World)
      → Makes (pos n) (route_holds (pos n)) w (
          new_declared x dp zid config topic_name topic_type type_info keyless reader_qos ke
            congestion_ctrl w)
  unfolding new_declared
  new_declared-Makes w =
      Makes-bind (pos n) (route_holds (pos n)) (λ e. refl)
        (new_publisher x zid ke keyless reader_qos)
        (new_with_publisher x dp zid config topic_name topic_type type_info keyless reader_qos ke
          congestion_ctrl)
        w (new_publisher-Makes w) new_with_publisher-Makes

  -- Of the handles that are not negative, the Reader that a new route holds is the only reader or
  -- writer that its creation has made, and a creation that fails has made none; none is deleted.
  pub new-Makes :
      (w : World)
      → Makes (pos n) (route_holds (pos n)) w (
          new x dp zid config topic_name topic_type type_info keyless reader_qos ke congestion_ctrl
            w)
  unfolding new created deleted
  new-Makes w =
      Makes-bind (pos n) (route_holds (pos n)) (λ e. refl)
        (perform_or x (declare_keyexpr ke) keyexpr_declaration)
        (λ _.
          new_declared x dp zid config topic_name topic_type type_info keyless reader_qos ke
            congestion_ctrl)
        w (ground arith) (λ _ w'. new_declared-Makes w')

-- Dropping a route asks once for the deletion of its Reader.
pub drop_route-deleted :
    (x : External) (h : ℤ) (r : RouteDdsZenoh) (w : World)
    → (created h (drop_route x r w) ≡ created h w)
      × (deleted h (drop_route x r w) ≡ is_handle h r.dds_reader + deleted h w)
unfolding drop_route
drop_route-deleted x h r w = run_and_log-delete_dds_entity x h r.dds_reader w
