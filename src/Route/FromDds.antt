-- ===== src/Route/FromDds.antt =====
-- zenoh-plugin-dds/src/route_dds_zenoh.rs: a route from DDS to zenoh.
pub mod Laws
use zenoh_plugin_dds.Base.{
  ℕ, suc, ◌-◌, ◌^◌, ◌<◌, ◌≤◌, Bool, true, false, not, ◌&&◌, Option, none, some, List, [],
}
use zenoh_plugin_dds.Base.Tests.{if◌then◌else◌, is_empty}
use zenoh_plugin_dds.Base.Int.{ℤ, pos, negsuc, ◌*ℤ◌, ltb_ℤ, eqb_ℤ}
use zenoh_plugin_dds.Base.Text.{Str, contains}
use zenoh_plugin_dds.Base.Set
use zenoh_plugin_dds.Qos.{
  Qos, Cyclors, HistoryKind, keep_last, keep_all, is_transient_local, get_history_or_default,
  get_durability_service_or_default,
}
use zenoh_plugin_dds.World.{
  External, M, World, pure, lift, perform, perform_or, run_and_log, ◌>>=◌, ◌>>◌, CongestionControl,
  declare_keyexpr, declare_publisher, declare_publication_cache, keyexpr_declaration,
  publication_cache_creation,
}
use zenoh_plugin_dds.Dds.{TypeInfo, create_forwarding_dds_reader, delete_dds_entity}
use zenoh_plugin_dds.Config.{Config, get_read_period}
use zenoh_plugin_dds.Keyexpr.{ke_prefix_pub_cache}

pub data ZPublisher : Type 0 where
  publisher : Str → ZPublisher
  publication_cache : Str → ℕ → ZPublisher

pub record RouteDdsZenoh : Type 0 where
  pub dds_reader : ℤ
  pub topic_name : Str
  pub topic_type : Str
  pub keyless : Bool
  pub zenoh_publisher : ZPublisher
  pub remote_routed_readers : List Str
  pub local_routed_writers : List Str

-- `usize` has 64 bits.
abbrev pub usize_max : ℕ
usize_max = 2 ^ 64 - 1

-- `n as usize` of an `i32`.
unfoldable pub as_usize : ℤ → ℕ
as_usize (pos n) = n
as_usize (negsuc n) = 2 ^ 64 - suc n

-- `i32::checked_mul`
unfoldable pub checked_mul : ℤ → ℤ → Option ℤ
unfolding ◌*ℤ◌
checked_mul a b =
    let p = a *ℤ b in
    if not (ltb_ℤ (pos (2 ^ 31 - 1)) p) && not (ltb_ℤ p (negsuc (2 ^ 31 - 1))) then some p else none

abbrev product_or_max : Option ℤ → ℕ
product_or_max none = usize_max
product_or_max (some m) = as_usize m

-- The `match (history_qos.kind, history_qos.depth)`.
unfoldable pub cache_history : Cyclors → Bool → HistoryKind → ℤ → ℤ → ℕ
cache_history c keyless keep_last n max_instances =
    if keyless
    then as_usize n
    else if eqb_ℤ max_instances c.dds_length_unlimited
    then usize_max
    else if ltb_ℤ (pos 0) max_instances
    then product_or_max (checked_mul n max_instances)
    else as_usize n
cache_history c keyless keep_all n max_instances = usize_max

unfoldable pub history_of : Cyclors → Bool → Qos → ℕ
history_of c keyless qos =
    cache_history c keyless (get_history_or_default c qos).kind (get_history_or_default c qos).depth
      (get_durability_service_or_default c qos).max_instances

module _ (x : External) where
  -- The block that declares the zenoh Publisher.
  unfoldable pub new_publisher : Str → Str → Bool → Qos → M ZPublisher
  unfolding perform_or perform
  new_publisher zid ke keyless reader_qos =
      let history = history_of x.cyclors keyless reader_qos in
      if is_transient_local reader_qos
      then (do
        perform_or x (declare_publication_cache ke history (x.div ke_prefix_pub_cache zid))
            publication_cache_creation
        pure (publication_cache ke history))
      else (do perform x (declare_publisher ke); pure (publisher ke))

  -- `drop` of a route.
  unfoldable pub drop_route : RouteDdsZenoh → World → World
  drop_route r w = run_and_log (delete_dds_entity x r.dds_reader) w

module _ (x : External) (dp : ℤ) (zid : Str) (config : Config) (topic_name topic_type : Str)
    (type_info : Option TypeInfo) (keyless : Bool) (reader_qos : Qos) (ke : Str)
    (congestion_ctrl : CongestionControl) where
  abbrev new_route : ZPublisher → ℤ → RouteDdsZenoh
  new_route zenoh_publisher dds_reader = record {
    dds_reader = dds_reader;
    topic_name = topic_name;
    topic_type = topic_type;
    keyless = keyless;
    zenoh_publisher = zenoh_publisher;
    remote_routed_readers = [];
    local_routed_writers = [];
  }

  unfoldable pub new_with_reader : ZPublisher → Option ℕ → M RouteDdsZenoh
  new_with_reader zenoh_publisher read_period = do
    dds_reader ←
        create_forwarding_dds_reader x dp topic_type type_info keyless reader_qos
          (record { topic_name = topic_name; z_key = ke; congestion_ctrl = congestion_ctrl })
          read_period
    pure (new_route zenoh_publisher dds_reader)

  unfoldable pub new_with_publisher : ZPublisher → M RouteDdsZenoh
  new_with_publisher zenoh_publisher = do
    read_period ← lift (get_read_period x config ke)
    new_with_reader zenoh_publisher read_period

  unfoldable pub new_declared : M RouteDdsZenoh
  new_declared = do
    zenoh_publisher ← new_publisher x zid ke keyless reader_qos
    new_with_publisher zenoh_publisher

  unfoldable pub new : M RouteDdsZenoh
  unfolding new_with_publisher new_with_reader new_declared perform_or
  new = do perform_or x (declare_keyexpr ke) keyexpr_declaration; new_declared

unfoldable pub add_remote_routed_reader : Str → RouteDdsZenoh → RouteDdsZenoh
add_remote_routed_reader admin_ke r = record r {
  remote_routed_readers = Set.insert admin_ke r.remote_routed_readers;
}

unfoldable pub remove_remote_routed_reader : Str → RouteDdsZenoh → RouteDdsZenoh
remove_remote_routed_reader admin_ke r = record r {
  remote_routed_readers = Set.remove admin_ke r.remote_routed_readers;
}

unfoldable pub remove_remote_routed_readers_containing : Str → RouteDdsZenoh → RouteDdsZenoh
remove_remote_routed_readers_containing sub_ke r = record r {
  remote_routed_readers = Set.keep_if (λ s. not (contains s sub_ke)) r.remote_routed_readers;
}

unfoldable pub has_remote_routed_reader : RouteDdsZenoh → Bool
has_remote_routed_reader r = not (is_empty r.remote_routed_readers)

unfoldable pub is_routing_remote_reader : Str → RouteDdsZenoh → Bool
is_routing_remote_reader entity_key r = Set.any (λ s. contains s entity_key) r.remote_routed_readers

unfoldable pub add_local_routed_writer : Str → RouteDdsZenoh → RouteDdsZenoh
add_local_routed_writer entity_key r = record r {
  local_routed_writers = Set.insert entity_key r.local_routed_writers;
}

unfoldable pub remove_local_routed_writer : Str → RouteDdsZenoh → RouteDdsZenoh
remove_local_routed_writer entity_key r = record r {
  local_routed_writers = Set.remove entity_key r.local_routed_writers;
}

unfoldable pub has_local_routed_writer : RouteDdsZenoh → Bool
has_local_routed_writer r = not (is_empty r.local_routed_writers)
