-- ===== src/Config.antt =====
-- zenoh-plugin-dds/src/config.rs: the configuration that the plugin runs with, and its two tests on a
-- key expression (zenoh-plugin-dds/src/lib.rs). A `Regex` is its source, an `f32` its bits.
pub mod Parse
pub mod Published
use zenoh_plugin_dds.Base.{ℕ, Bool, true, false, not, ◌&&◌, Option, none, some, List, [], ◌∷◌}
use zenoh_plugin_dds.Base.Tests.{if◌then◌else◌, ◌>>=◌}
use zenoh_plugin_dds.Base.Text.{Str, codes, ends_with}
use zenoh_plugin_dds.World.{External}

pub record Config : Type 0 where
  pub scope : Option Str
  pub domain : ℕ
  pub allow : Option Str
  pub deny : Option Str
  pub max_frequencies : List (Str × ℕ)
  pub generalise_subs : List Str
  pub generalise_pubs : List Str
  pub forward_discovery : Bool
  pub reliable_routes_blocking : Bool
  pub localhost_only : Bool
  pub queries_timeout : ℕ
  pub work_thread_num : ℕ
  pub max_block_thread_num : ℕ
  pub required : Option Bool
  pub path : Option (List Str)

abbrev pub ros_discovery_info_topic_name : Str
ros_discovery_info_topic_name = codes "ros_discovery_info"

abbrev matches_filters : External → Option Str → Option Str → Str → Bool
matches_filters x (some allow) none ke = x.is_match allow ke
matches_filters x none (some deny) ke = not (x.is_match deny ke)
matches_filters x (some allow) (some deny) ke = x.is_match allow ke && not (x.is_match deny ke)
matches_filters x none none ke = true

unfoldable pub is_allowed : External → Config → Str → Bool
is_allowed x config ke =
    if config.forward_discovery && ends_with ke ros_discovery_info_topic_name
    then false
    else matches_filters x config.allow config.deny ke

-- The loop over `max_frequencies`; the outer `none` is the panic of `Duration::from_secs_f32`.
unfoldable pub read_period_in : External → List (Str × ℕ) → Str → Option (Option ℕ)
read_period_in x [] ke = some none
read_period_in x ((re, freq) ∷ rest) ke =
    let later = read_period_in x rest ke in
    if x.is_match re ke then (x.period_of freq >>= λ period. some (some period)) else later

-- Return the read period if keyexpr matches one of the --dds-periodic-topics option
unfoldable pub get_read_period : External → Config → Str → Option (Option ℕ)
unfolding read_period_in
get_read_period x config ke = read_period_in x config.max_frequencies ke
