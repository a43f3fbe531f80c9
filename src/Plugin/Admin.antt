-- ===== src/Plugin/Admin.antt =====
-- zenoh-plugin-dds/src/lib.rs, `get_admin_value` and `treat_admin_query`: the admin space, whose entries
-- point into the other maps. A value stands for the JSON text that serde makes of it.
pub mod Registered
pub mod Entries
pub mod Removals
pub mod Retained
pub mod Routes
pub mod Served
pub mod Reached
use zenoh_plugin_dds.Base.{Bool, Option, none, some, List, [], ◌∷◌, ◌++◌}
use zenoh_plugin_dds.Base.Tests.{if◌then◌else◌}
use zenoh_plugin_dds.Base.Text.{Str, codes, contains}
use zenoh_plugin_dds.Base.Map.{Map}
use zenoh_plugin_dds.Base.Map
use zenoh_plugin_dds.Config.{Config}
use zenoh_plugin_dds.Entity.{DdsEntity, DdsParticipant}
use zenoh_plugin_dds.Route.FromDds.{RouteDdsZenoh}
use zenoh_plugin_dds.Route.ToDds.{RouteZenohDds}
use zenoh_plugin_dds.Plugin.{
  Plugin, AdminRef, dds_participant, dds_writer_entity, dds_reader_entity, from_dds_route,
  to_dds_route, plugin_config, plugin_version,
}

pub data AdminValue : Type 0 where
  participant_value : DdsParticipant → AdminValue
  entity_value : DdsEntity → AdminValue
  from_dds_value : RouteDdsZenoh → AdminValue
  to_dds_value : RouteZenohDds → AdminValue
  config_value : Config → AdminValue
  version_value : AdminValue

abbrev value_of {ℓ} : {V : Type ℓ} → (V → AdminValue) → Option V → Option AdminValue
value_of f none = none
value_of f (some v) = some (f v)

-- `none` is the `Ok(None)` of a dangling reference.
unfoldable pub get_admin_value : Plugin → AdminRef → Option AdminValue
get_admin_value s (dds_participant key) =
    value_of participant_value (Map.get key s.discovered_participants)
get_admin_value s (dds_reader_entity key) = value_of entity_value (Map.get key s.discovered_readers)
get_admin_value s (dds_writer_entity key) = value_of entity_value (Map.get key s.discovered_writers)
get_admin_value s (from_dds_route zkey) = value_of from_dds_value (Map.get zkey s.routes_from_dds)
get_admin_value s (to_dds_route zkey) = value_of to_dds_value (Map.get zkey s.routes_to_dds)
get_admin_value s plugin_config = some (config_value s.config)
get_admin_value s plugin_version = some version_value

-- What the loop of `treat_admin_query` does for one entry: a key and its value to reply, or the
-- log of an internal error.
pub data Answer : Type 0 where
  reply : Str → AdminValue → Answer
  dangling : AdminRef → Answer

abbrev pub answer_of : Str → AdminRef → Option AdminValue → Answer
answer_of ke admin_ref none = dangling admin_ref
answer_of ke admin_ref (some v) = reply ke v

module _ (intersects : Str → Str → Bool) (s : Plugin) where
  -- All entries whose key intersects the key expression.
  unfoldable pub matching : Str → Map AdminRef → List Answer
  matching sub_ke [] = []
  matching sub_ke ((ke, admin_ref) ∷ rest) =
      let later = matching sub_ke rest in
      if intersects sub_ke ke
      then answer_of ke admin_ref (get_admin_value s admin_ref) ∷ later
      else later

  abbrev pub single : Str → Option AdminRef → List Answer
  single sub_ke none = []
  single sub_ke (some admin_ref) = answer_of sub_ke admin_ref (get_admin_value s admin_ref) ∷ []

  -- The loop over the key expressions of the selector, without the admin prefix.
  unfoldable pub admin_answers : List Str → List Answer
  unfolding matching
  admin_answers [] = []
  admin_answers (sub_ke ∷ sub_kes) =
      (if contains sub_ke (codes "*")
        then matching sub_ke s.admin_space
        else single sub_ke (Map.get sub_ke s.admin_space))
      ++ admin_answers sub_kes
