-- ===== src/Plugin/Removals.antt =====
-- zenoh-plugin-dds/src/lib.rs, `remove_dds_participant`, `remove_dds_writer` and `remove_dds_reader`: the
-- removal of an entity leaves the routes.
use zenoh_plugin_dds.Base.{◌≡◌, refl, true, false, inl, inr}
use zenoh_plugin_dds.Base.Tests.{Option-cases, Ensures, Ensures-bind, Ensures-any}
use zenoh_plugin_dds.Base.Text.{Str}
use zenoh_plugin_dds.Base.Map
use zenoh_plugin_dds.World.{External}
use zenoh_plugin_dds.Keyexpr.{get_entity_admin_keyexpr, get_participant_admin_keyexpr}
use zenoh_plugin_dds.Plugin.{Plugin, remove_dds_participant, remove_dds_writer, remove_dds_reader}

abbrev pub SameRoutes : Plugin → Plugin → Type 0
SameRoutes s t = (s.routes_to_dds ≡ t.routes_to_dds) × (s.routes_from_dds ≡ t.routes_from_dds)

module _ (x : External) (key : Str) (s : Plugin) where
  pub remove_dds_participant-SameRoutes :
      Ensures (λ t. SameRoutes s t.1) (remove_dds_participant x key s)
  unfolding remove_dds_participant
  remove_dds_participant-SameRoutes = elim (Option-cases (Map.get key s.discovered_participants)) [
    | inl e ↦ rw (e, remove_dds_participant) (refl, refl)
    | inr (e, found) ↦
        rw (found, remove_dds_participant)
          (Ensures-bind (λ _. Unit {0}) (λ t. SameRoutes s t.1) (get_participant_admin_keyexpr x e)
            _ (Ensures-any _) λ adm _. (refl, refl))
  ]

  pub remove_dds_writer-SameRoutes : Ensures (λ t. SameRoutes s t.1) (remove_dds_writer x key s)
  unfolding remove_dds_writer
  remove_dds_writer-SameRoutes = elim (Option-cases (Map.get key s.discovered_writers)) [
    | inl e ↦ rw (e, remove_dds_writer) (refl, refl)
    | inr (e, found) ↦
        rw (found, remove_dds_writer)
          (Ensures-bind (λ _. Unit {0}) (λ t. SameRoutes s t.1) (get_entity_admin_keyexpr x e true)
            _ (Ensures-any _) λ adm _. (refl, refl))
  ]

  pub remove_dds_reader-SameRoutes : Ensures (λ t. SameRoutes s t.1) (remove_dds_reader x key s)
  unfolding remove_dds_reader
  remove_dds_reader-SameRoutes = elim (Option-cases (Map.get key s.discovered_readers)) [
    | inl e ↦ rw (e, remove_dds_reader) (refl, refl)
    | inr (e, found) ↦
        rw (found, remove_dds_reader)
          (Ensures-bind (λ _. Unit {0}) (λ t. SameRoutes s t.1) (get_entity_admin_keyexpr x e false)
            _ (Ensures-any _) λ adm _. (refl, refl))
  ]
