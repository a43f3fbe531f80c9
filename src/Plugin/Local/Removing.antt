-- ===== src/Plugin/Local/Removing.antt =====
-- zenoh-plugin-dds/src/lib.rs, `run_local_discovery_mode`: the removal of an entity, and the release of its
-- routes, do not panic and leave the names valid.
use zenoh_plugin_dds.Base.{refl, Option, none, some, inl, inr}
use zenoh_plugin_dds.Base.Tests.{Bool-cases, Option-cases, Ensures, Yields}
use zenoh_plugin_dds.Base.Text.{Str}
use zenoh_plugin_dds.Base.Map.{Map}
use zenoh_plugin_dds.Base.Map
use zenoh_plugin_dds.World.{External, World}
use zenoh_plugin_dds.Config.{Config}
use zenoh_plugin_dds.Plugin.{
  Plugin, AdminRef, remove_dds_participant, remove_dds_writer, remove_dds_reader,
}
use zenoh_plugin_dds.Route.ToDds.{
  RouteZenohDds, remove_local_routed_reader, has_local_routed_reader,
}
use zenoh_plugin_dds.Plugin.Returns.{HasCNames}
use zenoh_plugin_dds.Plugin.Ready.{IsReady}
use zenoh_plugin_dds.Plugin.Local.{release_reader}

module _ (x : External) (config : Config) where
  pub remove_dds_participant-IsReady :
      (key : Str) (s : Plugin)
      → IsReady x config s
      → Yields (λ t. IsReady x config t.1) (remove_dds_participant x key s)
  unfolding remove_dds_participant
  remove_dds_participant-IsReady key s r =
      elim (Option-cases (Map.get key s.discovered_participants)) [
        | inl e ↦ rw (e, remove_dds_participant) (_, refl, r)
        | inr (p, e) ↦
            let (adm, named) = r.participants key p e in
            rw (e, remove_dds_participant)
              (rw named (
                _,
                refl,
                record {
                  config_is = r.config_is;
                  participants = Map.remove-Each _ key s.discovered_participants r.participants;
                  writers = r.writers;
                  readers = r.readers;
                  route_names = r.route_names;
                },
              ))
      ]

  pub remove_dds_writer-IsReady :
      (key : Str) (s : Plugin)
      → IsReady x config s
      → Yields (λ t. IsReady x config t.1) (remove_dds_writer x key s)
  unfolding remove_dds_writer
  remove_dds_writer-IsReady key s r = elim (Option-cases (Map.get key s.discovered_writers)) [
    | inl e ↦ rw (e, remove_dds_writer) (_, refl, r)
    | inr (p, e) ↦
        let (adm, named) = r.writers key p e in
        rw (e, remove_dds_writer)
          (rw named (
            _,
            refl,
            record {
              config_is = r.config_is;
              participants = r.participants;
              writers = Map.remove-Each _ key s.discovered_writers r.writers;
              readers = r.readers;
              route_names = r.route_names;
            },
          ))
  ]

  pub remove_dds_reader-IsReady :
      (key : Str) (s : Plugin)
      → IsReady x config s
      → Yields (λ t. IsReady x config t.1) (remove_dds_reader x key s)
  unfolding remove_dds_reader
  remove_dds_reader-IsReady key s r = elim (Option-cases (Map.get key s.discovered_readers)) [
    | inl e ↦ rw (e, remove_dds_reader) (_, refl, r)
    | inr (p, e) ↦
        let (adm, named) = r.readers key p e in
        rw (e, remove_dds_reader)
          (rw named (
            _,
            refl,
            record {
              config_is = r.config_is;
              participants = r.participants;
              writers = r.writers;
              readers = Map.remove-Each _ key s.discovered_readers r.readers;
              route_names = r.route_names;
            },
          ))
  ]

  pub release_reader-names :
      (key k : Str) (r : RouteZenohDds) (t : Map AdminRef × World)
      → HasCNames r
      → Ensures HasCNames (release_reader x key k r t).0
  unfolding remove_local_routed_reader
  release_reader-names key k r t names =
      elim (Bool-cases (has_local_routed_reader (remove_local_routed_reader key r))) [
        | inl y ↦ rw y names
        | inr f ↦ rw f tt
      ]

  pub release_if-IsReady :
      {A : Type 0} (o : Option A) (s : Plugin) (f : Plugin → Plugin)
      → ((t : Plugin) → IsReady x config t → IsReady x config (f t))
      → IsReady x config s
      → Yields (IsReady x config) (elim o [ none ↦ some s | some _ ↦ some (f s) ])
  release_if-IsReady none s f k r = (_, refl, r)
  release_if-IsReady (some a) s f k r = (_, refl, k s r)
