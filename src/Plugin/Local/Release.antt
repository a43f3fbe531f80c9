-- ===== src/Plugin/Local/Release.antt =====
-- zenoh-plugin-dds/src/lib.rs, `run_local_discovery_mode`: entities that are removed, and the routes that
-- are dropped with them, lose no DDS reader or writer.
use zenoh_plugin_dds.Base.{ℕ, suc, ◌+◌, ◌≡◌, true, false, arith, inl, inr}
use zenoh_plugin_dds.Base.Tests.{Option-cases, Ensures, Ensures-bind, Ensures-any}
use zenoh_plugin_dds.Base.Int.{ℤ, pos}
use zenoh_plugin_dds.Base.Text.{Str}
use zenoh_plugin_dds.Base.Map.{Map, Distinct}
use zenoh_plugin_dds.Base.Map
use zenoh_plugin_dds.Base.Retain.{value_or_zero, retain_with_balance, retain_with-Distinct}
use zenoh_plugin_dds.World.{External, World}
use zenoh_plugin_dds.Dds.Handles.{created, deleted, is_handle}
use zenoh_plugin_dds.Keyexpr.{get_entity_admin_keyexpr, get_participant_admin_keyexpr}
use zenoh_plugin_dds.Route.FromDds.{RouteDdsZenoh, remove_local_routed_writer}
use zenoh_plugin_dds.Route.FromDds.Laws.{drop_route-deleted}
use zenoh_plugin_dds.Route.ToDds.{
  RouteZenohDds, add_local_routed_reader, remove_local_routed_reader, has_local_routed_reader,
}
use zenoh_plugin_dds.Route.ToDds
use zenoh_plugin_dds.Route.ToDds.Laws.{delete_dds_writer-deleted}
use zenoh_plugin_dds.Plugin.{
  Plugin, AdminRef, remove_dds_writer, remove_dds_reader, remove_dds_participant,
}
use zenoh_plugin_dds.Plugin.Account.{IsAccounted, held}
use zenoh_plugin_dds.Plugin.Local.{release_writer, release_reader, release_from_dds, release_to_dds}

module _ (x : External) (n others : ℕ) where
  abbrev h : ℤ
  h = pos (suc n)

  -- What the closure of `retain` keeps of a route, and what it drops, adds up.
  release_writer_balance :
      (key k : Str) (v : RouteDdsZenoh) (t : Map AdminRef × World)
      → (created h (release_writer x key k v t).1.1 ≡ created h t.1)
        × (deleted h (release_writer x key k v t).1.1
              + value_or_zero (λ r. is_handle h r.dds_reader) (release_writer x key k v t).0
            ≡ deleted h t.1 + is_handle h v.dds_reader)
  unfolding remove_local_routed_writer
  release_writer_balance key k v t =
      ground (arith, drop_route-deleted x h (remove_local_routed_writer key v) t.1)

  pub release_from_dds-IsAccounted :
      (key : Str) (s : Plugin)
      → IsAccounted others h s
      → IsAccounted others h (release_from_dds x key s)
  unfolding release_from_dds held
  release_from_dds-IsAccounted key s acc = record {
    balanced =
        let sums =
          retain_with_balance (release_writer x key) (λ t. created h t.1) (λ t. deleted h t.1)
            (λ r. is_handle h r.dds_reader) (release_writer_balance key) s.routes_from_dds
            (s.admin_space, s.world) in
        omega (arith, acc.balanced, sums.0, sums.1);
    distinct_from = retain_with-Distinct (release_writer x key) _ _ acc.distinct_from;
    distinct_to = acc.distinct_to;
  }

  release_reader_balance :
      (key k : Str) (v : RouteZenohDds) (t : Map AdminRef × World)
      → (created h (release_reader x key k v t).1.1 ≡ created h t.1)
        × (deleted h (release_reader x key k v t).1.1
              + value_or_zero (λ r. is_handle h r.dds_writer) (release_reader x key k v t).0
            ≡ deleted h t.1 + is_handle h v.dds_writer)
  unfolding remove_local_routed_reader ToDds.drop_route
  release_reader_balance key k v t =
      ground (arith, delete_dds_writer-deleted n (remove_local_routed_reader key v) t.1 x)

  pub release_to_dds-IsAccounted :
      (key : Str) (s : Plugin)
      → IsAccounted others h s
      → IsAccounted others h (release_to_dds x key s)
  unfolding release_to_dds held
  release_to_dds-IsAccounted key s acc = record {
    balanced =
        let sums =
          retain_with_balance (release_reader x key) (λ t. created h t.1) (λ t. deleted h t.1)
            (λ r. is_handle h r.dds_writer) (release_reader_balance key) s.routes_to_dds
            (s.admin_space, s.world) in
        omega (arith, acc.balanced, sums.0, sums.1);
    distinct_from = acc.distinct_from;
    distinct_to = retain_with-Distinct (release_reader x key) _ _ acc.distinct_to;
  }

  pub remove_dds_writer-IsAccounted :
      (key : Str) (s : Plugin)
      → IsAccounted others h s
      → Ensures (λ t. IsAccounted others h t.1) (remove_dds_writer x key s)
  unfolding remove_dds_writer held
  remove_dds_writer-IsAccounted key s acc = elim (Option-cases (Map.get key s.discovered_writers)) [
    | inl e ↦ rw (e, remove_dds_writer) acc
    | inr (e, found) ↦
        rw (found, remove_dds_writer)
          (Ensures-bind (λ _. Unit {0}) (λ t. IsAccounted others h t.1)
            (get_entity_admin_keyexpr x e true) _ (Ensures-any _)
            λ adm _. record {
              balanced = acc.balanced;
              distinct_from = acc.distinct_from;
              distinct_to = acc.distinct_to;
            })
  ]

  pub remove_dds_reader-IsAccounted :
      (key : Str) (s : Plugin)
      → IsAccounted others h s
      → Ensures (λ t. IsAccounted others h t.1) (remove_dds_reader x key s)
  unfolding remove_dds_reader held
  remove_dds_reader-IsAccounted key s acc = elim (Option-cases (Map.get key s.discovered_readers)) [
    | inl e ↦ rw (e, remove_dds_reader) acc
    | inr (e, found) ↦
        rw (found, remove_dds_reader)
          (Ensures-bind (λ _. Unit {0}) (λ t. IsAccounted others h t.1)
            (get_entity_admin_keyexpr x e false) _ (Ensures-any _)
            λ adm _. record {
              balanced = acc.balanced;
              distinct_from = acc.distinct_from;
              distinct_to = acc.distinct_to;
            })
  ]

  pub remove_dds_participant-IsAccounted :
      (key : Str) (s : Plugin)
      → IsAccounted others h s
      → Ensures (λ t. IsAccounted others h t.1) (remove_dds_participant x key s)
  unfolding remove_dds_participant held
  remove_dds_participant-IsAccounted key s acc =
      elim (Option-cases (Map.get key s.discovered_participants)) [
        | inl e ↦ rw (e, remove_dds_participant) acc
        | inr (e, found) ↦
            rw (found, remove_dds_participant)
              (Ensures-bind (λ _. Unit {0}) (λ t. IsAccounted others h t.1)
                (get_participant_admin_keyexpr x e) _ (Ensures-any _)
                λ adm _. record {
                  balanced = acc.balanced;
                  distinct_from = acc.distinct_from;
                  distinct_to = acc.distinct_to;
                })
      ]
