-- ===== src/Plugin/Local/Account.antt =====
-- zenoh-plugin-dds/src/lib.rs, `run_local_discovery_mode`: no handler of a discovery event loses track
-- of a DDS reader or writer.
use zenoh_plugin_dds.Base.{ℕ, suc, refl, true, false, Option, none, some, arith}
use zenoh_plugin_dds.Base.Tests.{Ensures, Ensures-bind, Ensures-any, ◌>>=◌}
use zenoh_plugin_dds.Base.Int.{ℤ, pos}
use zenoh_plugin_dds.Base.Text.{Str}
use zenoh_plugin_dds.Base.Map.{Map, Distinct}
use zenoh_plugin_dds.Base.Map
use zenoh_plugin_dds.Base.Total.{total-modify_same}
use zenoh_plugin_dds.World.{External}
use zenoh_plugin_dds.Dds.Handles.{is_handle}
use zenoh_plugin_dds.Entity.{
  DdsEntity, RouteStatus, routed, not_allowed, creation_failure, qos_conflict, DiscoveryEvent,
  discovered_publication, undiscovered_publication, discovered_subscription,
  undiscovered_subscription, discovered_participant, undiscovered_participant,
}
use zenoh_plugin_dds.Keyexpr.{get_entity_admin_keyexpr, get_participant_admin_keyexpr}
use zenoh_plugin_dds.Route.FromDds.{add_local_routed_writer}
use zenoh_plugin_dds.Route.ToDds.{add_local_routed_reader}
use zenoh_plugin_dds.Plugin.{
  Plugin, remove_dds_writer, remove_dds_reader, remove_dds_participant, insert_dds_writer,
  insert_dds_reader, insert_dds_participant,
}
use zenoh_plugin_dds.Plugin.Account.{
  IsAccounted, held, try_add_route_from_dds-IsAccounted, try_add_route_to_dds-IsAccounted,
}
use zenoh_plugin_dds.Plugin.Local.{
  note_writer, note_reader, release_from_dds, release_to_dds, local_step, on_discovered_publication,
  on_undiscovered_publication, on_discovered_subscription, on_undiscovered_subscription,
  on_discovered_participant, on_undiscovered_participant, publication_routes, subscription_routes,
}
use zenoh_plugin_dds.Plugin.Local.Release.{
  release_from_dds-IsAccounted, release_to_dds-IsAccounted, remove_dds_writer-IsAccounted,
  remove_dds_reader-IsAccounted, remove_dds_participant-IsAccounted,
}
use zenoh_plugin_dds.Plugin.Local.Keeps.{publication_routes-keeps, subscription_routes-keeps}

module _ (x : External) (n others : ℕ) where
  abbrev h : ℤ
  h = pos (suc n)

  note_writer-IsAccounted :
      (key : Str) (status : RouteStatus) (s : Plugin)
      → IsAccounted others h s
      → IsAccounted others h (note_writer key status s)
  unfolding held add_local_routed_writer
  note_writer-IsAccounted key (routed k) s acc = record {
    balanced = omega (
      arith,
      acc.balanced,
      total-modify_same (λ r. is_handle h r.dds_reader) k (add_local_routed_writer key)
          s.routes_from_dds (λ r. refl),
    );
    distinct_from =
        Map.modify-Distinct k (add_local_routed_writer key) s.routes_from_dds acc.distinct_from;
    distinct_to = acc.distinct_to;
  }
  note_writer-IsAccounted key not_allowed s acc = acc
  note_writer-IsAccounted key (creation_failure e) s acc = acc
  note_writer-IsAccounted key qos_conflict s acc = acc

  pub note_reader-IsAccounted :
      (key : Str) (status : RouteStatus) (s : Plugin)
      → IsAccounted others h s
      → IsAccounted others h (note_reader key status s)
  unfolding held add_local_routed_reader
  note_reader-IsAccounted key (routed k) s acc = record {
    balanced = omega (
      arith,
      acc.balanced,
      total-modify_same (λ r. is_handle h r.dds_writer) k (add_local_routed_reader key)
          s.routes_to_dds (λ r. refl),
    );
    distinct_from = acc.distinct_from;
    distinct_to =
        Map.modify-Distinct k (add_local_routed_reader key) s.routes_to_dds acc.distinct_to;
  }
  note_reader-IsAccounted key not_allowed s acc = acc
  note_reader-IsAccounted key (creation_failure e) s acc = acc
  note_reader-IsAccounted key qos_conflict s acc = acc

  insert_dds_writer-IsAccounted :
      (adm : Str) (e : DdsEntity) (s : Plugin)
      → IsAccounted others h s
      → IsAccounted others h (insert_dds_writer adm e s)
  unfolding insert_dds_writer held
  insert_dds_writer-IsAccounted adm e s acc = record {
    balanced = acc.balanced;
    distinct_from = acc.distinct_from;
    distinct_to = acc.distinct_to;
  }

  insert_dds_reader-IsAccounted :
      (adm : Str) (e : DdsEntity) (s : Plugin)
      → IsAccounted others h s
      → IsAccounted others h (insert_dds_reader adm e s)
  unfolding insert_dds_reader held
  insert_dds_reader-IsAccounted adm e s acc = record {
    balanced = acc.balanced;
    distinct_from = acc.distinct_from;
    distinct_to = acc.distinct_to;
  }

  on_discovered_publication-IsAccounted :
      (e : DdsEntity) (s : Plugin)
      → IsAccounted others h s
      → Ensures (IsAccounted others h) (on_discovered_publication x e s)
  unfolding on_discovered_publication
  on_discovered_publication-IsAccounted e s acc =
      Ensures-bind (λ _. Unit {0}) (IsAccounted others h) (get_entity_admin_keyexpr x e true)
        (λ adm. publication_routes x e s >>= λ t.
          some (insert_dds_writer adm (record e { routes = t.0 }) t.1))
        (Ensures-any _)
        λ adm _.
          Ensures-bind (λ t. IsAccounted others h t.1) (IsAccounted others h)
            (publication_routes x e s)
            (λ t. some (insert_dds_writer adm (record e { routes = t.0 }) t.1))
            (publication_routes-keeps x e (IsAccounted others h)
              (λ t ke qos cc i. try_add_route_from_dds-IsAccounted n others x ke t i _ _ _ _ qos cc)
              (note_writer-IsAccounted e.key) s acc)
            λ t it. insert_dds_writer-IsAccounted adm (record e { routes = t.0 }) t.1 it

  on_discovered_subscription-IsAccounted :
      (e : DdsEntity) (s : Plugin)
      → IsAccounted others h s
      → Ensures (IsAccounted others h) (on_discovered_subscription x e s)
  unfolding on_discovered_subscription
  on_discovered_subscription-IsAccounted e s acc =
      Ensures-bind (λ _. Unit {0}) (IsAccounted others h) (get_entity_admin_keyexpr x e false)
        (λ adm. subscription_routes x e s >>= λ t.
          some (insert_dds_reader adm (record e { routes = t.0 }) t.1))
        (Ensures-any _)
        λ adm _.
          Ensures-bind (λ t. IsAccounted others h t.1) (IsAccounted others h)
            (subscription_routes x e s)
            (λ t. some (insert_dds_reader adm (record e { routes = t.0 }) t.1))
            (subscription_routes-keeps x e (IsAccounted others h)
              (λ t ke transient qos i.
                try_add_route_to_dds-IsAccounted n others x ke t i _ _ _ _ transient qos)
              (note_reader-IsAccounted e.key) s acc)
            λ t it. insert_dds_reader-IsAccounted adm (record e { routes = t.0 }) t.1 it

  release_writer_if :
      (key : Str) (o : Option (Str × DdsEntity)) (s : Plugin)
      → IsAccounted others h s
      → Ensures
          (IsAccounted others h)
          (elim o [ none ↦ some s | some _ ↦ some (release_from_dds x key s) ])
  release_writer_if key none s acc = acc
  release_writer_if key (some _) s acc = release_from_dds-IsAccounted x n others key s acc

  release_reader_if :
      (key : Str) (o : Option (Str × DdsEntity)) (s : Plugin)
      → IsAccounted others h s
      → Ensures
          (IsAccounted others h)
          (elim o [ none ↦ some s | some _ ↦ some (release_to_dds x key s) ])
  release_reader_if key none s acc = acc
  release_reader_if key (some _) s acc = release_to_dds-IsAccounted x n others key s acc

  -- Every handler of a discovery event keeps the account of every DDS handle: what was created and
  -- not yet deleted is held by a route, and by one only.
  pub local_step-IsAccounted :
      (event : DiscoveryEvent) (s : Plugin)
      → IsAccounted others h s
      → Ensures (IsAccounted others h) (local_step x event s)
  unfolding local_step on_undiscovered_publication on_undiscovered_subscription
      on_discovered_participant on_undiscovered_participant insert_dds_participant held
  local_step-IsAccounted (discovered_publication e) s acc =
      on_discovered_publication-IsAccounted e s acc
  local_step-IsAccounted (undiscovered_publication key) s acc =
      Ensures-bind (λ t. IsAccounted others h t.1) (IsAccounted others h)
        (remove_dds_writer x key s) _ (remove_dds_writer-IsAccounted x n others key s acc)
        λ t it. release_writer_if key t.0 t.1 it
  local_step-IsAccounted (discovered_subscription e) s acc =
      on_discovered_subscription-IsAccounted e s acc
  local_step-IsAccounted (undiscovered_subscription key) s acc =
      Ensures-bind (λ t. IsAccounted others h t.1) (IsAccounted others h)
        (remove_dds_reader x key s) _ (remove_dds_reader-IsAccounted x n others key s acc)
        λ t it. release_reader_if key t.0 t.1 it
  local_step-IsAccounted (discovered_participant e) s acc =
      Ensures-bind (λ _. Unit {0}) (IsAccounted others h) (get_participant_admin_keyexpr x e) _
        (Ensures-any _)
        λ adm _. record {
          balanced = acc.balanced;
          distinct_from = acc.distinct_from;
          distinct_to = acc.distinct_to;
        }
  local_step-IsAccounted (undiscovered_participant key) s acc =
      Ensures-bind (λ t. IsAccounted others h t.1) (IsAccounted others h)
        (remove_dds_participant x key s) _ (remove_dds_participant-IsAccounted x n others key s acc)
        λ t it. it
