-- ===== src/Plugin/Fwd/Account.antt =====
-- zenoh-plugin-dds/src/lib.rs, `run_fwd_discovery_mode`: the routes that are released, and those whose
-- entities change, lose no DDS reader or writer.
use zenoh_plugin_dds.Base.{ℕ, suc, ◌+◌, ◌≡◌, refl, ap, false, Option, [], ◌∷◌, arith, inl, inr}
use zenoh_plugin_dds.Base.Tests.{Bool-cases, Option-cases}
use zenoh_plugin_dds.Base.Int.{ℤ, pos}
use zenoh_plugin_dds.Base.Text.{Str}
use zenoh_plugin_dds.Base.Map.{Map}
use zenoh_plugin_dds.Base.Map
use zenoh_plugin_dds.Base.Total.{total-modify_same}
use zenoh_plugin_dds.Base.Retain.{value_or_zero, retain_with_balance, retain_with-Distinct}
use zenoh_plugin_dds.World.{External, World}
use zenoh_plugin_dds.Dds.Handles.{created, deleted, is_handle}
use zenoh_plugin_dds.Entity.{
  DdsEntity, RouteStatus, routed, not_allowed, creation_failure, qos_conflict,
}
use zenoh_plugin_dds.Route.FromDds.{
  RouteDdsZenoh, remove_remote_routed_reader, add_remote_routed_reader, add_local_routed_writer,
  remove_remote_routed_readers_containing,
}
use zenoh_plugin_dds.Route.FromDds.Laws.{drop_route-deleted}
use zenoh_plugin_dds.Route.ToDds.{
  RouteZenohDds, remove_local_routed_reader, has_local_routed_reader, has_remote_routed_writer,
  remove_remote_routed_writer, add_remote_routed_writer, add_local_routed_reader, delete_dds_writer,
  remove_remote_routed_writers_containing, dds_entity_null,
}
use zenoh_plugin_dds.Route.ToDds
use zenoh_plugin_dds.Route.ToDds.Laws.{delete_dds_writer-deleted}
use zenoh_plugin_dds.Ros.{ParticipantEntitiesInfo}
use zenoh_plugin_dds.Plugin.{Plugin, AdminRef}
use zenoh_plugin_dds.Plugin.Account.{IsAccounted, held, no_handle}
use zenoh_plugin_dds.Plugin.Fwd.{Codec, fwd_release_reader, retain_to_dds}
use zenoh_plugin_dds.Plugin.Fwd.Remote.{
  add_matching, is_matching, note_remote_writer, note_remote_reader, release_remote_writer,
  release_remote_reader, retain_from_dds,
}
use zenoh_plugin_dds.Plugin.Fwd.Group.{
  Leaving, admin_subke, leave_to_dds, leave_from_dds, drop_left,
}

module _ (topic_name : Str) (part : Option Str) (status : RouteStatus) where
  pub add_matching-dds_writer :
      (locals : Map DdsEntity) (r : RouteZenohDds)
      → (add_matching add_local_routed_reader topic_name part status locals r).dds_writer
        ≡ r.dds_writer
  unfolding add_matching add_local_routed_reader
  add_matching-dds_writer [] r = refl
  add_matching-dds_writer ((k, local) ∷ locals) r =
      elim (Bool-cases (is_matching topic_name part local)) [
        | inl t ↦
            rw (t, add_matching)
              (add_matching-dds_writer locals (add_local_routed_reader local.key r))
        | inr f ↦ rw (f, add_matching) (add_matching-dds_writer locals r)
      ]

  pub add_matching-dds_reader :
      (locals : Map DdsEntity) (r : RouteDdsZenoh)
      → (add_matching add_local_routed_writer topic_name part status locals r).dds_reader
        ≡ r.dds_reader
  unfolding add_matching add_local_routed_writer
  add_matching-dds_reader [] r = refl
  add_matching-dds_reader ((k, local) ∷ locals) r =
      elim (Bool-cases (is_matching topic_name part local)) [
        | inl t ↦
            rw (t, add_matching)
              (add_matching-dds_reader locals (add_local_routed_writer local.key r))
        | inr f ↦ rw (f, add_matching) (add_matching-dds_reader locals r)
      ]

module _ (x : External) (n others : ℕ) where
  abbrev h : ℤ
  h = pos (suc n)

  abbrev writes : RouteZenohDds → ℕ
  writes r = is_handle h r.dds_writer

  abbrev reads : RouteDdsZenoh → ℕ
  reads r = is_handle h r.dds_reader

  pub note_remote_writer-IsAccounted :
      (ke topic_name : Str) (part : Option Str) (status : RouteStatus) (s : Plugin)
      → IsAccounted others h s
      → IsAccounted others h (note_remote_writer x ke topic_name part status s)
  unfolding held add_remote_routed_writer
  note_remote_writer-IsAccounted ke topic_name part (routed k) s acc =
      elim (Option-cases (Map.get k s.routes_to_dds)) [
        | inl e ↦ rw (e, note_remote_writer) acc
        | inr (r, e) ↦
            rw (e, note_remote_writer)
              (record {
                balanced = omega (
                  arith,
                  acc.balanced,
                  total-modify_same writes k
                      (λ r.
                        add_matching add_local_routed_reader topic_name part (routed k)
                          s.discovered_readers (add_remote_routed_writer ke r))
                      s.routes_to_dds
                      (λ r. ap (is_handle h) (
                        add_matching-dds_writer topic_name part (routed k) s.discovered_readers
                          (add_remote_routed_writer ke r))),
                );
                distinct_from = acc.distinct_from;
                distinct_to = Map.modify-Distinct k _ s.routes_to_dds acc.distinct_to;
              })
      ]
  note_remote_writer-IsAccounted ke topic_name part not_allowed s acc = acc
  note_remote_writer-IsAccounted ke topic_name part (creation_failure e) s acc = acc
  note_remote_writer-IsAccounted ke topic_name part qos_conflict s acc = acc

  pub note_remote_reader-IsAccounted :
      (ke topic_name : Str) (part : Option Str) (status : RouteStatus) (s : Plugin)
      → IsAccounted others h s
      → IsAccounted others h (note_remote_reader x ke topic_name part status s)
  unfolding held add_remote_routed_reader
  note_remote_reader-IsAccounted ke topic_name part (routed k) s acc =
      elim (Option-cases (Map.get k s.routes_from_dds)) [
        | inl e ↦ rw (e, note_remote_reader) acc
        | inr (r, e) ↦
            rw (e, note_remote_reader)
              (record {
                balanced = omega (
                  arith,
                  acc.balanced,
                  total-modify_same reads k
                      (λ r.
                        add_matching add_local_routed_writer topic_name part (routed k)
                          s.discovered_writers (add_remote_routed_reader ke r))
                      s.routes_from_dds
                      (λ r. ap (is_handle h) (
                        add_matching-dds_reader topic_name part (routed k) s.discovered_writers
                          (add_remote_routed_reader ke r))),
                );
                distinct_from = Map.modify-Distinct k _ s.routes_from_dds acc.distinct_from;
                distinct_to = acc.distinct_to;
              })
      ]
  note_remote_reader-IsAccounted ke topic_name part not_allowed s acc = acc
  note_remote_reader-IsAccounted ke topic_name part (creation_failure e) s acc = acc
  note_remote_reader-IsAccounted ke topic_name part qos_conflict s acc = acc

  -- What a closure of `retain` keeps of a route, and what it drops, adds up.
  abbrev Balances :
      {V S : Type 0} (world : S → World) (g : V → ℕ) (f : Str → V → S → Option V × S) → Type 0
  Balances {V} {S} world g f =
      (k : Str) (v : V) (s : S)
      → (created h (world (f k v s).1) ≡ created h (world s))
        × (deleted h (world (f k v s).1) + value_or_zero g (f k v s).0 ≡ deleted h (world s) + g v)

  pub retain_to_dds-IsAccounted :
      (f : Str
        → RouteZenohDds
        → Map AdminRef × World
        → Option RouteZenohDds × (Map AdminRef × World))
      (s : Plugin)
      → Balances (λ t. t.1) writes f
      → IsAccounted others h s
      → IsAccounted others h (retain_to_dds f s)
  unfolding retain_to_dds held
  retain_to_dds-IsAccounted f s law acc = record {
    balanced =
        let sums =
          retain_with_balance f (λ t. created h t.1) (λ t. deleted h t.1) writes law s.routes_to_dds
            (s.admin_space, s.world) in
        omega (arith, acc.balanced, sums.0, sums.1);
    distinct_from = acc.distinct_from;
    distinct_to = retain_with-Distinct f _ _ acc.distinct_to;
  }

  pub retain_from_dds-IsAccounted :
      (f : Str
        → RouteDdsZenoh
        → Map AdminRef × World
        → Option RouteDdsZenoh × (Map AdminRef × World))
      (s : Plugin)
      → Balances (λ t. t.1) reads f
      → IsAccounted others h s
      → IsAccounted others h (retain_from_dds f s)
  unfolding retain_from_dds held
  retain_from_dds-IsAccounted f s law acc = record {
    balanced =
        let sums =
          retain_with_balance f (λ t. created h t.1) (λ t. deleted h t.1) reads law
            s.routes_from_dds (s.admin_space, s.world) in
        omega (arith, acc.balanced, sums.0, sums.1);
    distinct_from = retain_with-Distinct f _ _ acc.distinct_from;
    distinct_to = acc.distinct_to;
  }

  pub fwd_release_reader-Balances :
      (c : Codec) (key : Str) → Balances (λ t. t.1) writes (fwd_release_reader x c key)
  unfolding remove_local_routed_reader ToDds.drop_route
  fwd_release_reader-Balances c key k v t =
      ground (arith, delete_dds_writer-deleted n (remove_local_routed_reader key v) t.1 x)

  pub release_remote_reader-Balances :
      (ke : Str) → Balances (λ t. t.1) reads (release_remote_reader x ke)
  unfolding remove_remote_routed_reader
  release_remote_reader-Balances ke k v t =
      ground (arith, drop_route-deleted x h (remove_remote_routed_reader ke v) t.1)

  pub release_remote_writer-Balances :
      (ke : Str) → Balances (λ t. t.1) writes (release_remote_writer x ke)
  unfolding remove_remote_routed_writer ToDds.drop_route
  release_remote_writer-Balances ke k v t =
      let r = remove_remote_routed_writer ke v in
      let first = delete_dds_writer-deleted n r t.1 x in
      let bare = delete_dds_writer x r t.1 in
      let again = delete_dds_writer-deleted n bare.0 bare.1 x in
      ground (arith, first, again, no_handle n bare.0.dds_writer first.0)

  leave_to_dds-Balances :
      (c : Codec) (zid : Str) → Balances (λ t. t.1.0) writes (leave_to_dds x c zid)
  unfolding remove_remote_routed_writers_containing ToDds.drop_route
  leave_to_dds-Balances c zid k v t = ground (
    arith,
    delete_dds_writer-deleted n (remove_remote_routed_writers_containing (admin_subke x c zid) v)
        t.1.0 x,
  )

  leave_from_dds-Balances :
      (c : Codec) (zid : Str) → Balances (λ t. t.1.0) reads (leave_from_dds x c zid)
  unfolding remove_remote_routed_readers_containing
  leave_from_dds-Balances c zid k v t = ground (
    arith,
    drop_route-deleted x h (remove_remote_routed_readers_containing (admin_subke x c zid) v) t.1.0,
  )

  pub drop_left-IsAccounted :
      (c : Codec) (zid : Str) (s : Plugin) (info : ParticipantEntitiesInfo)
      → IsAccounted others h s
      → IsAccounted others h (drop_left x c zid s info).0
  unfolding drop_left held
  drop_left-IsAccounted c zid s info acc = record {
    balanced =
        let start : Leaving = (s.admin_space, (s.world, (info, false))) in
        let to =
          retain_with_balance (leave_to_dds x c zid) (λ t. created h t.1.0) (λ t. deleted h t.1.0)
            writes (leave_to_dds-Balances c zid) s.routes_to_dds start in
        let from =
          retain_with_balance (leave_from_dds x c zid) (λ t. created h t.1.0) (λ t. deleted h t.1.0)
            reads (leave_from_dds-Balances c zid) s.routes_from_dds
            (Map.retain_with (leave_to_dds x c zid) s.routes_to_dds start).1 in
        omega (arith, acc.balanced, to.0, to.1, from.0, from.1);
    distinct_from = retain_with-Distinct (leave_from_dds x c zid) _ _ acc.distinct_from;
    distinct_to = retain_with-Distinct (leave_to_dds x c zid) _ _ acc.distinct_to;
  }
