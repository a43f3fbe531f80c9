-- ===== src/Plugin/Admin/Routes.antt =====
-- zenoh-plugin-dds/src/lib.rs: the admin space while routes are created, changed and dropped.
use zenoh_plugin_dds.Base.{◌≡◌, refl, ap, sym, ◌∙◌, subst, Bool, Option, inl, inr}
use zenoh_plugin_dds.Base.Tests.{Bool-cases}
use zenoh_plugin_dds.Base.Text.{Str}
use zenoh_plugin_dds.Base.Map.{Map, Distinct, get-remove, cons_opt, retain_with}
use zenoh_plugin_dds.Base.Map
use zenoh_plugin_dds.World.{External, World}
use zenoh_plugin_dds.Keyexpr.{ke_prefix_route_from_dds, ke_prefix_route_to_dds}
use zenoh_plugin_dds.Route.FromDds.{
  RouteDdsZenoh, remove_local_routed_writer, has_local_routed_writer,
}
use zenoh_plugin_dds.Route.ToDds.{
  RouteZenohDds, remove_local_routed_reader, has_local_routed_reader,
}
use zenoh_plugin_dds.Plugin.{
  Plugin, AdminRef, from_dds_route, to_dds_route, insert_route_from_dds, insert_route_to_dds,
}
use zenoh_plugin_dds.Plugin.Local.{release_writer, release_reader, release_from_dds, release_to_dds}
use zenoh_plugin_dds.Plugin.Admin.Registered.{
  Known, insert-Known, insert-Known_new, insert-IsRegistered, Keeps-Points,
}
use zenoh_plugin_dds.Plugin.Admin.Entries.{IsServed}
use zenoh_plugin_dds.Plugin.Admin.Retained.{
  Closes, retain_with-entries, retain_with-entries_Distinct,
}

-- The state after a `retain` over its routes.
module _ {S : Type 0} (admin : S → Map AdminRef) where
  abbrev pub retained_from_dds :
      (Str → RouteDdsZenoh → S → Option RouteDdsZenoh × S) → Plugin → S → World → Plugin
  retained_from_dds close s t w = record s {
    routes_from_dds = (retain_with close s.routes_from_dds t).0;
    admin_space = admin (retain_with close s.routes_from_dds t).1;
    world = w;
  }

  abbrev pub retained_to_dds :
      (Str → RouteZenohDds → S → Option RouteZenohDds × S) → Plugin → S → World → Plugin
  retained_to_dds close s t w = record s {
    routes_to_dds = (retain_with close s.routes_to_dds t).0;
    admin_space = admin (retain_with close s.routes_to_dds t).1;
    world = w;
  }

module _ (x : External) (place : Bool → Str → Str × Str) where
  -- The routes may change, if none is lost.
  pub moved_routes-IsServed :
      (s : Plugin) (from : Map RouteDdsZenoh) (to : Map RouteZenohDds) (w : World)
      → ((k : Str) → Known k s.routes_from_dds → Known k from)
      → ((k : Str) → Known k s.routes_to_dds → Known k to)
      → IsServed x place s
      → IsServed x place (record s { routes_from_dds = from; routes_to_dds = to; world = w })
  moved_routes-IsServed s from to w f g i = record {
    registered = λ a ref h.
        Keeps-Points x place a s
          (record s { routes_from_dds = from; routes_to_dds = to; world = w }) ref
          (record {
            participants = λ k _ v. v;
            writers = λ k _ v. v;
            readers = λ k _ v. v;
            from_dds = λ k _ v. f k v;
            to_dds = λ k _ v. g k v;
          })
          (i.registered a ref h);
    distinct = i.distinct;
    participants = i.participants;
    writers = i.writers;
    readers = i.readers;
  }

  pub insert_route_from_dds-IsServed :
      (ke : Str) (r : RouteDdsZenoh) (s : Plugin)
      → IsServed x place s
      → IsServed x place (insert_route_from_dds x ke r s)
  unfolding insert_route_from_dds
  insert_route_from_dds-IsServed ke r s i = record {
    registered =
        insert-IsRegistered x place s (insert_route_from_dds x ke r s) _ (from_dds_route ke) refl
          (insert-Known_new ke r s.routes_from_dds, refl)
          (λ a. record {
            participants = λ k _ v. v;
            writers = λ k _ v. v;
            readers = λ k _ v. v;
            from_dds = λ k _ v. insert-Known ke k r s.routes_from_dds v;
            to_dds = λ k _ v. v;
          })
          i.registered;
    distinct = Map.insert-Distinct _ _ s.admin_space i.distinct;
    participants = i.participants;
    writers = i.writers;
    readers = i.readers;
  }

  pub insert_route_to_dds-IsServed :
      (ke : Str) (r : RouteZenohDds) (s : Plugin)
      → IsServed x place s
      → IsServed x place (insert_route_to_dds x ke r s)
  unfolding insert_route_to_dds
  insert_route_to_dds-IsServed ke r s i = record {
    registered =
        insert-IsRegistered x place s (insert_route_to_dds x ke r s) _ (to_dds_route ke) refl
          (insert-Known_new ke r s.routes_to_dds, refl)
          (λ a. record {
            participants = λ k _ v. v;
            writers = λ k _ v. v;
            readers = λ k _ v. v;
            from_dds = λ k _ v. v;
            to_dds = λ k _ v. insert-Known ke k r s.routes_to_dds v;
          })
          i.registered;
    distinct = Map.insert-Distinct _ _ s.admin_space i.distinct;
    participants = i.participants;
    writers = i.writers;
    readers = i.readers;
  }

  -- A `retain` over the routes from DDS.
  pub retained_from_dds-IsServed :
      {S : Type 0} (admin : S → Map AdminRef)
      (close : Str → RouteDdsZenoh → S → Option RouteDdsZenoh × S) (s : Plugin) (t : S) (w : World)
      → Closes admin (λ k. x.div ke_prefix_route_from_dds k) close
      → admin t ≡ s.admin_space
      → IsServed x place s
      → IsServed x place (retained_from_dds admin close s t w)
  retained_from_dds-IsServed admin close s t w law same i = record {
    registered = λ a ref h.
        let (before, kept) =
          retain_with-entries admin (λ k. x.div ke_prefix_route_from_dds k) close law
            s.routes_from_dds t a ref h in
        Keeps-Points x place a s (retained_from_dds admin close s t w) ref
          (record {
            participants = λ k _ v. v;
            writers = λ k _ v. v;
            readers = λ k _ v. v;
            from_dds = kept;
            to_dds = λ k _ v. v;
          })
          (i.registered a ref (ap (Map.get a) (sym same) ∙ before));
    distinct =
        retain_with-entries_Distinct admin (λ k. x.div ke_prefix_route_from_dds k) close law
          s.routes_from_dds t (subst Distinct (sym same) i.distinct);
    participants = i.participants;
    writers = i.writers;
    readers = i.readers;
  }

  -- A `retain` over the routes to DDS.
  pub retained_to_dds-IsServed :
      {S : Type 0} (admin : S → Map AdminRef)
      (close : Str → RouteZenohDds → S → Option RouteZenohDds × S) (s : Plugin) (t : S) (w : World)
      → Closes admin (λ k. x.div ke_prefix_route_to_dds k) close
      → admin t ≡ s.admin_space
      → IsServed x place s
      → IsServed x place (retained_to_dds admin close s t w)
  retained_to_dds-IsServed admin close s t w law same i = record {
    registered = λ a ref h.
        let (before, kept) =
          retain_with-entries admin (λ k. x.div ke_prefix_route_to_dds k) close law s.routes_to_dds
            t a ref h in
        Keeps-Points x place a s (retained_to_dds admin close s t w) ref
          (record {
            participants = λ k _ v. v;
            writers = λ k _ v. v;
            readers = λ k _ v. v;
            from_dds = λ k _ v. v;
            to_dds = kept;
          })
          (i.registered a ref (ap (Map.get a) (sym same) ∙ before));
    distinct =
        retain_with-entries_Distinct admin (λ k. x.div ke_prefix_route_to_dds k) close law
          s.routes_to_dds t (subst Distinct (sym same) i.distinct);
    participants = i.participants;
    writers = i.writers;
    readers = i.readers;
  }

  release_writer-Closes :
      (key : Str) → Closes (λ t. t.0) (λ k. x.div ke_prefix_route_from_dds k) (release_writer x key)
  release_writer-Closes key k v t =
      elim (Bool-cases (has_local_routed_writer (remove_local_routed_writer key v))) [
        | inl y ↦ inl (rw y refl, (remove_local_routed_writer key v, rw y refl))
        | inr f ↦ inr (rw f refl)
      ]

  release_reader-Closes :
      (key : Str) → Closes (λ t. t.0) (λ k. x.div ke_prefix_route_to_dds k) (release_reader x key)
  release_reader-Closes key k v t =
      elim (Bool-cases (has_local_routed_reader (remove_local_routed_reader key v))) [
        | inl y ↦ inl (rw y refl, (remove_local_routed_reader key v, rw y refl))
        | inr f ↦ inr (rw f refl)
      ]

  pub release_from_dds-IsServed :
      (key : Str) (s : Plugin) → IsServed x place s → IsServed x place (release_from_dds x key s)
  unfolding release_from_dds
  release_from_dds-IsServed key s i =
      retained_from_dds-IsServed (λ t. t.0) (release_writer x key) s (s.admin_space, s.world) _
        (release_writer-Closes key) refl i

  pub release_to_dds-IsServed :
      (key : Str) (s : Plugin) → IsServed x place s → IsServed x place (release_to_dds x key s)
  unfolding release_to_dds
  release_to_dds-IsServed key s i =
      retained_to_dds-IsServed (λ t. t.0) (release_reader x key) s (s.admin_space, s.world) _
        (release_reader-Closes key) refl i
