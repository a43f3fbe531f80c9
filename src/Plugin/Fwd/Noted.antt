-- ===== src/Plugin/Fwd/Noted.antt =====
-- zenoh-plugin-dds/src/lib.rs, `run_fwd_discovery_mode`: the admin space while a route is added to the
-- matching local entities.
use zenoh_plugin_dds.Base.{◌≡◌, subst, sym, ◌∙◌, Bool, true, false, Option, some, arith, inl, inr}
use zenoh_plugin_dds.Base.Tests.{Bool-cases, Option-cases, >>=-eq-some, if◌then◌else◌}
use zenoh_plugin_dds.Base.Text.{Str}
use zenoh_plugin_dds.Base.Map.{Map, get-map_values}
use zenoh_plugin_dds.Base.Map
use zenoh_plugin_dds.World.{External}
use zenoh_plugin_dds.Entity.{
  DdsEntity, RouteStatus, routed, not_allowed, creation_failure, qos_conflict,
}
use zenoh_plugin_dds.Route.FromDds.{add_remote_routed_reader, add_local_routed_writer}
use zenoh_plugin_dds.Route.ToDds.{add_remote_routed_writer, add_local_routed_reader}
use zenoh_plugin_dds.Plugin.{Plugin}
use zenoh_plugin_dds.Plugin.Admin.Registered.{Known, Keeps-Points, modify-Known}
use zenoh_plugin_dds.Plugin.Admin.Entries.{IsServed, IsPlaced}
use zenoh_plugin_dds.Plugin.Admin.Routes.{moved_routes-IsServed}
use zenoh_plugin_dds.Plugin.Fwd.Remote.{
  label, is_matching, add_matching, note_matching, note_remote_writer, note_remote_reader,
}

map_values-Known :
    {V : Type 0} (f : V → V) (k : Str) (m : Map V) → Known k m → Known k (Map.map_values f m)
map_values-Known f k m (v, e) = (f v, ground (arith, get-map_values f k m))

map_values-Each :
    {V : Type 0} (P : Str → V → Type 0) (f : V → V) (m : Map V)
    → ((k : Str) (v : V) → P k v → P k (f v))
    → Map.Each P m
    → Map.Each P (Map.map_values f m)
map_values-Each P f m keep each k w found =
    let (v, at, e) =
      >>=-eq-some (Map.get k m) (λ v. some (f v)) (sym (get-map_values f k m) ∙ found) in
    let same : f v ≡ w = cc in subst (P k) same (keep k v (each k v at))

module _ (x : External) (place : Bool → Str → Str × Str) where
  noted_entity-IsPlaced :
      (topic_name : Str) (part : Option Str) (status : RouteStatus) (w : Bool) (k : Str)
      (e : DdsEntity)
      → IsPlaced x place w k e
      → IsPlaced x place w k (
          if is_matching topic_name part e
          then record e { routes = Map.insert (label part) status e.routes }
          else e)
  noted_entity-IsPlaced topic_name part status w k e placed =
      elim (Bool-cases (is_matching topic_name part e)) [
        | inl t ↦ rw t placed
        | inr f ↦ rw f placed
      ]

  -- The routes of entities may change.
  module _ (f : DdsEntity → DdsEntity) (s : Plugin) (i : IsServed x place s) where
    noted_writers-IsServed :
        ((k : Str) (e : DdsEntity) → IsPlaced x place true k e → IsPlaced x place true k (f e))
        → IsServed x place (record s { discovered_writers = Map.map_values f s.discovered_writers })
    noted_writers-IsServed keep = record {
      registered = λ a ref h.
          Keeps-Points x place a s
            (record s { discovered_writers = Map.map_values f s.discovered_writers }) ref
            (record {
              participants = λ k _ v. v;
              writers = λ k _ v. map_values-Known f k s.discovered_writers v;
              readers = λ k _ v. v;
              from_dds = λ k _ v. v;
              to_dds = λ k _ v. v;
            })
            (i.registered a ref h);
      distinct = i.distinct;
      participants = i.participants;
      writers = map_values-Each (IsPlaced x place true) f s.discovered_writers keep i.writers;
      readers = i.readers;
    }

    noted_readers-IsServed :
        ((k : Str) (e : DdsEntity) → IsPlaced x place false k e → IsPlaced x place false k (f e))
        → IsServed x place (record s { discovered_readers = Map.map_values f s.discovered_readers })
    noted_readers-IsServed keep = record {
      registered = λ a ref h.
          Keeps-Points x place a s
            (record s { discovered_readers = Map.map_values f s.discovered_readers }) ref
            (record {
              participants = λ k _ v. v;
              writers = λ k _ v. v;
              readers = λ k _ v. map_values-Known f k s.discovered_readers v;
              from_dds = λ k _ v. v;
              to_dds = λ k _ v. v;
            })
            (i.registered a ref h);
      distinct = i.distinct;
      participants = i.participants;
      writers = i.writers;
      readers = map_values-Each (IsPlaced x place false) f s.discovered_readers keep i.readers;
    }

  pub note_remote_writer-IsServed :
      (ke topic_name : Str) (part : Option Str) (status : RouteStatus) (s : Plugin)
      → IsServed x place s
      → IsServed x place (note_remote_writer x ke topic_name part status s)
  unfolding note_matching
  note_remote_writer-IsServed ke topic_name part (routed j) s i =
      elim (Option-cases (Map.get j s.routes_to_dds)) [
        | inl e ↦ rw (e, note_remote_writer) i
        | inr (r, e) ↦
            rw (e, note_remote_writer)
              (noted_readers-IsServed _ _
                (moved_routes-IsServed x place s s.routes_from_dds
                  (Map.modify j
                    (λ r.
                      add_matching add_local_routed_reader topic_name part (routed j)
                        s.discovered_readers (add_remote_routed_writer ke r))
                    s.routes_to_dds)
                  s.world (λ k v. v) (λ k v. modify-Known j k _ s.routes_to_dds v) i)
                (noted_entity-IsPlaced topic_name part (routed j) false))
      ]
  note_remote_writer-IsServed ke topic_name part not_allowed s i = i
  note_remote_writer-IsServed ke topic_name part (creation_failure e) s i = i
  note_remote_writer-IsServed ke topic_name part qos_conflict s i = i

  pub note_remote_reader-IsServed :
      (ke topic_name : Str) (part : Option Str) (status : RouteStatus) (s : Plugin)
      → IsServed x place s
      → IsServed x place (note_remote_reader x ke topic_name part status s)
  unfolding note_matching
  note_remote_reader-IsServed ke topic_name part (routed j) s i =
      elim (Option-cases (Map.get j s.routes_from_dds)) [
        | inl e ↦ rw (e, note_remote_reader) i
        | inr (r, e) ↦
            rw (e, note_remote_reader)
              (noted_writers-IsServed _ _
                (moved_routes-IsServed x place s
                  (Map.modify j
                    (λ r.
                      add_matching add_local_routed_writer topic_name part (routed j)
                        s.discovered_writers (add_remote_routed_reader ke r))
                    s.routes_from_dds)
                  s.routes_to_dds s.world (λ k v. modify-Known j k _ s.routes_from_dds v) (λ k v. v)
                  i)
                (noted_entity-IsPlaced topic_name part (routed j) true))
      ]
  note_remote_reader-IsServed ke topic_name part not_allowed s i = i
  note_remote_reader-IsServed ke topic_name part (creation_failure e) s i = i
  note_remote_reader-IsServed ke topic_name part qos_conflict s i = i
