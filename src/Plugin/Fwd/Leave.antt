-- ===== src/Plugin/Fwd/Leave.antt =====
-- zenoh-plugin-dds/src/lib.rs, `run_fwd_discovery_mode`: which routes are left when a plugin leaves.
use zenoh_plugin_dds.Base.{
  ◌≡◌, refl, sym, ◌∙◌, ap, true, false, not, ◌&&◌, Option, none, some, List, [], ◌∷◌, inl, inr,
}
use zenoh_plugin_dds.Base.Tests.{is_empty, Bool-cases, if◌then◌else◌, ◌>>=◌}
use zenoh_plugin_dds.Base.Text.{Str, contains}
use zenoh_plugin_dds.Base.Set.{mem, mem-keep_if, mem_of_is_empty, member_of_not_empty}
use zenoh_plugin_dds.Base.Set
use zenoh_plugin_dds.Base.Map.{Map, Distinct, retain, retain_with, cons_opt, get-retain}
use zenoh_plugin_dds.Base.Map
use zenoh_plugin_dds.World.{External}
use zenoh_plugin_dds.Route.FromDds.{
  RouteDdsZenoh, has_remote_routed_reader, remove_remote_routed_readers_containing,
}
use zenoh_plugin_dds.Route.ToDds.{
  RouteZenohDds, has_remote_routed_writer, remove_remote_routed_writers_containing,
}
use zenoh_plugin_dds.Ros.{ParticipantEntitiesInfo}
use zenoh_plugin_dds.Plugin.{Plugin}
use zenoh_plugin_dds.Plugin.Fwd.{Fwd, Codec}
use zenoh_plugin_dds.Plugin.Fwd.Group.{
  Leaving, admin_subke, leave_to_dds, leave_from_dds, drop_left, on_member_left, write_info,
}

-- A closure that decides on the value alone keeps what `retain` keeps.
pub retain_with-retain :
    {V S : Type 0} (f : Str → V → S → Option V × S) (g : V → Option V)
    → ((k : Str) (v : V) (s : S) → (f k v s).0 ≡ g v)
    → (m : Map V) (s : S) → (retain_with f m s).0 ≡ retain (λ k. g) m
unfolding retain_with retain
retain_with-retain f g same [] s = refl
retain_with-retain f g same ((k, v) ∷ m) s =
    rw (same k v s) (ap (cons_opt k (g v)) (retain_with-retain f g same m (f k v s).1))

module _ (x : External) (c : Codec) (zid : Str) where
  -- The route without the remote entities of the plugin, if it still has one of another plugin.
  abbrev to_dds_left : RouteZenohDds → Option RouteZenohDds
  to_dds_left r =
      let r' = remove_remote_routed_writers_containing (admin_subke x c zid) r in
      if has_remote_routed_writer r' then some r' else none

  abbrev from_dds_left : RouteDdsZenoh → Option RouteDdsZenoh
  from_dds_left r =
      let r' = remove_remote_routed_readers_containing (admin_subke x c zid) r in
      if has_remote_routed_reader r' then some r' else none

  leave_to_dds-to_dds_left :
      (k : Str) (r : RouteZenohDds) (t : Leaving) → (leave_to_dds x c zid k r t).0 ≡ to_dds_left r
  leave_to_dds-to_dds_left k r t =
      elim (Bool-cases (
        has_remote_routed_writer
          (remove_remote_routed_writers_containing (admin_subke x c zid) r))) [
            | inl y ↦ rw y refl
            | inr f ↦ rw f refl
          ]

  leave_from_dds-from_dds_left :
      (k : Str) (r : RouteDdsZenoh) (t : Leaving)
      → (leave_from_dds x c zid k r t).0 ≡ from_dds_left r
  leave_from_dds-from_dds_left k r t =
      elim (Bool-cases (
        has_remote_routed_reader
          (remove_remote_routed_readers_containing (admin_subke x c zid) r))) [
            | inl y ↦ rw y refl
            | inr f ↦ rw f refl
          ]

  drop_left-routes :
      (s : Plugin) (info : ParticipantEntitiesInfo)
      → ((drop_left x c zid s info).0.routes_to_dds ≡ retain (λ k. to_dds_left) s.routes_to_dds)
        × ((drop_left x c zid s info).0.routes_from_dds
            ≡ retain (λ k. from_dds_left) s.routes_from_dds)
  unfolding drop_left
  drop_left-routes s info = (
    retain_with-retain (leave_to_dds x c zid) to_dds_left leave_to_dds-to_dds_left s.routes_to_dds
        _,
    retain_with-retain (leave_from_dds x c zid) from_dds_left leave_from_dds-from_dds_left
        s.routes_from_dds _,
  )

  pub on_member_left-drop_left :
      (f : Fwd)
      → ((on_member_left x c zid f).plugin.routes_to_dds
          ≡ (drop_left x c zid f.plugin f.participant_info).0.routes_to_dds)
        × ((on_member_left x c zid f).plugin.routes_from_dds
            ≡ (drop_left x c zid f.plugin f.participant_info).0.routes_from_dds)
  unfolding on_member_left write_info
  on_member_left-drop_left f =
      elim (Bool-cases (drop_left x c zid f.plugin f.participant_info).1.1) [
        | inl t ↦ rw t (refl, refl)
        | inr n ↦ rw n (refl, refl)
      ]

  on_member_left-get :
      (f : Fwd) (k : Str)
      → Distinct f.plugin.routes_to_dds
      → Distinct f.plugin.routes_from_dds
      → (Map.get k (on_member_left x c zid f).plugin.routes_to_dds
          ≡ (Map.get k f.plugin.routes_to_dds >>= to_dds_left))
        × (Map.get k (on_member_left x c zid f).plugin.routes_from_dds
            ≡ (Map.get k f.plugin.routes_from_dds >>= from_dds_left))
  on_member_left-get f k to from =
      let left = on_member_left-drop_left f in
      let dropped = drop_left-routes f.plugin f.participant_info in
      (
        ap (Map.get k) (left.0 ∙ dropped.0)
            ∙ get-retain (λ k. to_dds_left) k f.plugin.routes_to_dds to,
        ap (Map.get k) (left.1 ∙ dropped.1)
            ∙ get-retain (λ k. from_dds_left) k f.plugin.routes_from_dds from,
      )

-- What becomes of a set of remote entities, and of its route, if those whose key holds `sub` are gone:
-- the others stay, and the route stays just when there is one, changed in nothing else.
abbrev pub KeepsOthers : Str → List Str → List Str → Type 0
KeepsOthers sub before after =
    ((j : Str) → mem j after ≡ (not (contains j sub) && mem j before))
    × ((j : Str) × (mem j after ≡ true))

abbrev pub HasNoOther : Str → List Str → Type 0
HasNoOther sub before = (j : Str) → (not (contains j sub) && mem j before) ≡ false

abbrev pub LeftToDds : Str → Option RouteZenohDds → Option RouteZenohDds → Type 0
LeftToDds sub none after = after ≡ none
LeftToDds sub (some r) none = HasNoOther sub r.remote_routed_writers
LeftToDds sub (some r) (some r') =
    KeepsOthers sub r.remote_routed_writers r'.remote_routed_writers
    × (r' ≡ record r { remote_routed_writers = r'.remote_routed_writers })

abbrev pub LeftFromDds : Str → Option RouteDdsZenoh → Option RouteDdsZenoh → Type 0
LeftFromDds sub none after = after ≡ none
LeftFromDds sub (some r) none = HasNoOther sub r.remote_routed_readers
LeftFromDds sub (some r) (some r') =
    KeepsOthers sub r.remote_routed_readers r'.remote_routed_readers
    × (r' ≡ record r { remote_routed_readers = r'.remote_routed_readers })

-- The code's filter keeps the others.
module _ (sub : Str) (before : List Str) where
  abbrev others : List Str
  others = Set.keep_if (λ s. not (contains s sub)) before

  others-HasNoOther : is_empty others ≡ true → HasNoOther sub before
  others-HasNoOther e j =
      sym (mem-keep_if (λ s. not (contains s sub)) j before) ∙ mem_of_is_empty others e j

  others-KeepsOthers : is_empty others ≡ false → KeepsOthers sub before others
  others-KeepsOthers e =
      (λ j. mem-keep_if (λ s. not (contains s sub)) j before, member_of_not_empty others e)

module _ (x : External) (c : Codec) (zid : Str) where
  to_dds_left-LeftToDds :
      (o : Option RouteZenohDds) → LeftToDds (admin_subke x c zid) o (o >>= to_dds_left x c zid)
  unfolding has_remote_routed_writer remove_remote_routed_writers_containing
  to_dds_left-LeftToDds none = refl
  to_dds_left-LeftToDds (some r) =
      elim (Bool-cases (is_empty (others (admin_subke x c zid) r.remote_routed_writers))) [
        | inl e ↦ rw e (others-HasNoOther (admin_subke x c zid) r.remote_routed_writers e)
        | inr f ↦ rw f (others-KeepsOthers (admin_subke x c zid) r.remote_routed_writers f, refl)
      ]

  from_dds_left-LeftFromDds :
      (o : Option RouteDdsZenoh) → LeftFromDds (admin_subke x c zid) o (o >>= from_dds_left x c zid)
  unfolding has_remote_routed_reader remove_remote_routed_readers_containing
  from_dds_left-LeftFromDds none = refl
  from_dds_left-LeftFromDds (some r) =
      elim (Bool-cases (is_empty (others (admin_subke x c zid) r.remote_routed_readers))) [
        | inl e ↦ rw e (others-HasNoOther (admin_subke x c zid) r.remote_routed_readers e)
        | inr f ↦ rw f (others-KeepsOthers (admin_subke x c zid) r.remote_routed_readers f, refl)
      ]

  -- When a plugin leaves, each route loses exactly the remote entities whose key holds the key of that
  -- plugin, and changes in nothing else; it is kept just when it has a remote entity of another
  -- plugin: also a route to DDS whose local Readers are still there is dropped. No route is added.
  pub on_member_left-routes :
      (f : Fwd) (k : Str)
      → Distinct f.plugin.routes_to_dds
      → Distinct f.plugin.routes_from_dds
      → LeftToDds
          (admin_subke x c zid)
          (Map.get k f.plugin.routes_to_dds)
          (Map.get k (on_member_left x c zid f).plugin.routes_to_dds)
        × LeftFromDds
            (admin_subke x c zid)
            (Map.get k f.plugin.routes_from_dds)
            (Map.get k (on_member_left x c zid f).plugin.routes_from_dds)
  on_member_left-routes f k to from =
      let (to', from') = on_member_left-get x c zid f k to from in
      (
        rw to' (to_dds_left-LeftToDds (Map.get k f.plugin.routes_to_dds)),
        rw from' (from_dds_left-LeftFromDds (Map.get k f.plugin.routes_from_dds)),
      )
