-- ===== src/Plugin/Fwd/Hosts.antt =====
-- zenoh-plugin-dds/src/lib.rs, `run_fwd_discovery_mode`: two plugins. What one of them advertises on its keys
-- is what the other one forgets, when an entity or the plugin itself is gone.
use mathlib.Core.List.{append_assoc}
use zenoh_plugin_dds.Base.{◌≡◌, refl, ap, ◌∙◌, true, not, some, [], ◌∷◌, ◌++◌, arith, inl, inr}
use zenoh_plugin_dds.Base.Tests.{Bool-cases, Ensures}
use zenoh_plugin_dds.Base.Text.{Str, codes, contains, starts_with, strip_prefix}
use zenoh_plugin_dds.Base.Set.{mem-keep_if}
use zenoh_plugin_dds.Base.Map.{Map, get-retain}
use zenoh_plugin_dds.Base.Map
use zenoh_plugin_dds.Base.All.{All, All-any, All-retain_with}
use zenoh_plugin_dds.World.{External}
use zenoh_plugin_dds.Keyexpr.{ke_prefix_admin_space, ke_prefix_dds}
use zenoh_plugin_dds.Keyexpr.Join.{JoinsBySlash, has_star, star_free-append}
use zenoh_plugin_dds.Keyexpr.Parse.{IsZid}
use zenoh_plugin_dds.Route.ToDds.{
  RouteZenohDds, has_remote_routed_writer, remove_remote_routed_writers_containing,
}
use zenoh_plugin_dds.Plugin.Fwd.{Fwd, Codec}
use zenoh_plugin_dds.Plugin.Fwd.Group.{
  Leaving, admin_subke, leave_to_dds, drop_left, on_member_left,
}
use zenoh_plugin_dds.Plugin.Fwd.Loop.{full_admin_keyexpr}
use zenoh_plugin_dds.Plugin.Fwd.Leave.{on_member_left-drop_left}
use zenoh_plugin_dds.Plugin.Fwd.Released.{HasForgotten}

starts_with-append : (p s : Str) → strip_prefix p (p ++ s) ≡ some s
unfolding strip_prefix
starts_with-append [] s = refl
starts_with-append (c ∷ p) s = ground (arith, starts_with-append p s)

contains-append : (p s : Str) → contains (p ++ s) p ≡ true
unfolding contains starts_with
contains-append [] [] = refl
contains-append [] (c ∷ s) = refl
contains-append (c ∷ p) s = ground (arith, starts_with-append (c ∷ p) s)

module _ (x : External) (c : Codec) (joins : JoinsBySlash x) (zid : Str) (id : IsZid zid) where
  full_admin_keyexpr_text :
      (admin : Str) → full_admin_keyexpr x c zid admin ≡ admin_subke x c zid ++ admin
  unfolding has_star
  full_admin_keyexpr_text admin =
      ap (λ t. x.div (x.div t ke_prefix_dds) admin) (joins.div-plain ke_prefix_admin_space zid refl)
      ∙ (ap (λ t. x.div t admin) (joins.div-plain (codes "@/" ++ zid) ke_prefix_dds id.plain)
          ∙ (joins.div-plain (codes "@/" ++ (zid ++ codes "/dds")) admin
                (star_free-append zid (codes "/dds") id.plain refl)
              ∙ simp append_assoc))

  -- The full key of an entity starts with the key of its plugin.
  full_admin_keyexpr-contains :
      (admin : Str) → contains (full_admin_keyexpr x c zid admin) (admin_subke x c zid) ≡ true
  full_admin_keyexpr-contains admin =
      rw (full_admin_keyexpr_text admin) (contains-append (admin_subke x c zid) admin)

  leave_to_dds-HasForgotten :
      (admin k : Str) (r : RouteZenohDds) (t : Leaving)
      → Ensures (HasForgotten (full_admin_keyexpr x c zid admin)) (leave_to_dds x c zid k r t).0
  unfolding remove_remote_routed_writers_containing
  leave_to_dds-HasForgotten admin k r t =
      elim (Bool-cases (
        has_remote_routed_writer
          (remove_remote_routed_writers_containing (admin_subke x c zid) r))) [
            | inl y ↦ rw y (
                mem-keep_if (λ s. not (contains s (admin_subke x c zid)))
                  (full_admin_keyexpr x c zid admin) r.remote_routed_writers
                ∙ rw (full_admin_keyexpr-contains admin) refl)
            | inr f ↦ rw f tt
          ]

  -- For an id of one segment without wildcards: when a plugin leaves, no route to DDS serves an
  -- entity of it, under whatever admin key the entity was forwarded.
  pub on_member_left-HasForgotten :
      (admin : Str) (f : Fwd)
      → All
          (λ k. HasForgotten (full_admin_keyexpr x c zid admin))
          (on_member_left x c zid f).plugin.routes_to_dds
  unfolding drop_left
  on_member_left-HasForgotten admin f = rw (on_member_left-drop_left x c zid f).0 (
      All-retain_with (λ r. Unit) (HasForgotten (full_admin_keyexpr x c zid admin))
        (leave_to_dds x c zid) f.plugin.routes_to_dds _
        (λ k r t u. leave_to_dds-HasForgotten admin k r t) (All-any f.plugin.routes_to_dds))
