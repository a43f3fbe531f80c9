-- ===== src/Plugin/Fwd/Closes.antt =====
-- zenoh-plugin-dds/src/lib.rs, `run_fwd_discovery_mode`: each closure of `retain` removes the entry of the
-- admin space with its route.
use zenoh_plugin_dds.Base.{refl, not, ◌&&◌, inl, inr}
use zenoh_plugin_dds.Base.Tests.{Bool-cases}
use zenoh_plugin_dds.Base.Text.{Str}
use zenoh_plugin_dds.World.{External}
use zenoh_plugin_dds.Keyexpr.{ke_prefix_route_from_dds, ke_prefix_route_to_dds}
use zenoh_plugin_dds.Route.FromDds.{
  remove_remote_routed_reader, has_remote_routed_reader, remove_remote_routed_readers_containing,
}
use zenoh_plugin_dds.Route.ToDds.{
  remove_local_routed_reader, has_local_routed_reader, has_remote_routed_writer,
  remove_remote_routed_writer, delete_dds_writer, remove_remote_routed_writers_containing,
}
use zenoh_plugin_dds.Plugin.Admin.Retained.{Closes}
use zenoh_plugin_dds.Plugin.Fwd.{Codec, fwd_release_reader}
use zenoh_plugin_dds.Plugin.Fwd.Remote.{release_remote_writer, release_remote_reader}
use zenoh_plugin_dds.Plugin.Fwd.Group.{leave_to_dds, leave_from_dds, admin_subke}

module _ (x : External) (c : Codec) where
  pub fwd_release_reader-Closes :
      (key : Str)
      → Closes (λ t. t.0) (λ k. x.div ke_prefix_route_to_dds k) (fwd_release_reader x c key)
  fwd_release_reader-Closes key k v t =
      let r = remove_local_routed_reader key v in
      elim (Bool-cases (not (has_local_routed_reader r) && not (has_remote_routed_writer r))) [
        | inl y ↦ inr (rw y refl)
        | inr f ↦ inl (rw f refl, (r, rw f refl))
      ]

  pub release_remote_writer-Closes :
      (ke : Str)
      → Closes (λ t. t.0) (λ k. x.div ke_prefix_route_to_dds k) (release_remote_writer x ke)
  release_remote_writer-Closes ke k v t =
      let r = remove_remote_routed_writer ke v in
      let bare = (delete_dds_writer x r t.1).0 in
      elim (Bool-cases (has_remote_routed_writer r)) [
        | inl y ↦ inl (rw y refl, (r, rw y refl))
        | inr f ↦ elim (Bool-cases (has_local_routed_reader bare)) [
          | inl y ↦ inl (rw (f, y) refl, (bare, rw (f, y) refl))
          | inr g ↦ inr (rw (f, g) refl)
        ]
      ]

  pub release_remote_reader-Closes :
      (ke : Str)
      → Closes (λ t. t.0) (λ k. x.div ke_prefix_route_from_dds k) (release_remote_reader x ke)
  release_remote_reader-Closes ke k v t =
      let r = remove_remote_routed_reader ke v in
      elim (Bool-cases (has_remote_routed_reader r)) [
        | inl y ↦ inl (rw y refl, (r, rw y refl))
        | inr f ↦ inr (rw f refl)
      ]

  pub leave_to_dds-Closes :
      (zid : Str) → Closes (λ t. t.0) (λ k. x.div ke_prefix_route_to_dds k) (leave_to_dds x c zid)
  leave_to_dds-Closes zid k v t =
      let r = remove_remote_routed_writers_containing (admin_subke x c zid) v in
      elim (Bool-cases (has_remote_routed_writer r)) [
        | inl y ↦ inl (rw y refl, (r, rw y refl))
        | inr f ↦ inr (rw f refl)
      ]

  pub leave_from_dds-Closes :
      (zid : Str)
      → Closes (λ t. t.0) (λ k. x.div ke_prefix_route_from_dds k) (leave_from_dds x c zid)
  leave_from_dds-Closes zid k v t =
      let r = remove_remote_routed_readers_containing (admin_subke x c zid) v in
      elim (Bool-cases (has_remote_routed_reader r)) [
        | inl y ↦ inl (rw y refl, (r, rw y refl))
        | inr f ↦ inr (rw f refl)
      ]
