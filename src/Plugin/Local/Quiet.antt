-- ===== src/Plugin/Local/Quiet.antt =====
-- zenoh-plugin-dds/src/lib.rs: the queries of a new member create and delete no reader or writer.
use zenoh_plugin_dds.Base.{◌≡◌, refl, ◌∙◌, [], ◌∷◌}
use zenoh_plugin_dds.Base.Int.{ℤ}
use zenoh_plugin_dds.Base.Text.{Str}
use zenoh_plugin_dds.Base.Map.{Map}
use zenoh_plugin_dds.World.{External, World}
use zenoh_plugin_dds.Dds.Handles.{created, deleted}
use zenoh_plugin_dds.Keyexpr.{ke_prefix_pub_cache}
use zenoh_plugin_dds.Route.ToDds.{RouteZenohDds, query_historical_publications}
use zenoh_plugin_dds.Route.ToDds.Laws.{query_historical_publications-quiet}
use zenoh_plugin_dds.Plugin.Local.{query_new_member}

module _ (x : External) (h : ℤ) where
  pub query_new_member-quiet :
      (zid : Str) (routes : Map RouteZenohDds) (w : World)
      → (created h (query_new_member x zid routes w) ≡ created h w)
        × (deleted h (query_new_member x zid routes w) ≡ deleted h w)
  unfolding query_new_member
  query_new_member-quiet zid [] w = (refl, refl)
  query_new_member-quiet zid ((zkey, route) ∷ routes) w =
      let selector = x.div (x.div zkey ke_prefix_pub_cache) zid in
      let (c, d) =
        query_new_member-quiet zid routes (query_historical_publications x selector route w) in
      let (c', d') = query_historical_publications-quiet x h selector route w in (c ∙ c', d ∙ d')
