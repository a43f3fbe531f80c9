-- ===== src/Tests/Hosts.antt =====
-- What two plugins make of a leave and of a removed Writer in the forward discovery mode.
use zenoh_plugin_dds.Base.{[], ◌∷◌}
use zenoh_plugin_dds.Base.Text.{codes}
use zenoh_plugin_dds.Base.Map.{Map}
use zenoh_plugin_dds.Base.Map
use zenoh_plugin_dds.Base.All.{All}
use zenoh_plugin_dds.Plugin.{start}
use zenoh_plugin_dds.Plugin.Fwd.{Fwd}
use zenoh_plugin_dds.Base.Int.{pos}
use zenoh_plugin_dds.Plugin.Fwd.Group.{on_member_left}
use zenoh_plugin_dds.Plugin.Fwd.Loop.{full_admin_keyexpr}
use zenoh_plugin_dds.Plugin.Fwd.Released.{HasForgotten}
use zenoh_plugin_dds.Plugin.Fwd.Hosts.{on_member_left-HasForgotten}
use zenoh_plugin_dds.Tests.{concrete}
use zenoh_plugin_dds.Tests.Keys.{joins, zid, zid-IsZid, admin}
use zenoh_plugin_dds.Tests.Forward.{codec, one_fwd, one_route, forwarding}

-- The route serves the Writer `admin` of the plugin `zid`, and a Writer of another plugin.
abbrev two_writers : Fwd
two_writers = record one_fwd {
  plugin = record (start forwarding (codes "ab") (pos 1) []) {
    routes_to_dds =
        (
          codes "rt/chatter",
          record one_route {
            remote_routed_writers =
                full_admin_keyexpr concrete codec zid admin
                ∷ codes "@/cd/dds/participant/01/writer/33"
                ∷ [];
          },
        )
        ∷ [];
  };
}

on_member_left-HasForgotten_example :
    All
      (λ k. HasForgotten (full_admin_keyexpr concrete codec zid admin))
      (on_member_left concrete codec zid two_writers).plugin.routes_to_dds
on_member_left-HasForgotten_example =
    on_member_left-HasForgotten concrete codec joins zid zid-IsZid admin two_writers
