-- ===== src/Plugin/Remap.antt =====
-- zenoh-plugin-dds/src/lib.rs, `remap_entities_info`: the gids of remote entities are replaced by those
-- of the routes that serve them. The `while` loop takes fuel: `none` means that it has not ended.
pub mod Loop
use zenoh_plugin_dds.Base.{ℕ, zero, suc, ◌+◌, Bool, Option, none, some, List, [], ◌∷◌}
use zenoh_plugin_dds.Base.Tests.{if◌then◌else◌, ◌>>=◌, length}
use zenoh_plugin_dds.Base.Text.{Str}
use zenoh_plugin_dds.Base.Map.{Map, values}
use zenoh_plugin_dds.World.{External, World}
use zenoh_plugin_dds.Ros.{NodeEntitiesInfo}
use zenoh_plugin_dds.Route.FromDds.{RouteDdsZenoh, is_routing_remote_reader}
use zenoh_plugin_dds.Route.ToDds.{RouteZenohDds, is_routing_remote_writer}
use zenoh_plugin_dds.Plugin.{Plugin}

abbrev pub get_elem? : List Str → ℕ → Option Str
get_elem? [] i = none
get_elem? (g ∷ gids) zero = some g
get_elem? (g ∷ gids) (suc i) = get_elem? gids i

abbrev pub set : List Str → ℕ → Str → List Str
set [] i v = []
set (g ∷ gids) zero v = v ∷ gids
set (g ∷ gids) (suc i) v = g ∷ set gids i v

-- `Vec::remove(i)`
abbrev pub remove_at : List Str → ℕ → List Str
remove_at [] i = []
remove_at (g ∷ gids) zero = gids
remove_at (g ∷ gids) (suc i) = g ∷ remove_at gids i

-- What the body of the loop finds for a gid.
pub data Served : Type 0 where
  unrouted : Served
  unnamed : Served
  remapped : Str → Served

-- One round: an unrouted gid is removed, a remapped one replaced; if the route's own gid cannot be
-- had, neither the list nor the index changes.
unfoldable pub remap_loop : (Str → Served) → ℕ → ℕ → List Str → Option (List Str)
remap_loop served zero i gids = none
remap_loop served (suc fuel) i gids = elim (get_elem? gids i) [
  | none ↦ some gids
  | some gid ↦ elim (served gid) [
    | unrouted ↦ remap_loop served fuel i (remove_at gids i)
    | unnamed ↦ remap_loop served fuel i gids
    | remapped own ↦ remap_loop served fuel (i + 1) (set gids i own)
  ]
]

abbrev gid_of : Option Str → Served
gid_of none = unnamed
gid_of (some gid) = remapped gid

-- `values().find(…)` and the gid of the DDS Reader of that route.
unfoldable pub serving_reader : External → World → List RouteDdsZenoh → Str → Served
serving_reader x w [] gid = unrouted
serving_reader x w (r ∷ routes) gid =
    if is_routing_remote_reader gid r
    then gid_of (x.guid w r.dds_reader)
    else serving_reader x w routes gid

unfoldable pub serving_writer : External → World → List RouteZenohDds → Str → Served
serving_writer x w [] gid = unrouted
serving_writer x w (r ∷ routes) gid =
    if is_routing_remote_writer gid r
    then gid_of (x.guid w r.dds_writer)
    else serving_writer x w routes gid

module _ (x : External) (s : Plugin) where
  -- The body of the loop over the nodes.
  unfoldable pub remap_node : ℕ → NodeEntitiesInfo → Option NodeEntitiesInfo
  unfolding remap_loop serving_reader serving_writer
  remap_node fuel node = do
    readers ←
        remap_loop (serving_reader x s.world (values s.routes_from_dds)) fuel 0 node.reader_gid_seq
    writers ←
        remap_loop (serving_writer x s.world (values s.routes_to_dds)) fuel 0 node.writer_gid_seq
    some (record node { reader_gid_seq = readers; writer_gid_seq = writers })

  unfoldable pub remap_entities_info : ℕ → Map NodeEntitiesInfo → Option (Map NodeEntitiesInfo)
  unfolding remap_node
  remap_entities_info fuel [] = some []
  remap_entities_info fuel ((key, node) ∷ entities_info) = do
    node' ← remap_node fuel node
    rest ← remap_entities_info fuel entities_info
    some ((key, node') ∷ rest)
