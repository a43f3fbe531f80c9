-- ===== src/Tests/Plugins.antt =====
-- The plugin on a few events: the routes of a Writer and of a Reader are created and dropped.
use zenoh_plugin_dds.Base.{ℕ, refl, ◌≡◌, Bool, Option, some, List, [], ◌∷◌}
use zenoh_plugin_dds.Base.Tests.{Ensures, Yields, ◌>>=◌, length}
use zenoh_plugin_dds.Base.Int.{pos}
use zenoh_plugin_dds.Base.Text.{Str, codes, str_eq}
use zenoh_plugin_dds.Entity.{
  discovered_publication, undiscovered_publication, discovered_subscription,
}
use zenoh_plugin_dds.Dds.{has_nul}
use zenoh_plugin_dds.Plugin.{start}
use zenoh_plugin_dds.Plugin.Account.{IsAccounted}
use zenoh_plugin_dds.Plugin.Local.{LocalEvent, discovery, new_member, local_run}
use zenoh_plugin_dds.Keyexpr.{get_entity_admin_keyexpr, topic_to_keyexpr}
use zenoh_plugin_dds.Plugin.Ready.{IsReady}
use zenoh_plugin_dds.Plugin.Local.Total.{local_run-IsReady}
use zenoh_plugin_dds.Plugin.Admin.{admin_answers}
use zenoh_plugin_dds.Plugin.Admin.Reached.{dangling_refs, local_run-admin_answers}
use zenoh_plugin_dds.Plugin.Local.Run.{local_run-IsAccounted}
use zenoh_plugin_dds.Plugin.Local.Used.{AreLocal}
use zenoh_plugin_dds.Plugin.Local.Serves.{local_run-AreLocal}
use zenoh_plugin_dds.Tests.Forward.{never_null}
use zenoh_plugin_dds.Tests.{concrete, chatter, settings}

abbrev both_ways : List LocalEvent
both_ways =
    discovery (discovered_publication (chatter (codes "11")))
    ∷ discovery (discovered_subscription (chatter (codes "22")))
    ∷ new_member (codes "cd")
    ∷ discovery (undiscovered_publication (codes "11"))
    ∷ []

-- The sizes of the maps after the run: 0 routes from DDS, 2 to DDS, 5 entries of the admin space.
abbrev sizes : Option (List ℕ)
sizes = local_run concrete both_ways (start settings (codes "ab") (pos 1) []) >>= λ s.
    some (length s.routes_from_dds ∷ length s.routes_to_dds ∷ length s.admin_space ∷ [])

local_run-IsAccounted_example :
    Ensures
      (IsAccounted 0 (pos 3))
      (local_run concrete both_ways (start settings (codes "ab") (pos 1) []))
local_run-IsAccounted_example =
    local_run-IsAccounted concrete 2 settings (codes "ab") (pos 1) both_ways

local_run-IsReady_example :
    Yields
      (IsReady concrete settings)
      (local_run concrete both_ways (start settings (codes "ab") (pos 1) []))
unfolding get_entity_admin_keyexpr topic_to_keyexpr has_nul
local_run-IsReady_example =
    local_run-IsReady concrete settings (codes "ab") (pos 1) [] both_ways tt (
      ((_, refl), (refl, (refl, ((_, refl), ((_, refl), tt))))),
      (((_, refl), (refl, (refl, ((_, refl), ((_, refl), tt))))), (tt, tt)),
    )

-- Every endpoint of the run belongs to one participant and one topic.
abbrev place : Bool → Str → Str × Str
place is_writer key = (codes "01", codes "rt/chatter")

local_run-admin_answers_example :
    Ensures
      (λ s. dangling_refs (admin_answers str_eq s (codes "version" ∷ codes "*" ∷ [])) ≡ [])
      (local_run concrete both_ways (start settings (codes "ab") (pos 1) []))
local_run-admin_answers_example =
    local_run-admin_answers concrete place settings (codes "ab") (pos 1) [] both_ways
      ((refl, refl), ((refl, refl), tt)) str_eq (codes "version" ∷ codes "*" ∷ [])

local_run-AreLocal_example :
    Ensures AreLocal (local_run concrete both_ways (start settings (codes "ab") (pos 1) []))
local_run-AreLocal_example =
    local_run-AreLocal concrete never_null settings (codes "ab") (pos 1) [] both_ways
