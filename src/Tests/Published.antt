-- ===== src/Tests/Published.antt =====
-- A published configuration, read back.
use zenoh_plugin_dds.Base.{ℕ, refl, ◌≡◌, ◌&&◌, true, Option, some}
use zenoh_plugin_dds.Base.Tests.{ok}
use zenoh_plugin_dds.Base.Text.{Str, codes}
use zenoh_plugin_dds.World.{External}
use zenoh_plugin_dds.Config.{is_allowed}
use zenoh_plugin_dds.Config.Published.{read_back, is_configured, serialize-is_allowed}
use zenoh_plugin_dds.Tests.{concrete, settings}

abbrev print_ten : ℕ → Str
print_ten n = codes "10"

-- Every regex matches.
abbrev broad : External
broad = record concrete { is_match = λ re ke. true }

serialize-is_allowed_example :
    (allow deny : Option Str) × (read_back print_ten (λ re. true) (codes "allow") settings
      ≡ some (ok allow))
    × (read_back print_ten (λ re. true) (codes "deny") settings ≡ some (ok deny))
    × (is_allowed broad (record settings { allow = allow; deny = deny }) (codes "rt/chatter")
        ≡ (is_configured settings.deny && is_allowed broad settings (codes "rt/chatter")))
serialize-is_allowed_example =
    serialize-is_allowed print_ten broad (λ re. true) settings (codes "rt/chatter") refl refl refl
      refl
