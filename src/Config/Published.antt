-- ===== src/Config/Published.antt =====
-- zenoh-plugin-dds/src/lib.rs, `serialize` of DdsPluginRuntime: the configuration as it is published, and
-- what the deserializers of zenoh-plugin-dds/src/config.rs make of it.
use zenoh_plugin_dds.Base.{
  ℕ, ◌≡◌, refl, Bool, true, false, ◌&&◌, Option, none, some, List, [], ◌∷◌, ◌++◌, map, arith,
}
use zenoh_plugin_dds.Base.Tests.{Result, ok, ◌>>=◌}
use zenoh_plugin_dds.Base.Text.{Str, codes, str_eq}
use zenoh_plugin_dds.Base.Map.{Map}
use zenoh_plugin_dds.Base.Map
use zenoh_plugin_dds.World.{External}
use zenoh_plugin_dds.Config.{Config, is_allowed}
use zenoh_plugin_dds.Config.Parse.{
  Value, null, other, text, seq, ConfigError, deserialize_regex, new_regex,
}

-- A field of the JSON struct.
pub data Field : Type 0 where
  number : ℕ → Field
  boolean : Bool → Field
  string : Str → Field
  strings : List Str → Field
  optional : Option Str → Field

-- What serde hands to a visitor for the field.
abbrev pub value_of : Field → Value
value_of (number n) = other
value_of (boolean b) = other
value_of (string s) = text s
value_of (strings ss) = seq (map some ss)
value_of (optional none) = null
value_of (optional (some s)) = text s

-- `map_or_else(|| default, |re| re.to_string())`
abbrev pub source_or : Str → Option Str → Str
source_or default none = default
source_or default (some re) = re

abbrev pub is_configured : Option Str → Bool
is_configured none = false
is_configured (some re) = true

-- A frequency is printed by `Display` of f32.
module _ (print_f32 : ℕ → Str) where
  abbrev pub max_frequency_text : Str × ℕ → Str
  max_frequency_text (re, freq) = re ++ (codes "=" ++ print_f32 freq)

  unfoldable pub serialize : Config → Map Field
  serialize config =
      (codes "domain", number config.domain)
      ∷ (codes "scope", optional config.scope)
      ∷ (codes "allow", string (source_or (codes ".*") config.allow))
      ∷ (codes "deny", string (source_or [] config.deny))
      ∷ (codes "max-frequencies", strings (map max_frequency_text config.max_frequencies))
      ∷ (codes "forward_discovery", boolean config.forward_discovery)
      ∷ (codes "reliable_routes_blocking", boolean config.reliable_routes_blocking)
      ∷ []

  -- The field of this name in the published configuration.
  abbrev pub published : Str → Config → Option Value
  published name config = Map.get name (serialize config) >>= λ f. some (value_of f)

  -- The filter that the deserializer makes of a published field.
  abbrev pub read_back : (Str → Bool) → Str → Config → Option (Result ConfigError (Option Str))
  read_back is_regex name config =
      published name config >>= λ v. some (deserialize_regex is_regex v)

  module _ (x : External) (is_regex : Str → Bool) (config : Config) (ke : Str) where
    filters_reread :
        x.is_match (codes ".*") ke ≡ true
        → x.is_match [] ke ≡ true
        → (allow deny : Option Str)
        → is_allowed x
            (record config {
              allow = some (source_or (codes ".*") allow);
              deny = some (source_or [] deny);
            })
            ke
          ≡ (is_configured deny && is_allowed x (record config { allow = allow; deny = deny }) ke)
    unfolding is_allowed
    filters_reread any empty none none = ground (arith, any, empty)
    filters_reread any empty none (some d) = ground (arith, any, empty)
    filters_reread any empty (some a) none = ground (arith, any, empty)
    filters_reread any empty (some a) (some d) = ground (arith, any, empty)

    -- The published filters are read back, if they compile; where the regexes `.*` and the empty one
    -- match, as they do for every key expression, they allow the keys that the configured filters
    -- allow if there is a `deny`, and no key if there is none.
    pub serialize-is_allowed :
        x.is_match (codes ".*") ke ≡ true
        → x.is_match [] ke ≡ true
        → is_regex (source_or (codes ".*") config.allow) ≡ true
        → is_regex (source_or [] config.deny) ≡ true
        → (allow deny : Option Str) × (read_back is_regex (codes "allow") config ≡ some (ok allow))
          × (read_back is_regex (codes "deny") config ≡ some (ok deny))
          × (is_allowed x (record config { allow = allow; deny = deny }) ke
              ≡ (is_configured config.deny && is_allowed x config ke))
    unfolding serialize Map.get str_eq deserialize_regex new_regex
    serialize-is_allowed any empty compiles_allow compiles_deny = (
      some (source_or (codes ".*") config.allow),
      some (source_or [] config.deny),
      rw compiles_allow refl,
      rw compiles_deny refl,
      filters_reread any empty config.allow config.deny,
    )
