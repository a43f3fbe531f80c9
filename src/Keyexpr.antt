-- ===== src/Keyexpr.antt =====
-- zenoh-plugin-dds/src/lib.rs: the key expressions that the plugin builds and parses. A call of
-- `unwrap` on a text that is no key expression is `none`: the task panics.
pub mod Join
pub mod Parse
pub mod Forward
use zenoh_plugin_dds.Base.{
  ℕ, zero, suc, Bool, true, false, ◌&&◌, ◌||◌, not, Option, none, some, List, [], ◌∷◌, ◌++◌,
}
use zenoh_plugin_dds.Base.Tests.{leb, ◌==◌, ◌>>=◌, if◌then◌else◌}
use zenoh_plugin_dds.Base.Text.{Str, codes, starts_with, find_after}
use zenoh_plugin_dds.World.{External}
use zenoh_plugin_dds.Entity.{DdsEntity, DdsParticipant}

abbrev pub slash : ℕ
slash = b'/'

abbrev pub ke_prefix_admin_space : Str
ke_prefix_admin_space = codes "@"

abbrev pub ke_prefix_dds : Str
ke_prefix_dds = codes "dds"

abbrev pub ke_prefix_route_to_dds : Str
ke_prefix_route_to_dds = codes "route/to_dds"

abbrev pub ke_prefix_route_from_dds : Str
ke_prefix_route_from_dds = codes "route/from_dds"

abbrev pub ke_prefix_pub_cache : Str
ke_prefix_pub_cache = codes "@dds_pub_cache"

abbrev pub ke_prefix_fwd_disco : Str
ke_prefix_fwd_disco = codes "@dds_fwd_disco"

abbrev pub ke_any_1_segment : Str
ke_any_1_segment = codes "*"

abbrev pub ke_any_n_segment : Str
ke_any_n_segment = codes "**"

abbrev pub participant_admin_text : Str → Str
participant_admin_text key = codes "participant/" ++ key

abbrev kind_segment : Bool → Str
kind_segment is_writer = if is_writer then codes "writer" else codes "reader"

-- `participant/{}/{}/{}/{}`
abbrev pub entity_admin_text : Str → Bool → Str → Str → Str
entity_admin_text participant_key is_writer key topic_name =
    codes "participant/"
    ++ (participant_key
        ++ (slash ∷ (kind_segment is_writer ++ (slash ∷ (key ++ (slash ∷ topic_name))))))

module _ (x : External) where
  unfoldable pub get_participant_admin_keyexpr : DdsParticipant → Option Str
  get_participant_admin_keyexpr e = x.try_into (participant_admin_text e.key)

  unfoldable pub get_entity_admin_keyexpr : DdsEntity → Bool → Option Str
  get_entity_admin_keyexpr e is_writer =
      x.try_into (entity_admin_text e.participant_key is_writer e.key e.topic_name)

  -- key_expr for a topic is: "<scope>/<partition>/<topic_name>"
  unfoldable pub topic_to_keyexpr : Str → Option Str → Option Str → Option Str
  topic_to_keyexpr topic_name (some scope) (some part) = x.join scope (part ++ (slash ∷ topic_name))
  topic_to_keyexpr topic_name (some scope) none = x.join scope topic_name
  topic_to_keyexpr topic_name none (some part) = x.try_into (part ++ (slash ∷ topic_name))
  topic_to_keyexpr topic_name none none = x.try_into topic_name

  -- `<KE_PREFIX_ADMIN_SPACE>/<uuid>/<KE_PREFIX_FWD_DISCO>/[<scope>]`
  unfoldable pub fwd_key_prefix : Str → Option Str → Str
  fwd_key_prefix uuid (some scope) =
      x.div (x.div (x.div ke_prefix_admin_space uuid) ke_prefix_fwd_disco) scope
  fwd_key_prefix uuid none = x.div (x.div ke_prefix_admin_space uuid) ke_prefix_fwd_disco

  -- The key on which the discovery of an entity is forwarded.
  unfoldable pub fwd_entity_key : Str → Option Str → Bool → Str → Str
  fwd_entity_key uuid scope is_writer admin_keyexpr =
      x.div (x.div (fwd_key_prefix uuid scope) (kind_segment is_writer)) admin_keyexpr

-- Is the byte the first one of a character of UTF-8?
abbrev is_boundary : Str → Bool
is_boundary [] = true
is_boundary (c ∷ s) = not (leb 128 c && leb c 191)

-- `&s[n..]`, which panics out of range and within a character.
unfoldable pub slice_from : ℕ → Str → Option Str
slice_from zero s = if is_boundary s then some s else none
slice_from (suc n) [] = none
slice_from (suc n) (c ∷ s) = slice_from n s

pub data DiscoKind : Type 0 where
  reader writer ros_disco : DiscoKind

-- The chain of `find`s that looks for the kind.
unfoldable pub find_kind : Str → Option (DiscoKind × Str)
find_kind remaining = elim (find_after remaining (codes "/reader/")) [
  | some (before, rest) ↦ some (reader, rest)
  | none ↦ elim (find_after remaining (codes "/writer/")) [
    | some (before, rest) ↦ some (writer, rest)
    | none ↦ elim (find_after remaining (codes "/ros_disco/")) [
      | some (before, rest) ↦ some (ros_disco, rest)
      | none ↦ none
    ]
  ]
]

abbrev with_uuid : Str → Option (DiscoKind × Str) → Option (Str × DiscoKind × Str)
with_uuid uuid none = none
with_uuid uuid (some (kind, rest)) = some (uuid, kind, rest)

abbrev parse_after_uuid : Option (Str × Str) → Option (Str × DiscoKind × Str)
parse_after_uuid none = none
parse_after_uuid (some (uuid, remaining)) =
    if starts_with remaining ke_prefix_fwd_disco then with_uuid uuid (find_kind remaining) else none

-- `none` is a panic, `some none` a key that is ignored.
unfoldable pub parse_fwd_discovery_keyexpr : Str → Option (Option (Str × DiscoKind × Str))
parse_fwd_discovery_keyexpr fwd_ke =
    if starts_with fwd_ke ke_prefix_admin_space
    then (slice_from 2 fwd_ke >>= λ remaining.
        some (parse_after_uuid (find_after remaining (slash ∷ []))))
    else some none
