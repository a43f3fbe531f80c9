-- ===== src/Tests/Keys.antt =====
-- Forwarded discovery keys, and the rounds of `remap_entities_info`, on concrete inputs.
use zenoh_plugin_dds.Base.{◌≡◌, refl, true, false, none, some, [], ◌∷◌, arith}
use zenoh_plugin_dds.Base.Tests.{if◌then◌else◌}
use zenoh_plugin_dds.Base.Text.{Str, codes, str_eq, contains, starts_with}
use zenoh_plugin_dds.Keyexpr.{fwd_entity_key, reader, writer, parse_fwd_discovery_keyexpr}
use zenoh_plugin_dds.Keyexpr.Join.{JoinsBySlash, has_star}
use zenoh_plugin_dds.Keyexpr.Parse.{IsZid, has_slash}
use zenoh_plugin_dds.Keyexpr.Forward.{
  parse-fwd_reader_key, parse-fwd_writer_key, parse-fwd_writer_key_misread,
}
use zenoh_plugin_dds.Plugin.Remap.{Served, unrouted, unnamed, remapped, remap_loop}
use zenoh_plugin_dds.Plugin.Remap.Loop.{remap_loop-remapped_gids, remap_loop_stuck, remapped_gids}
use zenoh_plugin_dds.Tests.{concrete}

pub joins : JoinsBySlash concrete
joins = record { div-plain = λ a b p. refl }

abbrev pub zid : Str
zid = codes "1f2e"

pub zid-IsZid : IsZid zid
unfolding has_slash has_star
zid-IsZid = record { one_segment = refl; plain = refl; starts_char = refl }

abbrev pub admin : Str
admin = codes "participant/01/writer/11/rt/chatter"

parse-fwd_reader_key_example :
    parse_fwd_discovery_keyexpr (fwd_entity_key concrete zid (some (codes "robot1")) false admin)
    ≡ some (some (zid, reader, admin))
unfolding has_star contains starts_with
parse-fwd_reader_key_example =
    parse-fwd_reader_key concrete joins zid zid-IsZid (some (codes "robot1")) refl admin refl

parse-fwd_writer_key_example :
    parse_fwd_discovery_keyexpr (fwd_entity_key concrete zid none true admin)
    ≡ some (some (zid, writer, admin))
unfolding contains starts_with
parse-fwd_writer_key_example =
    parse-fwd_writer_key concrete joins zid zid-IsZid none refl admin refl refl

abbrev reader_topic : Str
reader_topic = codes "participant/01/writer/11/rfid/reader/tags"

parse-fwd_writer_key_misread_example :
    (rest : Str) × (parse_fwd_discovery_keyexpr (fwd_entity_key concrete zid none true reader_topic)
      ≡ some (some (zid, reader, rest)))
unfolding contains starts_with
parse-fwd_writer_key_misread_example =
    parse-fwd_writer_key_misread concrete joins zid zid-IsZid none refl reader_topic refl

abbrev by_first_letter : Str → Served
by_first_letter [] = unnamed
by_first_letter (c ∷ g) = if str_eq (c ∷ g) (codes "a1") then remapped (codes "own") else unrouted

remap_loop-remapped_gids_example :
    remap_loop by_first_letter 4 0 (codes "b0" ∷ codes "a1" ∷ codes "c2" ∷ [])
    ≡ some (remapped_gids by_first_letter (codes "b0" ∷ codes "a1" ∷ codes "c2" ∷ []))
unfolding str_eq
remap_loop-remapped_gids_example =
    remap_loop-remapped_gids by_first_letter (codes "b0" ∷ codes "a1" ∷ codes "c2" ∷ []) 4
      (omega arith) ((λ e. cc), ((λ e. cc), ((λ e. cc), tt)))

remap_loop_stuck_example : remap_loop (λ g. unnamed) 1000 0 (codes "a1" ∷ []) ≡ none
remap_loop_stuck_example =
    remap_loop_stuck (λ g. unnamed) 1000 0 (codes "a1" ∷ []) (codes "a1") refl refl
