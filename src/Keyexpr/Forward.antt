-- ===== src/Keyexpr/Forward.antt =====
-- zenoh-plugin-dds/src/lib.rs: the key that `run_fwd_discovery_mode` builds for an entity, and
-- `parse_fwd_discovery_keyexpr` on the other side.
use zenoh_plugin_dds.Base.{
  true, false, ◌≡◌, refl, ap, ◌∙◌, Option, none, some, [], ◌∷◌, ◌++◌, arith,
}
use zenoh_plugin_dds.Base.Text.{Str, codes, strip_prefix, find_after, contains}
use zenoh_plugin_dds.World.{External}
use zenoh_plugin_dds.Keyexpr.Join.{JoinsBySlash}
use zenoh_plugin_dds.Keyexpr.Parse.{
  IsZid, scope_is_plain, fwd_head, find_after_of_contains, contains-find_after, find_after-first,
  parse_text, fwd_entity_key_text, has_slash,
}
use zenoh_plugin_dds.Keyexpr.{
  slash, fwd_entity_key, find_kind, reader, writer, with_uuid, parse_fwd_discovery_keyexpr,
}

abbrev pub reader_mark : Str
reader_mark = codes "/reader/"

abbrev pub writer_mark : Str
writer_mark = codes "/writer/"

kind_by_reader :
    (s before rest : Str)
    → find_after s reader_mark ≡ some (before, rest)
    → find_kind s ≡ some (reader, rest)
unfolding find_kind
kind_by_reader s before rest e = rw (e, find_kind)

kind_by_writer :
    (s before rest : Str)
    → find_after s reader_mark ≡ none
    → find_after s writer_mark ≡ some (before, rest)
    → find_kind s ≡ some (writer, rest)
unfolding find_kind
kind_by_writer s before rest e f = rw (e, find_kind) (ground arith)

reader_kind :
    (head admin : Str)
    → contains (head ++ slash ∷ []) reader_mark ≡ false
    → find_kind (head ++ slash ∷ (codes "reader" ++ (slash ∷ admin))) ≡ some (reader, admin)
unfolding strip_prefix has_slash
reader_kind head admin h =
    kind_by_reader _ head admin
      (find_after-first (codes "reader") head (codes "reader" ++ (slash ∷ admin)) admin refl h refl)

writer_kind :
    (head admin : Str)
    → contains (head ++ slash ∷ (codes "writer" ++ (slash ∷ admin))) reader_mark ≡ false
    → contains (head ++ slash ∷ []) writer_mark ≡ false
    → find_kind (head ++ slash ∷ (codes "writer" ++ (slash ∷ admin))) ≡ some (writer, admin)
unfolding strip_prefix has_slash
writer_kind head admin k h =
    kind_by_writer _ head admin
      (find_after_of_contains (head ++ slash ∷ (codes "writer" ++ (slash ∷ admin))) reader_mark k)
      (find_after-first (codes "writer") head (codes "writer" ++ (slash ∷ admin)) admin refl h refl)

module _ (x : External) (joins : JoinsBySlash x) (uuid : Str) (zid : IsZid uuid)
    (scope : Option Str) (plain : scope_is_plain scope ≡ true) where
  -- For an id of one segment and a scope, both without wildcards: the key on which the discovery of a
  -- Reader is forwarded is parsed back into the id, the kind and the admin key, if the scope holds
  -- no segment `reader`.
  pub parse-fwd_reader_key :
      (admin : Str)
      → contains (fwd_head scope ++ slash ∷ []) reader_mark ≡ false
      → parse_fwd_discovery_keyexpr (fwd_entity_key x uuid scope false admin)
        ≡ some (some (uuid, reader, admin))
  parse-fwd_reader_key admin h =
      ap parse_fwd_discovery_keyexpr (fwd_entity_key_text x joins uuid zid scope false admin plain)
      ∙ (parse_text uuid scope _ zid
          ∙ ap (λ k. some (with_uuid uuid k)) (reader_kind (fwd_head scope) admin h))

  -- For an id of one segment and a scope, both without wildcards: the key on which the discovery of a
  -- Writer is forwarded is parsed back into the id, the kind and the admin key, if no `/reader/`
  -- stands behind the id and the scope holds no segment `writer`.
  pub parse-fwd_writer_key :
      (admin : Str)
      → contains (fwd_head scope ++ slash ∷ (codes "writer" ++ (slash ∷ admin))) reader_mark ≡ false
      → contains (fwd_head scope ++ slash ∷ []) writer_mark ≡ false
      → parse_fwd_discovery_keyexpr (fwd_entity_key x uuid scope true admin)
        ≡ some (some (uuid, writer, admin))
  parse-fwd_writer_key admin k h =
      ap parse_fwd_discovery_keyexpr (fwd_entity_key_text x joins uuid zid scope true admin plain)
      ∙ (parse_text uuid scope _ zid
          ∙ ap (λ k. some (with_uuid uuid k)) (writer_kind (fwd_head scope) admin k h))

  -- For an id of one segment and a scope, both without wildcards: a Writer whose key holds `/reader/`
  -- behind the id, as with a topic `a/reader/b`, is taken for a reader by the plugin that receives
  -- the message.
  pub parse-fwd_writer_key_misread :
      (admin : Str)
      → contains (fwd_head scope ++ slash ∷ (codes "writer" ++ (slash ∷ admin))) reader_mark ≡ true
      → (rest : Str) × (parse_fwd_discovery_keyexpr (fwd_entity_key x uuid scope true admin)
          ≡ some (some (uuid, reader, rest)))
  parse-fwd_writer_key_misread admin k =
      let (before, rest, e) = contains-find_after _ reader_mark k in
      (
        rest,
        ap parse_fwd_discovery_keyexpr (fwd_entity_key_text x joins uuid zid scope true admin plain)
            ∙ (parse_text uuid scope _ zid
                ∙ ap (λ k. some (with_uuid uuid k)) (kind_by_reader _ before rest e)),
      )
