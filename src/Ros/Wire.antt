-- ===== src/Ros/Wire.antt =====
-- zenoh-plugin-dds/src/ros_discovery.rs: gids and nodes through their wire form and back.
use zenoh_plugin_dds.Base.{
  ℕ, zero, suc, ◌≤◌, ◌≡◌, ◌≢◌, refl, ap, sym, ◌∙◌, none, some, List, [], ◌∷◌, ◌++◌, arith,
}
use zenoh_plugin_dds.Base.Tests.{take, replicate, length}
use zenoh_plugin_dds.Base.Text.{Str, str_eq_iff}
use zenoh_plugin_dds.Base.Map.{Map, Distinct}
use zenoh_plugin_dds.Base.Map
use mathlib.Core.List.{append_assoc, append-nil}
use zenoh_plugin_dds.Ros.{
  NodeEntitiesInfo, Hex, WireNode, resize_24, serialize_gid, deserialize_gid, serialize_gids,
  deserialize_gids, serialize_node, deserialize_node, serialize_node_entities_info_seq,
  deserialize_node_entities_info_seq, insert_nodes,
}

-- The documentation of the crate hex: what is encoded can be decoded.
pub record DecodesHex (hex : Hex) : Type 0 where
  pub decode-encode : (b : List ℕ) → hex.decode (hex.encode b) ≡ some b

take_of_append : (n : ℕ) (b c : List ℕ) → length b ≡ n → take n (b ++ c) ≡ b
take_of_append zero [] c h = refl
take_of_append zero (x ∷ b) c h = absurd (omega arith)
take_of_append (suc n) [] c h = absurd (omega arith)
take_of_append (suc n) (x ∷ b) c h = ap (◌∷◌ x) (take_of_append n b c (omega arith))

take-take : (m n : ℕ) (b : List ℕ) → m ≤ n → take m (take n b) ≡ take m b
take-take zero n b h = refl
take-take (suc m) zero b h = absurd (omega arith)
take-take (suc m) (suc n) [] h = refl
take-take (suc m) (suc n) (x ∷ b) h = ap (◌∷◌ x) (take-take m n b (omega arith))

wire_gid : (b : List ℕ) → length b ≡ 16 → take 16 (take 24 (resize_24 b)) ≡ b
wire_gid b h =
    take-take 16 24 (resize_24 b) (omega arith)
    ∙ (take-take 16 24 (b ++ replicate 24 0) (omega arith) ∙ take_of_append 16 b (replicate 24 0) h)

-- A gid of DDS: the hex text of 16 bytes.
abbrev pub IsGid : Hex → Str → Type 0
IsGid hex g = (b : List ℕ) × (g ≡ hex.encode b) × (length b ≡ 16)

abbrev pub AreGids : Hex → List Str → Type 0
AreGids hex [] = Unit
AreGids hex (g ∷ gids) = IsGid hex g × AreGids hex gids

-- The nodes of a map, each under its namespace and name, with gids of DDS.
abbrev pub AreNodes : Hex → Map NodeEntitiesInfo → Type 0
AreNodes hex [] = Unit
AreNodes hex ((key, node) ∷ m) =
    (key ≡ node.node_namespace ++ node.node_name)
    × AreGids hex node.reader_gid_seq
    × AreGids hex node.writer_gid_seq
    × AreNodes hex m

insert_absent :
    (k : Str) (v : NodeEntitiesInfo) (m : Map NodeEntitiesInfo)
    → Map.get k m ≡ none
    → Map.insert k v m ≡ m ++ (k, v) ∷ []
unfolding Map.get Map.insert
insert_absent k v [] h = refl
insert_absent k v ((j, w) ∷ m) h = ground (arith, insert_absent k v m)

get_middle :
    (k : Str) (v : NodeEntitiesInfo) (acc m : Map NodeEntitiesInfo)
    → Map.get k (acc ++ (k, v) ∷ m) ≢ none
unfolding Map.get
get_middle k v [] m h = ground (arith, str_eq_iff k k)
get_middle k v ((j, w) ∷ acc) m h = ground (arith, get_middle k v acc m)

absent_before :
    (acc : Map NodeEntitiesInfo) (k : Str) (v : NodeEntitiesInfo) (m : Map NodeEntitiesInfo)
    → Distinct (acc ++ (k, v) ∷ m)
    → Map.get k acc ≡ none
unfolding Map.get
absent_before [] k v m d = refl
absent_before ((j, w) ∷ acc) k v m d =
    ground (arith, str_eq_iff j k, absent_before acc k v m d.1, get_middle k v acc m)

module _ (hex : Hex) (law : DecodesHex hex) where
  -- The gid of a participant, the hex text of 16 bytes, is read back as it was written, if hex
  -- decodes what it has encoded.
  pub serialize_gid-roundtrip :
      (g : Str)
      → IsGid hex g
      → (b : List ℕ) × (serialize_gid hex g ≡ some b) × (deserialize_gid hex b ≡ g)
  unfolding serialize_gid deserialize_gid
  serialize_gid-roundtrip g (b, e, h) =
      (take 24 (resize_24 b), rw (e, law.decode-encode b), ap hex.encode (wire_gid b h) ∙ sym e)

  gids_roundtrip :
      (gids : List Str)
      → AreGids hex gids
      → (wire : List (List ℕ)) × (serialize_gids hex gids ≡ some wire)
        × (deserialize_gids hex wire ≡ gids)
  unfolding serialize_gids deserialize_gids
  gids_roundtrip [] h = ([], refl, refl)
  gids_roundtrip (g ∷ gids) ((b, e, l), rest) =
      let (wire, written, back) = gids_roundtrip gids rest in
      (
        take 24 (resize_24 b) ∷ wire,
        rw (e, law.decode-encode b, written),
        cc (ap hex.encode (wire_gid b l) ∙ sym e, back),
      )

  node_roundtrip :
      (node : NodeEntitiesInfo)
      → AreGids hex node.reader_gid_seq
      → AreGids hex node.writer_gid_seq
      → (w : WireNode) × (serialize_node hex node ≡ some w)
        × (deserialize_node hex w ≡ node)
        × (w.node_namespace ≡ node.node_namespace)
        × (w.node_name ≡ node.node_name)
  unfolding serialize_node deserialize_node
  node_roundtrip node hr hw =
      let (readers, rt, rb) = gids_roundtrip node.reader_gid_seq hr in
      let (writers, ww, wb) = gids_roundtrip node.writer_gid_seq hw in
      (
        record {
          node_namespace = node.node_namespace;
          node_name = node.node_name;
          reader_gid_seq = readers;
          writer_gid_seq = writers;
        },
        rw (rt, ww),
        λ i. record node { reader_gid_seq = rb i; writer_gid_seq = wb i },
        refl,
        refl,
      )

  nodes_roundtrip :
      (m acc : Map NodeEntitiesInfo)
      → AreNodes hex m
      → Distinct (acc ++ m)
      → (ws : List WireNode) × (serialize_node_entities_info_seq hex m ≡ some ws)
        × (insert_nodes hex ws acc ≡ acc ++ m)
  unfolding serialize_node_entities_info_seq insert_nodes
  nodes_roundtrip [] acc h d = ([], refl, sym (append-nil acc))
  nodes_roundtrip ((k, node) ∷ m) acc (key, readers, writers, rest) d =
      let (w, written, back, ns, name) = node_roundtrip node readers writers in
      let (ws, written', back') =
        nodes_roundtrip m (acc ++ (k, node) ∷ []) rest
          (rw (append_assoc acc ((k, node) ∷ []) m) d) in
      (
        w ∷ ws,
        rw (written, written'),
        ap (insert_nodes hex ws)
              (rw (ns, name, back, ← key) (insert_absent k node acc (absent_before acc k node m d)))
            ∙ (back' ∙ append_assoc acc ((k, node) ∷ []) m),
      )

  -- The map of nodes is read back as it was written, if each node stands once, under its namespace
  -- and name, with gids that are the hex text of 16 bytes, and hex decodes what it has encoded.
  pub node_entities_info_seq-roundtrip :
      (m : Map NodeEntitiesInfo)
      → AreNodes hex m
      → Distinct m
      → (ws : List WireNode) × (serialize_node_entities_info_seq hex m ≡ some ws)
        × ((k : Str) → Map.get k (deserialize_node_entities_info_seq hex ws) ≡ Map.get k m)
  unfolding deserialize_node_entities_info_seq
  node_entities_info_seq-roundtrip m h d =
      let (ws, written, back) = nodes_roundtrip m [] h d in (ws, written, λ k. ap (Map.get k) back)
