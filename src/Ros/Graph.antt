-- ===== src/Ros/Graph.antt =====
-- zenoh-plugin-dds/src/ros_discovery.rs: the nodes of a `ParticipantEntitiesInfo` through its updates.
use zenoh_plugin_dds.Base.{
  ◌≡◌, refl, ◌∙◌, ap, true, false, not, ◌&&◌, Option, none, some, List, [], ◌∷◌, ◌⊎◌, inl, inr,
  arith,
}
use zenoh_plugin_dds.Base.Tests.{Bool-cases, is_empty, ◌>>=◌}
use zenoh_plugin_dds.Base.Text.{Str, str_eq, str_eq_iff}
use zenoh_plugin_dds.Base.Map.{
  Map, Distinct, get-retain, get-insert, get-map_values, insert-Distinct,
}
use zenoh_plugin_dds.Base.Map
use zenoh_plugin_dds.Base.Set
use zenoh_plugin_dds.Ros.{
  NodeEntitiesInfo, ParticipantEntitiesInfo, keep_node, cleanup, extend, update_with, without,
  remove_reader_gid,
}

extend-Distinct : (m n : Map NodeEntitiesInfo) → Distinct m → Distinct (extend m n)
unfolding extend
extend-Distinct m [] d = d
extend-Distinct m ((k, v) ∷ n) d = extend-Distinct (Map.insert k v m) n (insert-Distinct k v m d)

-- The entry of the new map, or else that of the old one.
abbrev pub newer : Option NodeEntitiesInfo → Option NodeEntitiesInfo → Option NodeEntitiesInfo
newer (some v) old = some v
newer none old = old

get-extend :
    (k : Str) (m n : Map NodeEntitiesInfo)
    → Distinct n
    → Map.get k (extend m n) ≡ newer (Map.get k n) (Map.get k m)
unfolding extend Map.get
get-extend k m [] d = refl
get-extend k m ((j, v) ∷ n) d =
    get-extend k (Map.insert j v m) n d.1 ∙ ground (arith, get-insert j k v m, str_eq_iff j k)

-- What becomes of a node: it is kept with a reader and a writer, and removed if it lacks either.
abbrev pub IsCleaned : Option NodeEntitiesInfo → Option NodeEntitiesInfo → Type 0
IsCleaned none after = after ≡ none
IsCleaned (some node) none = (node.reader_gid_seq ≡ []) ⊎ (node.writer_gid_seq ≡ [])
IsCleaned (some node) (some node') =
    (node' ≡ node)
    × ((g : Str) × (Set.mem g node.reader_gid_seq ≡ true))
    × ((g : Str) × (Set.mem g node.writer_gid_seq ≡ true))

nil_of_is_empty : (s : List Str) → is_empty s ≡ true → s ≡ []
nil_of_is_empty [] h = refl
nil_of_is_empty (k ∷ s) h = absurd (ground (arith, h))

keep_node-IsCleaned : (k : Str) (o : Option NodeEntitiesInfo) → IsCleaned o (o >>= keep_node k)
keep_node-IsCleaned k none = refl
keep_node-IsCleaned k (some node) = elim (Bool-cases (is_empty node.reader_gid_seq)) [
  | inl r ↦ rw r (inl (nil_of_is_empty node.reader_gid_seq r))
  | inr r ↦ elim (Bool-cases (is_empty node.writer_gid_seq)) [
    | inl w ↦ rw (r, w) (inr (nil_of_is_empty node.writer_gid_seq w))
    | inr w ↦
        rw (r, w)
          (
            refl,
            Set.member_of_not_empty node.reader_gid_seq r,
            Set.member_of_not_empty node.writer_gid_seq w,
          )
  ]
]

module _ (k : Str) (p : ParticipantEntitiesInfo) (dp : Distinct p.node_entities_info_seq) where
  get-update_with-keep_node :
      (nodes : Map NodeEntitiesInfo)
      → Distinct nodes
      → Map.get k (update_with nodes p).node_entities_info_seq
        ≡ (newer (Map.get k nodes) (Map.get k p.node_entities_info_seq) >>= keep_node k)
  unfolding update_with cleanup
  get-update_with-keep_node nodes dn =
      get-retain keep_node k (extend p.node_entities_info_seq nodes)
        (extend-Distinct p.node_entities_info_seq nodes dp)
      ∙ ap (λ o. o >>= keep_node k) (get-extend k p.node_entities_info_seq nodes dn)

  -- For maps that hold each node once: an update takes each node from the message, or else from
  -- what was known. It keeps that node unchanged if the node has both a reader and a writer, and
  -- holds no node of that name if the node lacks readers or lacks writers.
  pub get-update_with :
      (nodes : Map NodeEntitiesInfo)
      → Distinct nodes
      → IsCleaned
          (newer (Map.get k nodes) (Map.get k p.node_entities_info_seq))
          (Map.get k (update_with nodes p).node_entities_info_seq)
  get-update_with nodes dn =
      rw (get-update_with-keep_node nodes dn)
        (keep_node-IsCleaned k (newer (Map.get k nodes) (Map.get k p.node_entities_info_seq)))

  -- For a map that holds each node once: `cleanup` removes a node that has readers but no writer,
  -- though its comment speaks of the empty nodes.
  pub cleanup_reader_only :
      (node : NodeEntitiesInfo)
      → Map.get k p.node_entities_info_seq ≡ some node
      → is_empty node.reader_gid_seq ≡ false
      → is_empty node.writer_gid_seq ≡ true
      → Map.get k (cleanup p).node_entities_info_seq ≡ none
  unfolding cleanup
  cleanup_reader_only node found readers writers =
      get-retain keep_node k p.node_entities_info_seq dp ∙ rw found (ground arith)

  -- After the removal of a reader's gid a known node lists exactly its other readers, and its
  -- writers as before.
  pub mem-remove_reader_gid :
      (gid g : Str) (node : NodeEntitiesInfo)
      → Map.get k p.node_entities_info_seq ≡ some node
      → (node' : NodeEntitiesInfo) × (Map.get k (remove_reader_gid gid p).node_entities_info_seq
          ≡ some node')
        × (Set.mem g node'.reader_gid_seq ≡ (not (str_eq g gid) && Set.mem g node.reader_gid_seq))
        × (node'.writer_gid_seq ≡ node.writer_gid_seq)
  unfolding remove_reader_gid
  mem-remove_reader_gid gid g node found = (
    record node { reader_gid_seq = without gid node.reader_gid_seq },
    get-map_values _ k p.node_entities_info_seq ∙ rw found,
    Set.mem-keep_if (λ j. not (str_eq j gid)) g node.reader_gid_seq,
    refl,
  )
