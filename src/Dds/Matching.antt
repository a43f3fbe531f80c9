-- ===== src/Dds/Matching.antt =====
-- The readers and writers that the plugin creates match the discovered entities that they serve:
-- adapt_* of zenoh-plugin-dds/src/lib.rs, and create_forwarding_dds_writer of dds_mgt.rs.
use zenoh_plugin_dds.Base.{◌≡◌, refl, true, Option, none, some, List, [], ◌∷◌}
use zenoh_plugin_dds.Qos.{
  Qos, Cyclors, is_writer_reliable, is_reader_reliable, is_transient_local, get_history_or_default,
  participant, DurabilityService,
}
use zenoh_plugin_dds.Dds.{force_reliable}
use zenoh_plugin_dds.Plugin.Local.{in_partition}
use zenoh_plugin_dds.Base.Text.{Str}
use zenoh_plugin_dds.Base.Set
use zenoh_plugin_dds.Qos.{partition_is_empty, partition_contains}
use zenoh_plugin_dds.Base.Tests.{if◌then◌else◌}

-- Two endpoints share a partition: that of this name, or the default one of those that name none.
abbrev pub IsPartOf : Option Str → Option (List Str) → Type 0
IsPartOf none partition = partition_is_empty partition ≡ true
IsPartOf (some p) partition = partition_contains partition p ≡ true

-- The rule of DDS for two endpoints: a reader that asks for reliability needs a reliable writer, and
-- one that asks for the past of the topic a writer that keeps it; they share a partition. Without a
-- reliability policy a writer is reliable and a reader is not.
pub record Matches (part : Option Str) (reader writer : Qos) : Type 0 where
  pub reliability :
      is_reader_reliable reader.reliability ≡ true → is_writer_reliable writer.reliability ≡ true
  pub durability : reader.durability ≡ writer.durability
  pub reader_part : IsPartOf part reader.partition
  pub writer_part : IsPartOf part writer.partition

-- The QoS that a route asks for, in one of the partitions (`in_partition`) or in none.
abbrev part_of : Option Str → Option (List Str) → Option (List Str)
part_of none partition = partition
part_of (some p) partition = some (p ∷ [])

abbrev pub created_in : Option Str → Qos → Qos
created_in part qos = record qos { partition = part_of part qos.partition }

created_in-in_partition : (p : Str) (qos : Qos) → created_in (some p) qos ≡ in_partition p qos
created_in-in_partition p qos = refl

-- The QoS that DDS is given for a Writer.
abbrev pub forwarded : Qos → Qos
forwarded qos = record qos { reliability = force_reliable qos.reliability }

-- A Reader's QoS holds no policy of a Writer, and no name or property of the Writer that it is for.
pub record IsReaderQos (qos : Qos) : Type 0 where
  pub durability_service : qos.durability_service ≡ none
  pub ownership_strength : qos.ownership_strength ≡ none
  pub transport_priority : qos.transport_priority ≡ none
  pub lifespan : qos.lifespan ≡ none
  pub writer_data_lifecycle : qos.writer_data_lifecycle ≡ none
  pub writer_batching : qos.writer_batching ≡ none
  pub properties : qos.properties ≡ none
  pub entity_name : qos.entity_name ≡ none
  pub ignore_local : qos.ignore_local ≡ none

-- A Writer's QoS holds no policy of a Reader, and no name or property of the entity that it is for;
-- the plugin's own readers do not match it.
pub record IsWriterQos (qos : Qos) : Type 0 where
  pub time_based_filter : qos.time_based_filter ≡ none
  pub reader_data_lifecycle : qos.reader_data_lifecycle ≡ none
  pub properties : qos.properties ≡ none
  pub entity_name : qos.entity_name ≡ none
  pub ignore_local : qos.ignore_local ≡ some (record { kind = participant })

-- The durability service of the Writer for a Reader: the Reader's own, unless the Reader is
-- transient-local; then it keeps the history of the Reader.
abbrev pub KeepsHistory : Cyclors → Qos → Option DurabilityService → Type 0
KeepsHistory c qos service =
    if is_transient_local qos
    then ((s : DurabilityService) × (service ≡ some s)
        × (s.history_kind ≡ (get_history_or_default c qos).kind)
        × (s.history_depth ≡ (get_history_or_default c qos).depth))
    else (service ≡ qos.durability_service)
