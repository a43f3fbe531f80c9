-- ===== src/Qos.antt =====
-- zenoh-plugin-dds/src/qos_helpers.rs, and the functions of zenoh-plugin-dds/src/lib.rs that copy
-- and adapt the QoS of a discovered entity (adapt_*). The QoS types are those of the crate
-- cyclors: an enumeration has the cases that the sources name and one for all others; a policy
-- that the sources only clear or copy is kept as opaque bytes; the policies that they never name
-- are `others`. Constants and default values of cyclors are the fields of `Cyclors`.
use zenoh_plugin_dds.Base.{ℕ, Bool, true, false, Option, none, some, List, ◌-◌, ◌^◌}
use zenoh_plugin_dds.Base.Tests.{if◌then◌else◌, is_empty}
use zenoh_plugin_dds.Base.Int.{ℤ, pos, ◌+ℤ◌, ◌*ℤ◌, ltb_ℤ}
use zenoh_plugin_dds.Base.Text.{Str}
use zenoh_plugin_dds.Base.Set

pub data HistoryKind : Type 0 where
  keep_last keep_all : HistoryKind

pub record History : Type 0 where
  pub kind : HistoryKind
  pub depth : ℤ

pub data ReliabilityKind : Type 0 where
  best_effort reliable : ReliabilityKind

pub record Reliability : Type 0 where
  pub kind : ReliabilityKind
  pub max_blocking_time : ℤ

pub data DurabilityKind : Type 0 where
  transient_local : DurabilityKind
  other_durability : ℕ → DurabilityKind

pub record Durability : Type 0 where
  pub kind : DurabilityKind

pub record DurabilityService : Type 0 where
  pub service_cleanup_delay : ℤ
  pub history_kind : HistoryKind
  pub history_depth : ℤ
  pub max_samples : ℤ
  pub max_instances : ℤ
  pub max_samples_per_instance : ℤ

pub data IgnoreLocalKind : Type 0 where
  participant : IgnoreLocalKind
  other_ignore : ℕ → IgnoreLocalKind

pub record IgnoreLocal : Type 0 where
  pub kind : IgnoreLocalKind

pub record Qos : Type 0 where
  pub history : Option History
  pub durability : Option Durability
  pub durability_service : Option DurabilityService
  pub reliability : Option Reliability
  pub partition : Option (List Str)
  pub ignore_local : Option IgnoreLocal
  pub ownership_strength : Option Str
  pub transport_priority : Option Str
  pub lifespan : Option Str
  pub time_based_filter : Option Str
  pub writer_data_lifecycle : Option Str
  pub reader_data_lifecycle : Option Str
  pub writer_batching : Option Str
  pub properties : Option Str
  pub entity_name : Option Str
  pub others : Str

pub record Cyclors : Type 0 where
  pub dds_100ms_duration : ℤ
  pub dds_1s_duration : ℤ
  pub dds_length_unlimited : ℤ
  pub history_default : History
  pub durability_service_default : DurabilityService

abbrev or_default {ℓ} : {A : Type ℓ} → Option A → A → A
or_default none d = d
or_default (some a) d = a

unfoldable pub get_history_or_default : Cyclors → Qos → History
get_history_or_default c qos = or_default qos.history c.history_default

unfoldable pub get_durability_service_or_default : Cyclors → Qos → DurabilityService
get_durability_service_or_default c qos =
    or_default qos.durability_service c.durability_service_default

unfoldable pub partition_is_empty : Option (List Str) → Bool
partition_is_empty none = true
partition_is_empty (some partition) = is_empty partition

unfoldable pub partition_contains : Option (List Str) → Str → Bool
partition_contains none name = false
partition_contains (some partition) name = Set.mem name partition

abbrev is_reliable_kind : ReliabilityKind → Bool
is_reliable_kind best_effort = false
is_reliable_kind reliable = true

unfoldable pub is_writer_reliable : Option Reliability → Bool
is_writer_reliable none = true
is_writer_reliable (some r) = is_reliable_kind r.kind

unfoldable pub is_reader_reliable : Option Reliability → Bool
is_reader_reliable none = false
is_reader_reliable (some r) = is_reliable_kind r.kind

abbrev is_transient_kind : DurabilityKind → Bool
is_transient_kind transient_local = true
is_transient_kind (other_durability n) = false

abbrev is_transient_durability : Option Durability → Bool
is_transient_durability none = false
is_transient_durability (some d) = is_transient_kind d.kind

unfoldable pub is_transient_local : Qos → Bool
is_transient_local qos = is_transient_durability qos.durability

-- `i64::MAX`, and `i64::saturating_add` for an addend that is not negative.
abbrev pub i64_max : ℤ
i64_max = pos (2 ^ 63 - 1)

unfoldable pub saturating_add : ℤ → ℤ → ℤ
unfolding ◌+ℤ◌
saturating_add a b = if ltb_ℤ i64_max (a +ℤ b) then i64_max else a +ℤ b

-- The block of `if reader_qos.reliability.is_none()`.
abbrev best_effort_if_none : Cyclors → Option Reliability → Option Reliability
best_effort_if_none c none =
    some (record { kind = best_effort; max_blocking_time = c.dds_100ms_duration })
best_effort_if_none c (some r) = some r

-- Copy and adapt Writer's QoS for creation of a matching Reader
unfoldable pub adapt_writer_qos_for_reader : Cyclors → Qos → Qos
adapt_writer_qos_for_reader c qos = record qos {
  durability_service = none;
  ownership_strength = none;
  transport_priority = none;
  lifespan = none;
  writer_data_lifecycle = none;
  writer_batching = none;
  properties = none;
  entity_name = none;
  ignore_local = none;
  reliability = best_effort_if_none c qos.reliability;
}

-- Copy and adapt Writer's QoS for creation of a proxy Writer
unfoldable pub adapt_writer_qos_for_proxy_writer : Qos → Qos
adapt_writer_qos_for_proxy_writer qos = record qos {
  properties = none;
  entity_name = none;
  ignore_local = some (record { kind = participant });
}

-- The durability service for a TRANSIENT_LOCAL Reader, with the history of the Reader.
abbrev pub service_for : Cyclors → History → DurabilityService
service_for c history = record {
  service_cleanup_delay = pos 60 *ℤ c.dds_1s_duration;
  history_kind = history.kind;
  history_depth = history.depth;
  max_samples = c.dds_length_unlimited;
  max_instances = c.dds_length_unlimited;
  max_samples_per_instance = c.dds_length_unlimited;
}

-- The workaround for a FastRTPS Reader: one nanosecond more.
abbrev blocking_one_more : Cyclors → Option Reliability → Option Reliability
blocking_one_more c none =
    some
      (record { kind = reliable; max_blocking_time = saturating_add c.dds_100ms_duration (pos 1) })
blocking_one_more c (some r) =
    some (record r { max_blocking_time = saturating_add r.max_blocking_time (pos 1) })

-- Copy and adapt Reader's QoS for creation of a matching Writer
unfoldable pub adapt_reader_qos_for_writer : Cyclors → Qos → Qos
adapt_reader_qos_for_writer c qos = record qos {
  time_based_filter = none;
  reader_data_lifecycle = none;
  properties = none;
  entity_name = none;
  ignore_local = some (record { kind = participant });
  durability_service =
      if is_transient_local qos
      then some (service_for c (or_default qos.history c.history_default))
      else qos.durability_service;
  reliability = blocking_one_more c qos.reliability;
}

-- Copy and adapt Reader's QoS for creation of a proxy Reader
unfoldable pub adapt_reader_qos_for_proxy_reader : Qos → Qos
adapt_reader_qos_for_proxy_reader qos = record qos {
  properties = none;
  entity_name = none;
  ignore_local = none;
}
