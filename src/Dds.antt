-- ===== src/Dds.antt =====
-- zenoh-plugin-dds/src/dds_mgt.rs: the topics, readers and writers that the plugin creates in the
-- DDS domain, and their deletion.
pub mod Handles
pub mod Blocking
pub mod Matching
pub mod Returns
pub mod Samples
pub mod Discovery
use zenoh_plugin_dds.Base.{ℕ, Bool, true, false, Option, none, some, List, [], ◌∷◌, ◌||◌}
use zenoh_plugin_dds.Base.Tests.{if◌then◌else◌, ◌==◌}
use zenoh_plugin_dds.Base.Int.{ℤ, pos, neg, ltb_ℤ, eqb_ℤ}
use zenoh_plugin_dds.Base.Text.{Str}
use zenoh_plugin_dds.Qos.{Qos, Reliability, best_effort, reliable, keep_last}
use zenoh_plugin_dds.World.{
  External, M, pure, fail, lift, perform, ◌>>=◌, ◌>>◌, create_blob_topic, create_topic_descriptor,
  create_typed_topic, delete_topic_descriptor, create_reader, create_writer,
  wait_for_historical_data, spawn_periodic, delete_entity, topic_creation, reader_creation,
  writer_creation, deletion, no_guid, Error, World, Forwarder,
}

-- The pointer of a `TypeInfo`.
abbrev pub TypeInfo : Type 0
TypeInfo = ℕ

abbrev pub is_negative : ℤ → Bool
is_negative r = ltb_ℤ r (pos 0)

-- A handle, or the error for a negative return code.
unfoldable pub non_negative : (ℤ → Error) → ℤ → M ℤ
non_negative e r = if is_negative r then fail (e (neg r)) else pure r

unfoldable pub has_nul : Str → Bool
has_nul [] = false
has_nul (c ∷ s) = c == 0 || has_nul s

-- `CString::new(s).unwrap()`, which panics on a zero byte.
unfoldable pub c_string : Str → Option Str
c_string s = if has_nul s then none else some s

module _ (x : External) (dp : ℤ) where
  -- The `match type_info` of `create_topic`.
  unfoldable pub topic_handle : Str → Str → Option TypeInfo → Bool → M ℤ
  unfolding perform
  topic_handle topic_name type_name none keyless =
      perform x (create_blob_topic dp topic_name type_name keyless)
  topic_handle topic_name type_name (some type_info) keyless = do
    ret ← perform x (create_topic_descriptor dp type_info)
    if eqb_ℤ ret x.dds_retcode_ok
        then (do
          topic ← perform x (create_typed_topic dp type_info topic_name)
          perform x (delete_topic_descriptor type_info)
          pure topic)
        else pure ret

  unfoldable pub create_topic : Str → Str → Option TypeInfo → Bool → M ℤ
  create_topic topic_name type_name type_info keyless = do
    cton ← lift (c_string topic_name)
    ctyn ← lift (c_string type_name)
    topic ← topic_handle cton ctyn type_info keyless
    non_negative topic_creation topic

  -- A Reader with a listener, that routes data as soon as it arrives.
  unfoldable pub listening_reader : ℤ → Qos → Forwarder → M ℤ
  unfolding perform
  listening_reader t qos to = do
    reader ← perform x (create_reader dp t qos (some to))
    if is_negative reader
        then fail (reader_creation (neg reader))
        else (do perform x (wait_for_historical_data reader); pure reader)

  -- A Reader with KEEP_LAST 1, from which a periodic task takes the data to route.
  unfoldable pub polled_reader : ℤ → Qos → Forwarder → ℕ → M ℤ
  unfolding perform
  polled_reader t qos to period = do
    reader ← perform x (
        create_reader dp t
          (record qos { history = some (record { kind = keep_last; depth = pos 1 }) }) none)
    perform x (spawn_periodic reader period to)
    pure reader

  abbrev reader_of : ℤ → Qos → Forwarder → Option ℕ → M ℤ
  reader_of t qos to none = listening_reader t qos to
  reader_of t qos to (some period) = polled_reader t qos to period

  unfoldable pub create_forwarding_dds_reader :
      Str → Option TypeInfo → Bool → Qos → Forwarder → Option ℕ → M ℤ
  create_forwarding_dds_reader type_name type_info keyless qos to read_period = do
    t ← create_topic to.topic_name type_name type_info keyless
    reader_of t qos to read_period

-- force RELIABLE QoS for Writers (#165): the default of a Writer is RELIABLE.
unfoldable pub force_reliable : Option Reliability → Option Reliability
force_reliable none = none
force_reliable (some r) = elim r.kind [ best_effort ↦ none | reliable ↦ some r ]

module _ (x : External) (dp : ℤ) where
  unfoldable pub created_writer : ℤ → Qos → M ℤ
  unfolding perform non_negative
  created_writer t qos = do
    writer ← perform x (create_writer dp t qos)
    non_negative writer_creation writer

  unfoldable pub create_forwarding_dds_writer : Str → Str → Option TypeInfo → Bool → Qos → M ℤ
  create_forwarding_dds_writer topic_name type_name type_info keyless qos = do
    t ← create_topic x dp topic_name type_name type_info keyless
    created_writer t (record qos { reliability = force_reliable qos.reliability })

unfoldable pub delete_dds_entity : External → ℤ → M (Unit {0})
unfolding perform
delete_dds_entity x entity = do
  r ← perform x (delete_entity entity)
  if eqb_ℤ r (pos 0) || eqb_ℤ r x.dds_retcode_already_deleted then pure tt else fail (deletion r)
