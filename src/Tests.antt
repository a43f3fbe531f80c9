-- ===== src/Tests.antt =====
-- A concrete DDS and zenoh, with the entities on which the theorems are applied.
pub mod Plugins
pub mod Published
pub mod Keys
pub mod Endpoints
pub mod Graphs
pub mod Forward
pub mod Hosts
pub mod Edges
use zenoh_plugin_dds.Base.{
  ℕ, suc, ◌+◌, Bool, true, false, Option, none, some, List, [], ◌∷◌, ◌++◌, refl, ◌≡◌,
}
use zenoh_plugin_dds.Base.Tests.{length}
use zenoh_plugin_dds.Base.Int.{ℤ, pos, negsuc}
use zenoh_plugin_dds.Base.Text.{Str, codes, str_eq}
use zenoh_plugin_dds.Qos.{
  Qos, Cyclors, History, DurabilityService, Reliability, Durability, keep_last, keep_all, reliable,
  best_effort, transient_local,
}
use zenoh_plugin_dds.World.{
  External, World, Call, create_reader, create_writer, create_blob_topic, create_typed_topic,
}
use zenoh_plugin_dds.Entity.{DdsEntity, DdsParticipant}
use zenoh_plugin_dds.Config.{Config}

-- DDS hands out the positive handles in order; every other call succeeds.
abbrev pub answers : World → Call → ℤ
answers w (create_reader dp t qos l) = pos (suc (length w))
answers w (create_writer dp t qos) = pos (suc (length w))
answers w (create_blob_topic dp t n k) = pos (suc (length w))
answers w (create_typed_topic dp i n) = pos (suc (length w))
answers w _ = pos 0

abbrev pub defaults : Cyclors
defaults = record {
  dds_100ms_duration = pos 100000000;
  dds_1s_duration = pos 1000000000;
  dds_length_unlimited = negsuc 0;
  history_default = record { kind = keep_last; depth = pos 1 };
  durability_service_default = record {
    service_cleanup_delay = pos 0;
    history_kind = keep_last;
    history_depth = pos 1;
    max_samples = negsuc 0;
    max_instances = negsuc 0;
    max_samples_per_instance = negsuc 0;
  };
}

abbrev pub concrete : External
concrete = record {
  answer = answers;
  guid = λ w h. some (codes "0a");
  cyclors = defaults;
  dds_retcode_ok = pos 0;
  dds_retcode_already_deleted = negsuc 8;
  try_into = some;
  join = λ a b. some (a ++ (b'/' ∷ b));
  div = λ a b. a ++ (b'/' ∷ b);
  is_match = λ re ke. str_eq re ke;
  period_of = λ freq. some 100;
}

abbrev pub plain_qos : Qos
plain_qos = record {
  history = none;
  durability = none;
  durability_service = none;
  reliability = some (record { kind = reliable; max_blocking_time = pos 100 });
  partition = none;
  ignore_local = none;
  ownership_strength = none;
  transport_priority = none;
  lifespan = none;
  time_based_filter = none;
  writer_data_lifecycle = none;
  reader_data_lifecycle = none;
  writer_batching = none;
  properties = none;
  entity_name = none;
  others = [];
}

-- A Writer or Reader of the topic `rt/chatter` in two partitions.
abbrev pub chatter : Str → DdsEntity
chatter key = record {
  key = key;
  participant_key = codes "01";
  topic_name = codes "rt/chatter";
  type_name = codes "String";
  type_info = none;
  keyless = true;
  qos = record plain_qos {
    partition = some (codes "a" ∷ codes "b" ∷ []);
    durability = some (record { kind = transient_local });
  };
  routes = [];
}

abbrev pub settings : Config
settings = record {
  scope = some (codes "robot1");
  domain = 0;
  allow = none;
  deny = none;
  max_frequencies = [];
  generalise_subs = [];
  generalise_pubs = [];
  forward_discovery = false;
  reliable_routes_blocking = true;
  localhost_only = false;
  queries_timeout = 600;
  work_thread_num = 2;
  max_block_thread_num = 50;
  required = none;
  path = none;
}
