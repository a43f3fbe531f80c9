-- ===== src/Tests/Edges.antt =====
-- The edges of the plugin on concrete inputs: what DDS reports, the configuration's text, samples in both
-- directions.
use zenoh_plugin_dds.Base.{
  ℕ, zero, suc, ◌≡◌, ◌<◌, refl, true, false, none, some, List, [], ◌∷◌, ◌++◌, arith,
}
use zenoh_plugin_dds.Base.Tests.{if◌then◌else◌, ok, replicate, Yields}
use zenoh_plugin_dds.Base.Int.{ℤ, pos}
use zenoh_plugin_dds.Base.Text.{Str, codes, find_after, strip_prefix}
use zenoh_plugin_dds.Base.Map
use zenoh_plugin_dds.World.{World, Forwarder, block, get_entity_sertype}
use zenoh_plugin_dds.Dds.{is_negative}
use zenoh_plugin_dds.Dds.Samples.{Taken, create, data_forwarder_listener}
use zenoh_plugin_dds.Dds.Samples.Order.{received, routed_bytes, data_forwarder_listener-received}
use zenoh_plugin_dds.Dds.Discovery.{EndpointSample, publication, on_endpoints}
use zenoh_plugin_dds.Dds.Discovery.Reports.{
  event_keys, reported_keys, AreEventsOf, on_endpoints-reported_keys,
}
use zenoh_plugin_dds.Config.Parse.{
  seq, deserialize_max_frequencies, written, meant, deserialize_max_frequencies-written,
}
use zenoh_plugin_dds.Route.ToDds.Deliver.{
  sees_writer, delivered, subscriber_callback, subscriber_callback-first,
  subscriber_callback-dropped,
}
use zenoh_plugin_dds.Ros.Info.{read}
use zenoh_plugin_dds.Ros.Info.Last.{last_of, read-last_of, read-short}
use zenoh_plugin_dds.Tests.{concrete, plain_qos}
use zenoh_plugin_dds.Tests.Forward.{ros_codec}

abbrev endpoint : ℕ → Str → EndpointSample
endpoint handle topic_name = record {
  is_alive = true;
  key = replicate 16 4;
  participant_key = replicate 16 1;
  participant_instance_handle = handle;
  topic_name = some topic_name;
  type_name = some (codes "String");
  type_info_ret = 0;
  type_info = none;
  qos = plain_qos;
}

abbrev endpoints : List EndpointSample
endpoints =
    endpoint 1 (codes "own") ∷ endpoint 2 (codes "rt/chatter") ∷ endpoint 2 (codes "DCPSTopic") ∷ []

on_endpoints-reported_keys_example :
    (event_keys (on_endpoints (λ b. b) 1 publication endpoints)
      ≡ reported_keys (λ b. b) 1 endpoints)
    × AreEventsOf publication (on_endpoints (λ b. b) 1 publication endpoints)
on_endpoints-reported_keys_example = on_endpoints-reported_keys (λ b. b) 1 publication endpoints

-- One rate for two topics, written in decimal.
abbrev rates : List (Str × Str × ℕ)
rates = (codes "scan", codes "10", 10) ∷ (codes "odom|tf", codes "10", 10) ∷ []

deserialize_max_frequencies-written_example :
    deserialize_max_frequencies
      (λ re. true)
      (λ s. some 10)
      (seq (written (λ re. true) (λ s. some 10) rates))
    ≡ ok (meant (λ re. true) (λ s. some 10) rates)
unfolding find_after strip_prefix
deserialize_max_frequencies-written_example =
    deserialize_max_frequencies-written (λ re. true) (λ s. some 10) rates
      (
        record { compiles = refl; no_equals = refl; parses = refl },
        (record { compiles = refl; no_equals = refl; parses = refl }, tt),
      )

-- The Writer is set before the third load.
abbrev late : ℕ → ℤ × World
late zero = (pos 0, [])
late (suc zero) = (pos 0, [])
late (suc (suc n)) = (pos 7, [])

early : (j : ℕ) → j < 2 → sees_writer concrete (codes "data") (late j) ≡ false
early zero less = refl
early (suc zero) less = refl
early (suc (suc j)) less = absurd (omega (arith, less))

subscriber_callback-first_example :
    Yields
      (λ w.
        delivered w
        ≡ delivered (late 2).1
          ++ (if is_negative (concrete.answer (late 2).1 (get_entity_sertype (late 2).0))
              then []
              else ((late 2).0, codes "data") ∷ []))
      (subscriber_callback concrete (codes "data") late)
subscriber_callback-first_example =
    subscriber_callback-first concrete (codes "data") 2 late (omega arith) early refl

-- No Writer is ever set.
subscriber_callback-dropped_example :
    subscriber_callback concrete (codes "data") (λ n. (pos 0, [])) ≡ none
subscriber_callback-dropped_example =
    subscriber_callback-dropped concrete (codes "data") (λ n. (pos 0, [])) (λ j less. refl)

abbrev sample : Str → Taken
sample bytes = record { valid_data = true; serdata = record { ser_ref = bytes; loan = none } }

-- Two messages of one participant.
abbrev messages : List Taken
messages = sample (replicate 20 9) ∷ sample (replicate 24 9) ∷ []

read-last_of_example :
    Yields
      (λ m. (gid : Str) → Map.get gid m ≡ last_of ros_codec gid messages none)
      (read ros_codec messages [])
unfolding create
read-last_of_example = read-last_of ros_codec messages (omega arith, (omega arith, tt))

read-short_example : read ros_codec (messages ++ sample (replicate 6 9) ∷ []) [] ≡ none
unfolding create
read-short_example =
    read-short ros_codec messages [] (sample (replicate 6 9)) [] (replicate 6 9) refl (omega arith)

abbrev chatter_key : Forwarder
chatter_key = record {
  topic_name = codes "rt/chatter";
  z_key = codes "rt/chatter";
  congestion_ctrl = block;
}

data_forwarder_listener-received_example :
    received (codes "rt/chatter") (data_forwarder_listener concrete chatter_key messages [])
    ≡ received (codes "rt/chatter") [] ++ routed_bytes messages
data_forwarder_listener-received_example =
    data_forwarder_listener-received concrete chatter_key messages []
