-- ===== src/World.antt =====
-- What lies outside the plugin: the DDS library (crate cyclors), the zenoh session and its key
-- expressions, regular expressions and floats. A run keeps the record of the calls made so far,
-- newest first; the answer to a call is an unknown function of that record, so it may differ from
-- call to call.
use zenoh_plugin_dds.Base.{ℕ, Bool, Option, none, some, List, ◌∷◌}
use zenoh_plugin_dds.Base.Tests.{Result, ok, err, if◌then◌else◌}
use zenoh_plugin_dds.Base.Int.{ℤ, pos, eqb_ℤ}
use zenoh_plugin_dds.Base.Text.{Str}
use zenoh_plugin_dds.Qos.{Qos, Cyclors}

pub data CongestionControl : Type 0 where
  block drop : CongestionControl

-- What a listener or a periodic task needs to route a sample: the topic, the key and the control.
pub record Forwarder : Type 0 where
  pub topic_name : Str
  pub z_key : Str
  pub congestion_ctrl : CongestionControl

pub data Call : Type 0 where
  declare_keyexpr : Str → Call
  declare_publisher : Str → Call
  declare_publication_cache : Str → ℕ → Str → Call
  declare_subscriber : Str → Call
  declare_querying_subscriber : Str → Str → Call
  fetch : Str → Str → Call
  put : Str → Option CongestionControl → Str → Call
  delete : Str → CongestionControl → Call
  create_blob_topic : ℤ → Str → Str → Bool → Call
  create_topic_descriptor : ℤ → ℕ → Call
  create_typed_topic : ℤ → ℕ → Str → Call
  delete_topic_descriptor : ℕ → Call
  create_reader : ℤ → ℤ → Qos → Option Forwarder → Call
  create_writer : ℤ → ℤ → Qos → Call
  wait_for_historical_data : ℤ → Call
  spawn_periodic : ℤ → ℕ → Forwarder → Call
  delete_entity : ℤ → Call
  get_entity_sertype : ℤ → Call
  write_cdr : ℤ → Str → Call

abbrev pub World : Type 0
World = List (Call × ℤ)

pub record External : Type 0 where
  -- the return code of a call, 0 for `Ok` of a zenoh call
  pub answer : World → Call → ℤ
  -- `dds_get_guid` and `hex::encode`
  pub guid : World → ℤ → Option Str
  pub cyclors : Cyclors
  pub dds_retcode_ok : ℤ
  pub dds_retcode_already_deleted : ℤ
  -- `OwnedKeyExpr::try_from`, `keyexpr::join` and `/` of zenoh
  pub try_into : Str → Option Str
  pub join : Str → Str → Option Str
  pub div : Str → Str → Str
  -- `Regex::is_match`, of the regex with this source
  pub is_match : Str → Str → Bool
  -- `Duration::from_secs_f32(1f32 / freq)` in nanoseconds, of the float with these bits; `none`
  -- if it panics
  pub period_of : ℕ → Option ℕ

-- The messages of the `Err(String)`s, each with the code that it shows.
pub data Error : Type 0 where
  topic_creation reader_creation writer_creation deletion no_guid : ℤ → Error
  keyexpr_declaration publication_cache_creation : Error
  subscriber_creation fetching_subscriber_creation : Error
  serialization : Error
  sertype_lookup : ℤ → Error

-- An action: `none` if it panics, else its result and the calls made so far.
abbrev pub M : Type 0 → Type 0
M A = World → Option (Result Error A × World)

abbrev pub pure : {A : Type 0} → A → M A
pure a w = some (ok a, w)

abbrev pub fail : {A : Type 0} → Error → M A
fail e w = some (err e, w)

-- A step that may panic.
abbrev pub lift : {A : Type 0} → Option A → M A
lift none w = none
lift (some a) w = some (ok a, w)

-- `?` on a result, and sequence.
infixl 5 ◌>>=◌ ◌>>◌
abbrev pub ◌>>=◌ : {A B : Type 0} → M A → (A → M B) → M B
◌>>=◌ m f w = elim (m w) [
  | none ↦ none
  | some (ok a, w') ↦ f a w'
  | some (err e, w') ↦ some (err e, w')
]

abbrev pub ◌>>◌ : {A B : Type 0} → M A → M B → M B
m >> k = m >>= λ _. k

unfoldable pub perform : External → Call → M ℤ
perform x c w = let r = x.answer w c in some (ok r, (c, r) ∷ w)

-- A call whose failure is the error `e`.
unfoldable pub perform_or : External → Call → Error → M (Unit {0})
perform_or x c e w =
    let r = x.answer w c in some (if eqb_ℤ r (pos 0) then ok tt else err e, (c, r) ∷ w)

-- The calls made after an action whose result is at most logged.
abbrev pub world_after : {A : Type 0} → World → Option (Result Error A × World) → World
world_after w none = w
world_after w (some (r, w')) = w'

unfoldable pub run_and_log : {A : Type 0} → M A → World → World
run_and_log m w = world_after w (m w)
