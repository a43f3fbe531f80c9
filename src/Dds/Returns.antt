-- ===== src/Dds/Returns.antt =====
-- Actions on DDS and zenoh that do not panic, whatever the calls answer.
use zenoh_plugin_dds.Base.{ℕ, ◌≡◌, refl, Bool, true, false, Option, none, some}
use zenoh_plugin_dds.Base.Tests.{Result, ok, err, if◌then◌else◌}
use zenoh_plugin_dds.Base.Int.{ℤ, eqb_ℤ}
use zenoh_plugin_dds.Base.Text.{Str}
use zenoh_plugin_dds.Qos.{Qos}
use zenoh_plugin_dds.World.{
  External, M, World, Error, pure, fail, lift, perform, ◌>>=◌, Forwarder, create_topic_descriptor,
  create_reader,
}
use zenoh_plugin_dds.Dds.{
  TypeInfo, is_negative, non_negative, topic_handle, has_nul, c_string, create_topic,
  listening_reader, polled_reader, reader_of, create_forwarding_dds_reader, created_writer,
  create_forwarding_dds_writer,
}

-- The action returns a result or an error in every world.
abbrev pub Returns : {A : Type 0} → M A → Type 0
Returns {A} m = (w : World) → (t : Result Error A × World) × (m w ≡ some t)

module _ {A B : Type 0} (m : M A) (f : A → M B) where
  bind_result :
      (r : Option (Result Error A × World)) (t : Result Error A × World)
      → r ≡ some t
      → ((a : A) → Returns (f a))
      → (t' : Result Error B × World) × (elim r [
        | none ↦ none
        | some (ok a, w') ↦ f a w'
        | some (err e, w') ↦ some (err e, w')
      ]
          ≡ some t')
  bind_result none t e q = absurd cc
  bind_result (some (ok a, w')) t e q = q a w'
  bind_result (some (err er, w')) t e q = ((err er, w'), refl)

  pub Returns-bind : Returns m → ((a : A) → Returns (f a)) → Returns (m >>= f)
  Returns-bind p q w = bind_result (m w) (p w).0 (p w).1 q

pub Returns-if :
    {A : Type 0} (b : Bool) (m n : M A) → Returns m → Returns n → Returns (if b then m else n)
Returns-if true m n p q = p
Returns-if false m n p q = q

pub Returns-pure : {A : Type 0} (a : A) → Returns (pure a)
Returns-pure a w = ((ok a, w), refl)

Returns-fail : {A : Type 0} (e : Error) → Returns {A = A} (fail e)
Returns-fail e w = ((err e, w), refl)

-- The text holds no zero byte.
abbrev pub IsCString : Str → Type 0
IsCString s = has_nul s ≡ false

c_string-Returns : (s : Str) → IsCString s → Returns (lift (c_string s))
unfolding c_string
c_string-Returns s h w = rw h (_, refl)

module _ (x : External) (dp : ℤ) where
  topic_handle-Returns :
      (ton tyn : Str) (ti : Option TypeInfo) (keyless : Bool)
      → Returns (topic_handle x dp ton tyn ti keyless)
  unfolding topic_handle perform
  topic_handle-Returns ton tyn none keyless w = (_, refl)
  topic_handle-Returns ton tyn (some ti) keyless w =
      Returns-if (eqb_ℤ (x.answer w (create_topic_descriptor dp ti)) x.dds_retcode_ok) _ _
        (λ w'. (_, refl)) (Returns-pure _) _

  create_topic-Returns :
      (ton tyn : Str) (ti : Option TypeInfo) (keyless : Bool)
      → IsCString ton
      → IsCString tyn
      → Returns (create_topic x dp ton tyn ti keyless)
  unfolding create_topic non_negative
  create_topic-Returns ton tyn ti keyless cton ctyn =
      Returns-bind (lift (c_string ton)) _ (c_string-Returns ton cton) λ a.
        Returns-bind (lift (c_string tyn)) _ (c_string-Returns tyn ctyn) λ b.
          Returns-bind (topic_handle x dp a b ti keyless) _ (topic_handle-Returns a b ti keyless)
            λ r. Returns-if (is_negative r) _ _ (Returns-fail _) (Returns-pure r)

  reader_of-Returns :
      (t : ℤ) (qos : Qos) (to : Forwarder) (period : Option ℕ)
      → Returns (reader_of x dp t qos to period)
  unfolding listening_reader polled_reader perform
  reader_of-Returns t qos to none w =
      Returns-if (is_negative (x.answer w (create_reader dp t qos (some to)))) _ _ (Returns-fail _)
        (λ w'. (_, refl)) _
  reader_of-Returns t qos to (some period) w = (_, refl)

  pub create_forwarding_dds_reader-Returns :
      (tyn : Str) (ti : Option TypeInfo) (keyless : Bool) (qos : Qos) (to : Forwarder)
      (period : Option ℕ)
      → IsCString to.topic_name
      → IsCString tyn
      → Returns (create_forwarding_dds_reader x dp tyn ti keyless qos to period)
  unfolding create_forwarding_dds_reader
  create_forwarding_dds_reader-Returns tyn ti keyless qos to period cton ctyn =
      Returns-bind (create_topic x dp to.topic_name tyn ti keyless) _
        (create_topic-Returns to.topic_name tyn ti keyless cton ctyn)
        λ t. reader_of-Returns t qos to period

  pub create_forwarding_dds_writer-Returns :
      (ton tyn : Str) (ti : Option TypeInfo) (keyless : Bool) (qos : Qos)
      → IsCString ton
      → IsCString tyn
      → Returns (create_forwarding_dds_writer x dp ton tyn ti keyless qos)
  unfolding create_forwarding_dds_writer created_writer perform non_negative
  create_forwarding_dds_writer-Returns ton tyn ti keyless qos cton ctyn =
      Returns-bind (create_topic x dp ton tyn ti keyless) _
        (create_topic-Returns ton tyn ti keyless cton ctyn)
        λ t w. Returns-if (is_negative (x.answer w _)) _ _ (Returns-fail _) (Returns-pure _) _
