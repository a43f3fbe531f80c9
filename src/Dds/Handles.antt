-- ===== src/Dds/Handles.antt =====
-- Which readers and writers the calls made so far have created and deleted.
use zenoh_plugin_dds.Base.{ℕ, ◌+◌, ◌≡◌, refl, Bool, Option, none, some, [], ◌∷◌, arith}
use zenoh_plugin_dds.Base.Tests.{Result, ok, err, if◌then◌else◌}
use zenoh_plugin_dds.Base.Int.{ℤ, pos, eqb_ℤ}
use zenoh_plugin_dds.Base.Text.{Str}
use zenoh_plugin_dds.Qos.{Qos}
use zenoh_plugin_dds.World.{
  External, Call, Forwarder, M, World, Error, create_reader, create_writer, delete_entity,
  topic_creation, run_and_log, pure, lift, ◌>>=◌,
}
use zenoh_plugin_dds.Dds.{
  TypeInfo, c_string, topic_handle, create_topic, listening_reader, polled_reader, reader_of,
  create_forwarding_dds_reader, created_writer, create_forwarding_dds_writer, delete_dds_entity,
  non_negative, force_reliable,
}

-- 1 if the handle is `h`.
abbrev pub is_handle : ℤ → ℤ → ℕ
is_handle h r = if eqb_ℤ r h then 1 else 0

-- How many handles a call that returned `r` has created with the value `h`.
abbrev pub creates : ℤ → Call → ℤ → ℕ
creates h (create_reader dp t qos l) r = is_handle h r
creates h (create_writer dp t qos) r = is_handle h r
creates h _ r = 0

abbrev pub deletes : ℤ → Call → ℕ
deletes h (delete_entity e) = is_handle h e
deletes h _ = 0

-- How often a reader or writer with the handle `h` was created.
unfoldable pub created : ℤ → World → ℕ
created h [] = 0
created h ((c, r) ∷ w) = creates h c r + created h w

-- How often the deletion of `h` was asked for.
unfoldable pub deleted : ℤ → World → ℕ
deleted h [] = 0
deleted h ((c, r) ∷ w) = deletes h c + deleted h w

-- The handles `h` that a result hands to the caller.
abbrev pub holds : ℤ → Result Error ℤ → ℕ
holds h (ok r) = is_handle h r
holds h (err e) = 0

-- What an action does with `h`: it adds `made r` creations, with `r` its result, and no deletion.
abbrev pub Makes :
    {A : Type 0} → ℤ → (Result Error A → ℕ) → World → Option (Result Error A × World) → Type 0
Makes h made w none = Unit
Makes h made w (some (r, w')) = (created h w' ≡ created h w + made r) × (deleted h w' ≡ deleted h w)

module _ {A B : Type 0} (h : ℤ) (made : Result Error B → ℕ)
    (quiet : (e : Error) → made (err e) ≡ 0) where
  bind_from :
      (w : World) (r : Option (Result Error A × World)) (f : A → M B)
      → Makes h (λ _. 0) w r
      → ((a : A) (w' : World) → Makes h made w' (f a w'))
      → Makes h made w
          (elim r [ none ↦ none | some (ok a, w') ↦ f a w' | some (err e, w') ↦ some (err e, w') ])
  bind_from w none f p q = tt
  bind_from w (some (ok a, w')) f p q = shift (f a w') (q a w')
    where
      shift : (s : Option (Result Error B × World)) → Makes h made w' s → Makes h made w s
      shift none _ = tt
      shift (some (b, w'')) t = (omega arith, omega arith)
  bind_from w (some (err e, w')) f p q = (omega (arith, quiet e), p.1)

  pub Makes-bind :
      (m : M A) (f : A → M B) (w : World)
      → Makes h (λ _. 0) w (m w)
      → ((a : A) (w' : World) → Makes h made w' (f a w'))
      → Makes h made w ((m >>= f) w)
  Makes-bind m f w p q = bind_from w (m w) f p q

module _ {A B : Type 0} (h : ℤ) (made : Result Error A → ℕ) (made' : Result Error B → ℕ) (g : A → B)
    (same : (a : A) → made (ok a) ≡ made' (ok (g a)))
    (quiet : (e : Error) → made (err e) ≡ made' (err e)) where
  map_from :
      (w : World) (r : Option (Result Error A × World))
      → Makes h made w r
      → Makes h made' w (elim r [
        | none ↦ none
        | some (ok a, w') ↦ pure (g a) w'
        | some (err e, w') ↦ some (err e, w')
      ])
  map_from w none p = tt
  map_from w (some (ok a, w')) p = (omega (arith, same a), p.1)
  map_from w (some (err e, w')) p = (omega (arith, quiet e), p.1)

  -- A result that is only wrapped is handed on with what it holds.
  pub Makes-map :
      (m : M A) (w : World) → Makes h made w (m w) → Makes h made' w ((m >>= λ a. pure (g a)) w)
  Makes-map m w p = map_from w (m w) p

module _ (x : External) (dp : ℤ) (n : ℕ) where
  lift-Makes : {A : Type 0} (o : Option A) (w : World) → Makes (pos n) (λ r. 0) w (lift o w)
  lift-Makes none w = tt
  lift-Makes (some a) w = (omega arith, refl)

  topic_handle-Makes :
      (ton tyn : Str) (ti : Option TypeInfo) (keyless : Bool) (w : World)
      → Makes (pos n) (λ _. 0) w (topic_handle x dp ton tyn ti keyless w)
  unfolding topic_handle created deleted
  topic_handle-Makes ton tyn none keyless w = ground arith
  topic_handle-Makes ton tyn (some ti) keyless w = ground arith

  create_topic-Makes :
      (ton tyn : Str) (ti : Option TypeInfo) (keyless : Bool) (w : World)
      → Makes (pos n) (λ _. 0) w (create_topic x dp ton tyn ti keyless w)
  unfolding create_topic non_negative
  create_topic-Makes ton tyn ti keyless w =
      Makes-bind (pos n) (λ _. 0) (λ e. refl) (lift (c_string ton)) _ w
        (lift-Makes (c_string ton) w)
        λ a w'.
          Makes-bind (pos n) (λ _. 0) (λ e. refl) (lift (c_string tyn)) _ w'
            (lift-Makes (c_string tyn) w')
            λ b v.
              Makes-bind (pos n) (λ _. 0) (λ e. refl) (topic_handle x dp a b ti keyless)
                (non_negative topic_creation) v (topic_handle-Makes a b ti keyless v)
                (λ r v'. ground arith)

  listening_reader-Makes :
      (t : ℤ) (qos : Qos) (to : Forwarder) (w : World)
      → Makes (pos n) (holds (pos n)) w (listening_reader x dp t qos to w)
  unfolding listening_reader created deleted
  listening_reader-Makes t qos to w = ground arith

  polled_reader-Makes :
      (t : ℤ) (qos : Qos) (to : Forwarder) (period : ℕ) (w : World)
      → Makes (pos n) (holds (pos n)) w (polled_reader x dp t qos to period w)
  unfolding polled_reader created deleted
  polled_reader-Makes t qos to period w = ground arith

  reader_of-Makes :
      (t : ℤ) (qos : Qos) (to : Forwarder) (period : Option ℕ) (w : World)
      → Makes (pos n) (holds (pos n)) w (reader_of x dp t qos to period w)
  reader_of-Makes t qos to none w = listening_reader-Makes t qos to w
  reader_of-Makes t qos to (some period) w = polled_reader-Makes t qos to period w

  created_writer-Makes :
      (t : ℤ) (qos : Qos) (w : World)
      → Makes (pos n) (holds (pos n)) w (created_writer x dp t qos w)
  unfolding created_writer created deleted
  created_writer-Makes t qos w = ground arith

  -- The Reader that is handed to the caller is the only reader or writer that was created.
  pub create_forwarding_dds_reader-Makes :
      (tyn : Str) (ti : Option TypeInfo) (keyless : Bool) (qos : Qos) (to : Forwarder)
      (period : Option ℕ) (w : World)
      → Makes
          (pos n)
          (holds (pos n))
          w
          (create_forwarding_dds_reader x dp tyn ti keyless qos to period w)
  unfolding create_forwarding_dds_reader
  create_forwarding_dds_reader-Makes tyn ti keyless qos to period w =
      Makes-bind (pos n) (holds (pos n)) (λ e. refl)
        (create_topic x dp to.topic_name tyn ti keyless) (λ t. reader_of x dp t qos to period) w
        (create_topic-Makes to.topic_name tyn ti keyless w)
        (λ t w'. reader_of-Makes t qos to period w')

  pub create_forwarding_dds_writer-Makes :
      (ton tyn : Str) (ti : Option TypeInfo) (keyless : Bool) (qos : Qos) (w : World)
      → Makes (pos n) (holds (pos n)) w (create_forwarding_dds_writer x dp ton tyn ti keyless qos w)
  unfolding create_forwarding_dds_writer
  create_forwarding_dds_writer-Makes ton tyn ti keyless qos w =
      Makes-bind (pos n) (holds (pos n)) (λ e. refl) (create_topic x dp ton tyn ti keyless)
        (λ t. created_writer x dp t (record qos { reliability = force_reliable qos.reliability })) w
        (create_topic-Makes ton tyn ti keyless w) (λ t w'. created_writer-Makes t _ w')

-- A deletion is asked for once, whatever it answers.
pub run_and_log-delete_dds_entity :
    (x : External) (h e : ℤ) (w : World)
    → (created h (run_and_log (delete_dds_entity x e) w) ≡ created h w)
      × (deleted h (run_and_log (delete_dds_entity x e) w) ≡ is_handle h e + deleted h w)
unfolding delete_dds_entity created deleted run_and_log
run_and_log-delete_dds_entity x h e w = ground arith
