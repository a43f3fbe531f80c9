-- ===== src/Dds/Samples/Order.antt =====
-- zenoh-plugin-dds/src/dds_mgt.rs: the loops that route the data of a DDS Reader, as a subscriber of the key
-- sees them.
use zenoh_plugin_dds.Base.{
  ◌≡◌, refl, sym, ap, ◌∙◌, ◌&&◌, Bool, true, false, Option, none, some, List, map, inl, inr, arith,
  [], ◌∷◌, ◌++◌,
}
use zenoh_plugin_dds.Base.Tests.{Bool-cases, Result, ok, err, if◌then◌else◌}
use zenoh_plugin_dds.Base.Text.{Str, str_eq, str_eq_refl}
use zenoh_plugin_dds.World.{External, World, Call, Forwarder, run_and_log, perform, put}
use zenoh_plugin_dds.Dds.Samples.{
  Loan, Taken, SampleError, create, forward_sample, data_forwarder_listener,
}

-- What is put on the key by one call.
abbrev put_on : Str → Call → List Str
put_on key (put k control payload) = if str_eq k key then payload ∷ [] else []
put_on key _ = []

-- The payloads that were put on the key, the oldest first.
abbrev pub received : Str → World → List Str
received key [] = []
received key ((call, r) ∷ w) = received key w ++ put_on key call

-- The samples whose data can be put: the data is valid, and either there is no loan or the loan holds
-- raw data whose type information is held.
abbrev is_some : Option Str → Bool
is_some none = false
is_some (some sample) = true

abbrev has_bytes : Option Loan → Bool
has_bytes none = true
has_bytes (some loan) = loan.is_raw_data && is_some loan.from_sample

abbrev pub is_routable : Taken → Bool
is_routable taken = taken.valid_data && has_bytes taken.serdata.loan

-- The bytes of such a sample: those of the serdata, or of the sample on loan.
abbrev loaned_or : Str → Option Loan → Str
loaned_or ser_ref none = ser_ref
loaned_or ser_ref (some loan) = elim loan.from_sample [ none ↦ [] | some sample ↦ sample ]

abbrev pub sample_bytes : Taken → Str
sample_bytes taken = loaned_or taken.serdata.ser_ref taken.serdata.loan

abbrev keep_routable : List Taken → List Taken
keep_routable [] = []
keep_routable (taken ∷ rest) =
    if is_routable taken then taken ∷ keep_routable rest else keep_routable rest

abbrev pub routed_bytes : List Taken → List Str
routed_bytes taken = map sample_bytes (keep_routable taken)

abbrev bytes_of : Result SampleError Str → List Str
bytes_of (ok raw_sample) = raw_sample ∷ []
bytes_of (err e) = []

-- The bytes that the code serializes.
abbrev valid_samples : List Taken → List Str
valid_samples [] = []
valid_samples (taken ∷ rest) =
    (if taken.valid_data then bytes_of (create taken.serdata) else []) ++ valid_samples rest

create-sample_bytes :
    (taken : Taken)
    → (if taken.valid_data then bytes_of (create taken.serdata) else [])
      ≡ (if is_routable taken then sample_bytes taken ∷ [] else [])
unfolding create
create-sample_bytes taken = of taken.valid_data taken.serdata.ser_ref taken.serdata.loan
  where
    of :
        (valid : Bool) (ref : Str) (loan : Option Loan)
        → (if valid then bytes_of (create (record { ser_ref = ref; loan = loan })) else [])
          ≡ (if valid && has_bytes loan then loaned_or ref loan ∷ [] else [])
    of false ref loan = refl
    of true ref none = refl
    of true ref (some loan) = ground arith

valid_samples-routed_bytes : (taken : List Taken) → valid_samples taken ≡ routed_bytes taken
valid_samples-routed_bytes [] = refl
valid_samples-routed_bytes (taken ∷ rest) = elim (Bool-cases (is_routable taken)) [
  | inl t ↦
      rw (create-sample_bytes taken)
        (rw t (ap (λ l. sample_bytes taken ∷ l) (valid_samples-routed_bytes rest)))
  | inr f ↦ rw (create-sample_bytes taken) (rw f (valid_samples-routed_bytes rest))
]

append_assoc : (us vs ws : List Str) → (us ++ vs) ++ ws ≡ us ++ (vs ++ ws)
append_assoc [] vs ws = refl
append_assoc (u ∷ us) vs ws = ap (λ l. u ∷ l) (append_assoc us vs ws)

append_nil : (us : List Str) → us ++ [] ≡ us
append_nil [] = refl
append_nil (u ∷ us) = ap (λ l. u ∷ l) (append_nil us)

module _ (x : External) (to : Forwarder) where
  forward_sample-received :
      (taken : Taken) (w : World)
      → received to.z_key (forward_sample x to taken w)
        ≡ received to.z_key w ++ (if taken.valid_data then bytes_of (create taken.serdata) else [])
  unfolding forward_sample run_and_log perform
  forward_sample-received taken w = split taken.valid_data (create taken.serdata)
    where
      split :
          (valid : Bool) (r : Result SampleError Str)
          → received to.z_key (
              if valid
              then (elim r [
                | ok raw_sample ↦
                    run_and_log (perform x (put to.z_key (some to.congestion_ctrl) raw_sample)) w
                | err e ↦ w
              ])
              else w)
            ≡ received to.z_key w ++ (if valid then bytes_of r else [])
      split true (ok raw_sample) = rw (str_eq_refl to.z_key) refl
      split true (err e) = sym (append_nil (received to.z_key w))
      split false r = sym (append_nil (received to.z_key w))

  data_forwarder_listener-valid :
      (taken : List Taken) (w : World)
      → received to.z_key (data_forwarder_listener x to taken w)
        ≡ received to.z_key w ++ valid_samples taken
  unfolding data_forwarder_listener
  data_forwarder_listener-valid [] w = sym (append_nil (received to.z_key w))
  data_forwarder_listener-valid (taken ∷ rest) w =
      data_forwarder_listener-valid rest (forward_sample x to taken w)
      ∙ ap (λ l. l ++ valid_samples rest) (forward_sample-received taken w)
      ∙ append_assoc (received to.z_key w) _ (valid_samples rest)

  -- A round of the listener, or of the periodic task, puts on the key of the route the bytes of the
  -- routable samples, each once and in the order in which DDS hands them out: the bytes of the
  -- serdata, or those of the sample on loan. A sample with data that is not valid is skipped, and so
  -- is one whose loan holds no raw data or has no type information.
  pub data_forwarder_listener-received :
      (taken : List Taken) (w : World)
      → received to.z_key (data_forwarder_listener x to taken w)
        ≡ received to.z_key w ++ routed_bytes taken
  data_forwarder_listener-received taken w =
      data_forwarder_listener-valid taken w
      ∙ ap (λ l. received to.z_key w ++ l) (valid_samples-routed_bytes taken)
