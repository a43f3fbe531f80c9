-- ===== src/Dds/Samples.antt =====
-- zenoh-plugin-dds/src/dds_mgt.rs: samples taken from DDS, and the two loops that route them. A
-- `ddsi_serdata` is what the sources read of it: its serialized bytes, and its loan.
pub mod Order
use zenoh_plugin_dds.Base.{ℕ, zero, suc, Bool, true, false, Option, none, some, List, [], ◌∷◌}
use zenoh_plugin_dds.Base.Tests.{Result, ok, err, if◌then◌else◌, drop, ◌>>=◌}
use zenoh_plugin_dds.Base.Int.{ℤ, pos, ltb_ℤ}
use zenoh_plugin_dds.Base.Text.{Str}
use zenoh_plugin_dds.World.{External, World, Forwarder, run_and_log, perform, put}

-- A loan holds raw data or not; `from_sample` is the serialization of its sample, if the type
-- information for it is held.
pub record Loan : Type 0 where
  pub is_raw_data : Bool
  pub from_sample : Option Str

pub record Serdata : Type 0 where
  pub ser_ref : Str
  pub loan : Option Loan

pub data SampleError : Type 0 where
  incomplete_type_information unexpected_sample_state : SampleError

abbrev serialized_sample : Option Str → Result SampleError Str
serialized_sample none = err incomplete_type_information
serialized_sample (some sample) = ok sample

-- `DDSRawSample::create`: the serialized bytes of a sample.
unfoldable pub create : Serdata → Result SampleError Str
create serdata = elim serdata.loan [
  | none ↦ ok serdata.ser_ref
  | some loan ↦
      if loan.is_raw_data then serialized_sample loan.from_sample else err unexpected_sample_state
]

-- `&bytes[n..]`, which panics out of range.
unfoldable pub slice_after : ℕ → Str → Option Str
slice_after zero s = some s
slice_after (suc n) [] = none
slice_after (suc n) (c ∷ s) = slice_after n s

-- The bytes behind the header of 4 bytes.
unfoldable pub payload_as_slice : Str → Option Str
payload_as_slice bytes = slice_after 4 bytes

-- What `dds_takecdr` hands out: a sample, whose data may not be valid.
pub record Taken : Type 0 where
  pub valid_data : Bool
  pub serdata : Serdata

module _ (x : External) (to : Forwarder) where
  -- The body of the loops: valid data is put on the key, an error is logged.
  unfoldable pub forward_sample : Taken → World → World
  forward_sample taken w =
      if taken.valid_data
      then (elim (create taken.serdata) [
        | ok raw_sample ↦
            run_and_log (perform x (put to.z_key (some to.congestion_ctrl) raw_sample)) w
        | err e ↦ w
      ])
      else w

  -- `data_forwarder_listener`, and one round of the periodic task, on the samples that are there.
  unfoldable pub data_forwarder_listener : List Taken → World → World
  data_forwarder_listener [] w = w
  data_forwarder_listener (taken ∷ rest) w = data_forwarder_listener rest (forward_sample taken w)
