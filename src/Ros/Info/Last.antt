-- ===== src/Ros/Info/Last.antt =====
-- zenoh-plugin-dds/src/ros_discovery.rs, `read`: what it keeps of the samples, and when it panics.
use zenoh_plugin_dds.Base.{
  ℕ, zero, suc, ◌+◌, ◌≤◌, ◌<◌, ◌≡◌, refl, ap, ◌∙◌, Bool, true, false, Option, none, some, List, [],
  ◌∷◌, ◌++◌, arith, inl, inr,
}
use zenoh_plugin_dds.Base.Tests.{
  Result, ok, err, if◌then◌else◌, length, take, drop, ltb, ◌>>=◌, Bool-cases, Option-cases, Yields,
}
use zenoh_plugin_dds.Base.Text.{Str, str_eq}
use zenoh_plugin_dds.Base.Map.{Map, get-insert}
use zenoh_plugin_dds.Base.Map
use zenoh_plugin_dds.Dds.Samples.{Taken, SampleError, create, payload_as_slice, slice_after}
use zenoh_plugin_dds.Ros.Info.{RosCodec, first_16, read_sample, read}

slice_after-long : (n : ℕ) (s : Str) → n ≤ length s → slice_after n s ≡ some (drop n s)
unfolding slice_after
slice_after-long zero s h = refl
slice_after-long (suc n) [] h = absurd (omega (arith, h))
slice_after-long (suc n) (b ∷ s) h = slice_after-long n s (omega (arith, h))

slice_after-short : (n : ℕ) (s : Str) → length s < n → slice_after n s ≡ none
unfolding slice_after
slice_after-short zero s h = absurd (omega (arith, h))
slice_after-short (suc n) [] h = refl
slice_after-short (suc n) (b ∷ s) h = slice_after-short n s (omega (arith, h))

length-drop : (n : ℕ) (s : Str) → n ≤ length s → n + length (drop n s) ≡ length s
length-drop zero s h = omega arith
length-drop (suc n) [] h = absurd (omega (arith, h))
length-drop (suc n) (b ∷ s) h = omega (arith, length-drop n s (omega (arith, h)))

module _ (c : RosCodec) where
  abbrev bytes_of : Result SampleError Str → Option Str
  bytes_of (ok raw_sample) = some raw_sample
  bytes_of (err e) = none

  -- The bytes of a sample, if its data is valid and it can be serialized.
  abbrev pub valid_bytes : Taken → Option Str
  valid_bytes taken = if taken.valid_data then bytes_of (create taken.serdata) else none

  -- The 16 bytes behind the header, as text.
  abbrev pub gid_of : Str → Str
  gid_of raw_sample = c.hex.encode (take 16 (drop 4 raw_sample))

  abbrev pub IsLong : Option Str → Type 0
  IsLong none = Unit
  IsLong (some raw_sample) = 20 ≤ length raw_sample

  abbrev pub AreLong : List Taken → Type 0
  AreLong [] = Unit
  AreLong (taken ∷ rest) = IsLong (valid_bytes taken) × AreLong rest

  abbrev newer : Str → Option Str → Option Str → Option Str
  newer gid none old = old
  newer gid (some raw_sample) old = if str_eq (gid_of raw_sample) gid then some raw_sample else old

  -- The bytes of the last valid sample with this gid.
  abbrev pub last_of : Str → List Taken → Option Str → Option Str
  last_of gid [] old = old
  last_of gid (taken ∷ rest) old = last_of gid rest (newer gid (valid_bytes taken) old)

  abbrev insert_bytes : Option Str → Map Str → Map Str
  insert_bytes none result = result
  insert_bytes (some raw_sample) result = Map.insert (gid_of raw_sample) raw_sample result

  -- What the body does with the bytes of a valid sample.
  abbrev insert_raw : Str → Map Str → Option (Map Str)
  insert_raw raw_sample result = payload_as_slice raw_sample >>= λ payload.
      first_16 c payload >>= λ gid. some (Map.insert (c.hex.encode gid) raw_sample result)

  abbrev body : Bool → Result SampleError Str → Map Str → Option (Map Str)
  body valid (ok raw_sample) result = if valid then insert_raw raw_sample result else some result
  body valid (err e) result = some result

  insert_raw-long :
      (raw_sample : Str) (result : Map Str)
      → 20 ≤ length raw_sample
      → insert_raw raw_sample result ≡ some (Map.insert (gid_of raw_sample) raw_sample result)
  unfolding payload_as_slice first_16
  insert_raw-long raw_sample result h = rw (slice_after-long 4 raw_sample (omega (arith, h))) (
      rw
        (slice_after-long 16 (drop 4 raw_sample)
          (omega (arith, h, length-drop 4 raw_sample (omega (arith, h)))))
        refl)

  insert_raw-short :
      (raw_sample : Str) (result : Map Str)
      → length raw_sample < 20
      → insert_raw raw_sample result ≡ none
  unfolding payload_as_slice first_16
  insert_raw-short raw_sample result h = elim (Bool-cases (ltb (length raw_sample) 4)) [
    | inl few ↦ rw (slice_after-short 4 raw_sample (ground (arith, few))) refl
    | inr more ↦
        let enough : 4 ≤ length raw_sample = ground (arith, more) in
        rw (slice_after-long 4 raw_sample enough) (
          rw
            (slice_after-short 16 (drop 4 raw_sample)
              (omega (arith, h, length-drop 4 raw_sample enough)))
            refl)
  ]

  read_sample-body :
      (taken : Taken) (result : Map Str)
      → read_sample c taken result ≡ body taken.valid_data (create taken.serdata) result
  unfolding read_sample
  read_sample-body taken result = split taken.valid_data (create taken.serdata)
    where
      split :
          (valid : Bool) (r : Result SampleError Str)
          → (if valid
              then (elim r [ ok raw_sample ↦ insert_raw raw_sample result | err e ↦ some result ])
              else some result)
            ≡ body valid r result
      split true (ok raw_sample) = refl
      split true (err e) = refl
      split false (ok raw_sample) = refl
      split false (err e) = refl

  read_sample-insert :
      (taken : Taken) (result : Map Str)
      → IsLong (valid_bytes taken)
      → read_sample c taken result ≡ some (insert_bytes (valid_bytes taken) result)
  read_sample-insert taken result h =
      read_sample-body taken result ∙ inserted taken.valid_data (create taken.serdata) h
    where
      inserted :
          (valid : Bool) (r : Result SampleError Str)
          → IsLong (if valid then bytes_of r else none)
          → body valid r result ≡ some (insert_bytes (if valid then bytes_of r else none) result)
      inserted true (ok raw_sample) h = insert_raw-long raw_sample result h
      inserted true (err e) h = refl
      inserted false (ok raw_sample) h = refl
      inserted false (err e) h = refl

  get-insert_bytes :
      (gid : Str) (o : Option Str) (result : Map Str)
      → Map.get gid (insert_bytes o result) ≡ newer gid o (Map.get gid result)
  get-insert_bytes gid none result = refl
  get-insert_bytes gid (some raw_sample) result =
      get-insert (gid_of raw_sample) gid raw_sample result

  read_from-last_of :
      (taken : List Taken) (result : Map Str)
      → AreLong taken
      → Yields
          (λ m. (gid : Str) → Map.get gid m ≡ last_of gid taken (Map.get gid result))
          (read c taken result)
  unfolding read
  read_from-last_of [] result h = (result, refl, λ gid. refl)
  read_from-last_of (taken ∷ rest) result (h, hs) =
      let (m, e, found) = read_from-last_of rest (insert_bytes (valid_bytes taken) result) hs in
      (
        m,
        rw (read_sample-insert taken result h) e,
        λ gid. found gid ∙ ap (last_of gid rest) (get-insert_bytes gid (valid_bytes taken) result),
      )

  -- If each valid sample has the 4 bytes of a header and the 16 of a gid, the reading does not panic
  -- and keeps, for each gid, the bytes of the last valid sample with it.
  pub read-last_of :
      (taken : List Taken)
      → AreLong taken
      → Yields (λ m. (gid : Str) → Map.get gid m ≡ last_of gid taken none) (read c taken [])
  unfolding Map.get
  read-last_of taken h = read_from-last_of taken [] h

  read_sample-short :
      (taken : Taken) (result : Map Str) (raw_sample : Str)
      → valid_bytes taken ≡ some raw_sample
      → length raw_sample < 20
      → read_sample c taken result ≡ none
  read_sample-short taken result raw_sample valid short =
      read_sample-body taken result ∙ panics taken.valid_data (create taken.serdata) valid
    where
      panics :
          (b : Bool) (r : Result SampleError Str)
          → (if b then bytes_of r else none) ≡ some raw_sample
          → body b r result ≡ none
      panics true (ok raw) e =
          let same : raw ≡ raw_sample = cc in
          insert_raw-short raw result (omega (arith, short, ap length same))
      panics true (err er) e = absurd cc
      panics false r e = absurd cc

  -- A valid sample with fewer than 20 bytes makes the reading panic, whatever comes before and after.
  pub read-short :
      (before after : List Taken) (taken : Taken) (result : Map Str) (raw_sample : Str)
      → valid_bytes taken ≡ some raw_sample
      → length raw_sample < 20
      → read c (before ++ taken ∷ after) result ≡ none
  unfolding read
  read-short [] after taken result raw_sample valid short =
      rw (read_sample-short taken result raw_sample valid short) refl
  read-short (first ∷ before) after taken result raw_sample valid short =
      elim (Option-cases (read_sample c first result)) [
        | inl e ↦ rw e refl
        | inr (next, e) ↦ rw e (read-short before after taken next raw_sample valid short)
      ]
