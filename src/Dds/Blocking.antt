-- ===== src/Dds/Blocking.antt =====
-- zenoh-plugin-dds/src/lib.rs, `adapt_reader_qos_for_writer`: how long the Writer for a Reader blocks.
use zenoh_plugin_dds.Base.{◌≡◌, refl, ap, ◌∙◌, Option, none, some, arith, ◌⊎◌, inl, inr}
use zenoh_plugin_dds.Base.Int.{ℤ, pos, negsuc, ◌+ℤ◌, ◌≤ℤ◌}
use zenoh_plugin_dds.Qos.{Cyclors, saturating_add, i64_max}
use zenoh_plugin_dds.Qos.{Reliability, best_effort, reliable}

-- One more than the number, or the largest there is: it never wraps.
saturating_add-bounds :
    (t : ℤ)
    → t ≤ℤ i64_max
    → (t ≤ℤ saturating_add t (pos 1))
      × (saturating_add t (pos 1) ≤ℤ i64_max)
      × ((saturating_add t (pos 1) ≡ t +ℤ pos 1) ⊎ (t ≡ i64_max))
unfolding saturating_add ◌+ℤ◌
saturating_add-bounds (pos n) h = ground arith
saturating_add-bounds (negsuc n) h = ground arith

-- The time after `t`, or `t` if it is the largest there is.
abbrev pub OneMore : ℤ → ℤ → Type 0
OneMore t s = (s ≡ t +ℤ pos 1) ⊎ ((t ≡ i64_max) × (s ≡ i64_max))

pub saturating_add-OneMore : (t : ℤ) → t ≤ℤ i64_max → OneMore t (saturating_add t (pos 1))
unfolding saturating_add ◌+ℤ◌
saturating_add-OneMore t h =
    let (over, under, more) = saturating_add-bounds t h in
    elim more [ inl e ↦ inl e | inr e ↦ inr (e, ap (λ t. saturating_add t (pos 1)) e ∙ refl) ]

abbrev pub FitsI64 : Option Reliability → Type 0
FitsI64 none = Unit
FitsI64 (some r) = r.max_blocking_time ≤ℤ i64_max

abbrev IsReliableFor : ℤ → Option Reliability → Type 0
IsReliableFor t writer =
    (w : Reliability) × (writer ≡ some w) × (w.kind ≡ reliable) × OneMore t w.max_blocking_time

-- The reliability policy of the Writer for a Reader: a FastRTPS Reader matches a Writer only if the
-- Writer blocks longer than the Reader asks for, or than 100 ms if it does not ask. For a best-effort
-- Reader the Writer has the default policy.
abbrev pub BlocksLonger : Cyclors → Option Reliability → Option Reliability → Type 0
BlocksLonger c none writer = IsReliableFor c.dds_100ms_duration writer
BlocksLonger c (some r) writer = elim r.kind [
  | best_effort ↦ writer ≡ none
  | reliable ↦ IsReliableFor r.max_blocking_time writer
]
