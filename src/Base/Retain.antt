-- ===== src/Base/Retain.antt =====
-- Invariants of `retain` with a closure that also changes a state.
use Prim.Native.Nat.{ℕ, ◌+◌}
use mathlib.Core.Path.{◌≡◌, refl}
use mathlib.Core.Bool.{false}
use mathlib.Core.Option.{Option, none, some}
use mathlib.Core.List.{[], ◌∷◌}
use native.Mathlib.Omega.{arith}
use zenoh_plugin_dds.Base.Text.{Str, str_eq}
use zenoh_plugin_dds.Base.Map.{Map, get, retain_with, Distinct, cons_opt}
use zenoh_plugin_dds.Base.Total.{total}

abbrev pub value_or_zero {ℓ} : {V : Type ℓ} → (V → ℕ) → Option V → ℕ
value_or_zero g none = 0
value_or_zero g (some v) = g v

module _ {ℓ κ} {V : Type ℓ} {S : Type κ} (f : Str → V → S → Option V × S) where
  cons_absent :
      (j k : Str) (o : Option V) (m : Map V)
      → str_eq j k ≡ false
      → get k m ≡ none
      → get k (cons_opt j o m) ≡ none
  unfolding get cons_opt
  cons_absent j k none m e h = h
  cons_absent j k (some v) m e h = rw e h

  retain_with_absent :
      (k : Str) (m : Map V) (s : S) → get k m ≡ none → get k (retain_with f m s).0 ≡ none
  unfolding get retain_with
  retain_with_absent k [] s h = refl
  retain_with_absent k ((j, v) ∷ m) s h =
      cons_absent j k (f j v s).0 (retain_with f m (f j v s).1).0 (ground arith)
        (retain_with_absent k m (f j v s).1 (ground arith))

  cons-Distinct :
      (j : Str) (o : Option V) (m : Map V) → get j m ≡ none → Distinct m → Distinct (cons_opt j o m)
  unfolding cons_opt
  cons-Distinct j none m e d = d
  cons-Distinct j (some v) m e d = (e, d)

  pub retain_with-Distinct : (m : Map V) (s : S) → Distinct m → Distinct (retain_with f m s).0
  unfolding retain_with
  retain_with-Distinct [] s d = tt
  retain_with-Distinct ((j, v) ∷ m) s d =
      cons-Distinct j (f j v s).0 (retain_with f m (f j v s).1).0
        (retain_with_absent j m (f j v s).1 d.0) (retain_with-Distinct m (f j v s).1 d.1)

  module _ (c d : S → ℕ) (g : V → ℕ)
      (step : (k : Str) (v : V) (s : S)
        → (c (f k v s).1 ≡ c s) × (d (f k v s).1 + value_or_zero g (f k v s).0 ≡ d s + g v)) where
    cons_total :
        (j : Str) (o : Option V) (m : Map V)
        → total g (cons_opt j o m) ≡ value_or_zero g o + total g m
    unfolding total cons_opt
    cons_total j none m = omega arith
    cons_total j (some v) m = refl

    -- If each call of the closure adds up, so does the whole.
    pub retain_with_balance :
        (m : Map V) (s : S)
        → (c (retain_with f m s).1 ≡ c s)
          × (d (retain_with f m s).1 + total g (retain_with f m s).0 ≡ d s + total g m)
    unfolding retain_with total
    retain_with_balance [] s = (refl, refl)
    retain_with_balance ((j, v) ∷ m) s =
        let rest = retain_with_balance m (f j v s).1 in
        let here = step j v s in
        (
          omega (arith, rest.0, here.0),
          omega (arith, rest.1, here.1, cons_total j (f j v s).0 (retain_with f m (f j v s).1).0),
        )
