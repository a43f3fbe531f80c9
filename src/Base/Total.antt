-- ===== src/Base/Total.antt =====
-- Sums over the values of a map.
use Prim.Native.Nat.{ℕ, ◌+◌}
use mathlib.Core.Path.{◌≡◌, refl}
use mathlib.Core.Option.{none, some}
use mathlib.Core.List.{[], ◌∷◌}
use native.Mathlib.Omega.{arith}
use zenoh_plugin_dds.Base.Text.{Str, str_eq_iff}
use zenoh_plugin_dds.Base.Map.{Map, get, insert, modify, Distinct}

module _ {ℓ} {V : Type ℓ} (f : V → ℕ) where
  unfoldable pub total : Map V → ℕ
  total [] = 0
  total ((k, v) ∷ m) = f v + total m

  pub total-insert :
      (k : Str) (v : V) (m : Map V) → get k m ≡ none → total (insert k v m) ≡ f v + total m
  unfolding total get insert
  total-insert k v [] h = refl
  total-insert k v ((j, w) ∷ m) h = ground (arith, total-insert k v m)

  pub total-modify_same :
      (k : Str) (g : V → V) (m : Map V) → ((v : V) → f (g v) ≡ f v) → total (modify k g m) ≡ total m
  unfolding total modify
  total-modify_same k g [] same = refl
  total-modify_same k g ((j, w) ∷ m) same = ground (arith, same w, total-modify_same k g m same)

  modify_absent :
      (k : Str) (g : V → V) (m : Map V) → get k m ≡ none → total (modify k g m) ≡ total m
  unfolding total modify get
  modify_absent k g [] h = refl
  modify_absent k g ((j, w) ∷ m) h = ground (arith, modify_absent k g m)

  pub total-modify :
      (k : Str) (v v' : V) (m : Map V)
      → Distinct m
      → get k m ≡ some v
      → total (modify k (λ _. v') m) + f v ≡ total m + f v'
  unfolding total modify get
  total-modify k v v' [] d h = absurd (ground arith)
  total-modify k v v' ((j, w) ∷ m) d h =
      ground (arith, str_eq_iff j k, modify_absent k (λ _. v') m, total-modify k v v' m d.1)
