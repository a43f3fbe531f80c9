-- ===== src/Base/Map.antt =====
-- Rust's `HashMap<String, V>` as an association list. The order in which Rust walks it is not
-- specified, and no theorem of the library depends on it.
use mathlib.Core.Path.{◌≡◌, refl, subst}
use mathlib.Core.Logic.{inl, inr}
use mathlib.Core.Option.{Option, none, some}
use mathlib.Core.List.{List, [], ◌∷◌, map}
use native.Mathlib.Omega.{arith}
use zenoh_plugin_dds.Base.Tests.{if◌then◌else◌, Bool-cases, ◌>>=◌}
use zenoh_plugin_dds.Base.Text.{Str, str_eq, str_eq_iff}

abbrev pub Map {ℓ} : Type ℓ → Type ℓ
Map V = List (Str × V)

module _ {ℓ} {V : Type ℓ} where
  unfoldable pub get : Str → Map V → Option V
  get k [] = none
  get k ((j, v) ∷ m) = if str_eq j k then some v else get k m

  unfoldable pub insert : Str → V → Map V → Map V
  insert k v [] = (k, v) ∷ []
  insert k v ((j, w) ∷ m) = if str_eq j k then (k, v) ∷ m else (j, w) ∷ insert k v m

  unfoldable pub remove : Str → Map V → Map V
  remove k [] = []
  remove k ((j, w) ∷ m) = let rest = remove k m in if str_eq j k then rest else (j, w) ∷ rest

  -- `get_mut` and a change of the value, if it is there.
  unfoldable pub modify : Str → (V → V) → Map V → Map V
  modify k f [] = []
  modify k f ((j, w) ∷ m) = let rest = modify k f m in (j, if str_eq j k then f w else w) ∷ rest

  unfoldable pub cons_opt : Str → Option V → Map V → Map V
  cons_opt j none m = m
  cons_opt j (some w) m = (j, w) ∷ m

  -- `retain` with a closure that may change the value: `none` drops the entry.
  unfoldable pub retain : (Str → V → Option V) → Map V → Map V
  unfolding cons_opt
  retain f [] = []
  retain f ((j, w) ∷ m) = cons_opt j (f j w) (retain f m)

  -- `values_mut` and a change of each value.
  unfoldable pub map_values : (V → V) → Map V → Map V
  map_values f [] = []
  map_values f ((j, w) ∷ m) = (j, f w) ∷ map_values f m

  abbrev pub values : Map V → List V
  values = map (λ e. e.1)

  -- No key stands twice.
  abbrev pub Distinct : Map V → Type ℓ
  Distinct [] = Unit
  Distinct ((j, w) ∷ m) = (get j m ≡ none) × Distinct m

module _ {ℓ} {V : Type ℓ} where
  pub get-insert :
      (k j : Str) (v : V) (m : Map V)
      → get j (insert k v m) ≡ (if str_eq k j then some v else get j m)
  unfolding get insert
  get-insert k j v [] = refl
  get-insert k j v ((i, w) ∷ m) =
      ground (arith, str_eq_iff k j, str_eq_iff i k, str_eq_iff i j, get-insert k j v m)

  pub get-remove :
      (k j : Str) (m : Map V) → get j (remove k m) ≡ (if str_eq k j then none else get j m)
  unfolding get remove
  get-remove k j [] = ground arith
  get-remove k j ((i, w) ∷ m) =
      ground (arith, str_eq_iff k j, str_eq_iff i k, str_eq_iff i j, get-remove k j m)

  pub get-modify :
      (k j : Str) (f : V → V) (m : Map V)
      → get j (modify k f m) ≡ (if str_eq k j then (get j m >>= λ v. some (f v)) else get j m)
  unfolding get modify
  get-modify k j f [] = ground arith
  get-modify k j f ((i, w) ∷ m) =
      ground (arith, str_eq_iff k j, str_eq_iff i k, str_eq_iff i j, get-modify k j f m)

  retain_absent :
      (f : Str → V → Option V) (k : Str) (m : Map V) → get k m ≡ none → get k (retain f m) ≡ none
  unfolding get retain
  retain_absent f k [] h = refl
  retain_absent f k ((i, w) ∷ m) h = ground (arith, retain_absent f k m)

  pub get-retain :
      (f : Str → V → Option V) (k : Str) (m : Map V)
      → Distinct m
      → get k (retain f m) ≡ (get k m >>= f k)
  unfolding get retain
  get-retain f k [] d = refl
  get-retain f k ((i, w) ∷ m) d =
      ground (arith, str_eq_iff i k, get-retain f k m d.1, retain_absent f k m)

  pub get-map_values :
      (f : V → V) (k : Str) (m : Map V) → get k (map_values f m) ≡ (get k m >>= λ v. some (f v))
  unfolding get map_values
  get-map_values f k [] = refl
  get-map_values f k ((i, w) ∷ m) = ground (arith, get-map_values f k m)

  pub insert-Distinct : (k : Str) (v : V) (m : Map V) → Distinct m → Distinct (insert k v m)
  unfolding get insert
  insert-Distinct k v [] d = (refl, tt)
  insert-Distinct k v ((i, w) ∷ m) d =
      ground (arith, str_eq_iff i k, str_eq_iff k i, insert-Distinct k v m d.1, get-insert k i v m)

  pub remove-Distinct : (k : Str) (m : Map V) → Distinct m → Distinct (remove k m)
  unfolding remove
  remove-Distinct k [] d = tt
  remove-Distinct k ((i, w) ∷ m) d = ground (arith, remove-Distinct k m d.1, get-remove k i m)

  pub modify-Distinct : (k : Str) (f : V → V) (m : Map V) → Distinct m → Distinct (modify k f m)
  unfolding modify
  modify-Distinct k f [] d = tt
  modify-Distinct k f ((i, w) ∷ m) d = ground (arith, modify-Distinct k f m d.1, get-modify k i f m)

  pub retain-Distinct : (f : Str → V → Option V) (m : Map V) → Distinct m → Distinct (retain f m)
  unfolding retain
  retain-Distinct f [] d = tt
  retain-Distinct f ((i, w) ∷ m) d = ground (arith, retain-Distinct f m d.1, retain_absent f i m)

-- `retain` with a closure that also changes a state.
unfoldable pub retain_with {ℓ κ} :
    {V : Type ℓ} {S : Type κ} → (Str → V → S → Option V × S) → Map V → S → Map V × S
unfolding cons_opt
retain_with f [] s = ([], s)
retain_with f ((j, w) ∷ m) s =
    let (kept, s') = f j w s in let (rest, s'') = retain_with f m s' in (cons_opt j kept rest, s'')

module _ {ℓ} {V : Type ℓ} where
  -- What holds of every key and value that can be found.
  abbrev pub Each {κ} : (Str → V → Type κ) → Map V → Type (ℓ ⊔ κ)
  Each P m = (k : Str) (v : V) → get k m ≡ some v → P k v

  pub insert-Each {κ} :
      (P : Str → V → Type κ) (j : Str) (v : V) (m : Map V)
      → P j v
      → Each P m
      → Each P (insert j v m)
  insert-Each P j v m p each k w found = elim (Bool-cases (str_eq j k)) [
    | inl t ↦
        let e : v ≡ w = ground (arith, get-insert j k v m) in
        subst (λ i. P i w) ((str_eq_iff j k).0 t) (subst (P j) e p)
    | inr f ↦ let e : get k m ≡ some w = ground (arith, get-insert j k v m) in each k w e
  ]

  pub remove-Each {κ} :
      (P : Str → V → Type κ) (j : Str) (m : Map V) → Each P m → Each P (remove j m)
  remove-Each P j m each k w found =
      let e : get k m ≡ some w = ground (arith, get-remove j k m) in each k w e
