-- ===== src/Base/All.antt =====
-- What holds of every entry of a map, also one behind another with the same key.
use mathlib.Core.Path.{◌≡◌, refl, subst}
use mathlib.Core.Logic.{inl, inr}
use mathlib.Core.Bool.{true, false}
use mathlib.Core.Option.{Option, none, some}
use mathlib.Core.List.{[], ◌∷◌}
use native.Mathlib.Omega.{arith}
use zenoh_plugin_dds.Base.Tests.{if◌then◌else◌, Bool-cases, Ensures}
use zenoh_plugin_dds.Base.Text.{Str, str_eq, str_eq_iff}
use zenoh_plugin_dds.Base.Map.{Map, get, insert, modify, retain_with, cons_opt}

module _ {V : Type 0} where
  abbrev pub All : (Str → V → Type 0) → Map V → Type 0
  All P [] = Unit
  All P ((k, v) ∷ m) = P k v × All P m

  pub All-get :
      (P : Str → V → Type 0) (k : Str) (m : Map V)
      → All P m
      → Ensures (λ v. (j : Str) × P j v) (get k m)
  unfolding get
  All-get P k [] all = tt
  All-get P k ((j, v) ∷ m) (p, all) = elim (Bool-cases (str_eq j k)) [
    | inl t ↦ rw t (j, p)
    | inr f ↦ rw f (All-get P k m all)
  ]

  -- The entries of `k` have a property of their own.
  abbrev pub At : Str → (V → Type 0) → (V → Type 0) → Str → V → Type 0
  At k P Q j v = if str_eq j k then P v else Q v

  module _ (k : Str) (P Q : V → Type 0) where
    At_same : (j : Str) (v : V) → str_eq j k ≡ true → At k P Q j v → P v
    At_same j v t p = subst (λ b. if b then P v else Q v) t p

    to_other : (j : Str) (v : V) → str_eq j k ≡ false → Q v → At k P Q j v
    to_other j v f q = rw f q

    At_other : (j : Str) (v : V) → str_eq j k ≡ false → At k P Q j v → Q v
    At_other j v f p = subst (λ b. if b then P v else Q v) f p

    pub All-modify :
        (f : V → V) (m : Map V)
        → ((v : V) → P v → Q (f v))
        → All (At k P Q) m
        → All (λ j. Q) (modify k f m)
    unfolding modify
    All-modify f [] step all = tt
    All-modify f ((j, v) ∷ m) step (p, all) = elim (Bool-cases (str_eq j k)) [
      | inl t ↦ rw t (step v (At_same j v t p), All-modify f m step all)
      | inr n ↦ rw n (At_other j v n p, All-modify f m step all)
    ]

    pub All-absent : (m : Map V) → get k m ≡ none → All (At k P Q) m → All (λ j. Q) m
    unfolding get
    All-absent [] e all = tt
    All-absent ((j, v) ∷ m) e (p, all) = elim (Bool-cases (str_eq j k)) [
      | inl t ↦ absurd (ground (arith, e, t))
      | inr n ↦ (At_other j v n p, All-absent m (ground (arith, e, n)) all)
    ]

    pub All-At : (m : Map V) → ((v : V) → Q v → P v) → All (λ j. Q) m → All (At k P Q) m
    All-At [] f all = tt
    All-At ((j, v) ∷ m) f (p, all) = elim (Bool-cases (str_eq j k)) [
      | inl t ↦ rw t (f v p, All-At m f all)
      | inr n ↦ rw n (p, All-At m f all)
    ]

    -- A new value for the entries of `k`.
    pub All-set : (w : V) (m : Map V) → P w → All (λ j. Q) m → All (At k P Q) (modify k (λ _. w) m)
    unfolding modify
    All-set w [] pw all = tt
    All-set w ((j, v) ∷ m) pw (p, all) = elim (Bool-cases (str_eq j k)) [
      | inl t ↦ rw t (pw, All-set w m pw all)
      | inr n ↦ rw n (p, All-set w m pw all)
    ]

    pub All-insert_new :
        (w : V) (m : Map V) → get k m ≡ none → P w → All (λ j. Q) m → All (At k P Q) (insert k w m)
    unfolding insert get
    All-insert_new w [] new pw all = rw ((str_eq_iff k k).1 refl) (pw, tt)
    All-insert_new w ((j, v) ∷ m) new pw (p, all) = elim (Bool-cases (str_eq j k)) [
      | inl t ↦ absurd (ground (arith, new, t))
      | inr n ↦ rw n (to_other j v n p, All-insert_new w m (ground (arith, new, n)) pw all)
    ]

  pub All-retain_with :
      {S : Type 0} (P Q : V → Type 0) (f : Str → V → S → Option V × S) (m : Map V) (s : S)
      → ((k : Str) (v : V) (s : S) → P v → Ensures Q (f k v s).0)
      → All (λ j. P) m
      → All (λ j. Q) (retain_with f m s).0
  unfolding retain_with
  All-retain_with P Q f [] s step all = tt
  All-retain_with P Q f ((k, v) ∷ m) s step (p, all) =
      kept (f k v s).0 (step k v s p) (All-retain_with P Q f m (f k v s).1 step all)
    where
      kept :
          (o : Option V)
          → Ensures Q o
          → All (λ j. Q) (retain_with f m (f k v s).1).0
          → All (λ j. Q) (cons_opt k o (retain_with f m (f k v s).1).0)
      kept none q rest = rest
      kept (some w) q rest = (q, rest)

  pub All-any : (m : Map V) → All (λ j v. Unit {0}) m
  All-any [] = tt
  All-any ((k, v) ∷ m) = (tt, All-any m)

  -- What holds of a new value, or of each changed value, holds of every entry again.
  pub All-insert :
      (P : V → Type 0) (k : Str) (w : V) (m : Map V)
      → P w
      → All (λ j. P) m
      → All (λ j. P) (insert k w m)
  unfolding insert
  All-insert P k w [] pw all = (pw, tt)
  All-insert P k w ((j, v) ∷ m) pw (p, all) = elim (Bool-cases (str_eq j k)) [
    | inl t ↦ rw t (pw, all)
    | inr n ↦ rw n (p, All-insert P k w m pw all)
  ]

  pub All-change :
      (P : V → Type 0) (k : Str) (f : V → V) (m : Map V)
      → ((v : V) → P v → P (f v))
      → All (λ j. P) m
      → All (λ j. P) (modify k f m)
  unfolding modify
  All-change P k f [] step all = tt
  All-change P k f ((j, v) ∷ m) step (p, all) = elim (Bool-cases (str_eq j k)) [
    | inl t ↦ rw t (step v p, All-change P k f m step all)
    | inr n ↦ rw n (p, All-change P k f m step all)
  ]
