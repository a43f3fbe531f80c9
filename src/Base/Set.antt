-- ===== src/Base/Set.antt =====
-- Rust's `HashSet<String>` as a list without repetition.
use mathlib.Core.Path.{◌≡◌, refl}
use mathlib.Core.Bool.{Bool, true, false, not, ◌&&◌, ◌||◌}
use mathlib.Core.List.{List, [], ◌∷◌}
use native.Mathlib.Omega.{arith}
use zenoh_plugin_dds.Base.Tests.{if◌then◌else◌, is_empty}
use zenoh_plugin_dds.Base.Text.{Str, str_eq, str_eq_iff}

unfoldable pub mem : Str → List Str → Bool
mem k [] = false
mem k (j ∷ s) = str_eq j k || mem k s

-- `any`
unfoldable pub any : (Str → Bool) → List Str → Bool
any p [] = false
any p (j ∷ s) = p j || any p s

unfoldable pub insert : Str → List Str → List Str
unfolding mem
insert k s = if mem k s then s else k ∷ s

-- `retain`
unfoldable pub keep_if : (Str → Bool) → List Str → List Str
keep_if p [] = []
keep_if p (j ∷ s) = let rest = keep_if p s in if p j then j ∷ rest else rest

unfoldable pub remove : Str → List Str → List Str
remove k = keep_if (λ j. not (str_eq j k))

pub mem-insert : (k j : Str) (s : List Str) → mem j (insert k s) ≡ (str_eq k j || mem j s)
unfolding insert
mem-insert k j s = ground (arith, str_eq_iff k j)

pub mem-keep_if : (p : Str → Bool) (j : Str) (s : List Str) → mem j (keep_if p s) ≡ (p j && mem j s)
unfolding mem keep_if
mem-keep_if p j [] = ground arith
mem-keep_if p j (i ∷ s) = ground (arith, str_eq_iff i j, mem-keep_if p j s)

pub mem-remove : (k j : Str) (s : List Str) → mem j (remove k s) ≡ (not (str_eq k j) && mem j s)
unfolding remove
mem-remove k j s =
    ground (arith, mem-keep_if (λ i. not (str_eq i k)) j s, str_eq_iff k j, str_eq_iff j k)

pub is_empty_of_mem : (k : Str) (s : List Str) → mem k s ≡ true → is_empty s ≡ false
unfolding mem
is_empty_of_mem k [] h = cc
is_empty_of_mem k (j ∷ s) h = refl

pub insert-not_empty : (k : Str) (s : List Str) → is_empty (insert k s) ≡ false
insert-not_empty k s =
    is_empty_of_mem k (insert k s) (ground (arith, mem-insert k k s, (str_eq_iff k k).1 refl))

-- What is left over is not more.
pub keep_if-not_empty :
    (p : Str → Bool) (s : List Str) → is_empty (keep_if p s) ≡ false → is_empty s ≡ false
unfolding keep_if
keep_if-not_empty p [] h = h
keep_if-not_empty p (j ∷ s) h = refl

-- A set is empty just when nothing is in it.
pub mem_of_is_empty : (s : List Str) → is_empty s ≡ true → (j : Str) → mem j s ≡ false
unfolding mem
mem_of_is_empty [] h j = refl
mem_of_is_empty (k ∷ s) h j = absurd (ground (arith, h))

pub member_of_not_empty : (s : List Str) → is_empty s ≡ false → (j : Str) × (mem j s ≡ true)
unfolding mem
member_of_not_empty [] h = absurd (ground (arith, h))
member_of_not_empty (k ∷ s) h = (k, ground (arith, str_eq_iff k k))
