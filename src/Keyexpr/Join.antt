-- ===== src/Keyexpr/Join.antt =====
-- What the proofs take from zenoh: `/` joins two key expressions by a slash.
use zenoh_plugin_dds.Base.{Bool, false, ◌||◌, ◌≡◌, refl, [], ◌∷◌, ◌++◌, arith}
use zenoh_plugin_dds.Base.Tests.{◌==◌}
use zenoh_plugin_dds.Base.Text.{Str}
use zenoh_plugin_dds.World.{External}

-- Does the text hold a `*`?
unfoldable pub has_star : Str → Bool
has_star [] = false
has_star (c ∷ s) = c == b'*' || has_star s

pub has_star-append : (s t : Str) → has_star (s ++ t) ≡ (has_star s || has_star t)
unfolding has_star
has_star-append [] t = refl
has_star-append (c ∷ s) t = ground (arith, has_star-append s t)

pub star_free-append :
    (s t : Str) → has_star s ≡ false → has_star t ≡ false → has_star (s ++ t) ≡ false
star_free-append s t p q = ground (arith, has_star-append s t)

-- The documentation of `keyexpr::join`: both sides with a `/` between them. Wildcards at the seam
-- are rewritten to their canonical form, so the left side has none here.
pub record JoinsBySlash (x : External) : Type 0 where
  pub div-plain : (a b : Str) → has_star a ≡ false → x.div a b ≡ a ++ (b'/' ∷ b)
