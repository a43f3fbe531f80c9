-- ===== src/Keyexpr/Parse.antt =====
-- The key on which a discovery is forwarded, and what `parse_fwd_discovery_keyexpr` makes of it.
use mathlib.Core.List.{append_assoc}
use zenoh_plugin_dds.Base.{
  ℕ, Bool, true, false, ◌||◌, ◌≡◌, refl, ap, ◌∙◌, Option, none, some, [], ◌∷◌, ◌++◌, arith, inl,
  inr,
}
use zenoh_plugin_dds.Base.Tests.{◌==◌, Option-cases}
use zenoh_plugin_dds.Base.Text.{Str, codes, strip_prefix, starts_with, find_after, contains}
use zenoh_plugin_dds.World.{External}
use zenoh_plugin_dds.Keyexpr.Join.{has_star, star_free-append, JoinsBySlash}
use zenoh_plugin_dds.Keyexpr.{
  slash, ke_prefix_admin_space, ke_prefix_fwd_disco, fwd_key_prefix, fwd_entity_key, slice_from,
  is_boundary, find_kind, with_uuid, parse_fwd_discovery_keyexpr, kind_segment,
}

unfoldable pub has_slash : Str → Bool
has_slash [] = false
has_slash (c ∷ s) = c == b'/' || has_slash s

-- A word between slashes is found at the end of a text only if it is found in the text and the
-- slash after it.
strip_prefix-seam :
    (u s r : Str)
    → has_slash u ≡ false
    → strip_prefix (u ++ slash ∷ []) (s ++ slash ∷ []) ≡ none
    → strip_prefix (u ++ slash ∷ []) (s ++ slash ∷ r) ≡ none
unfolding strip_prefix has_slash
strip_prefix-seam [] [] r h e = cc
strip_prefix-seam [] (d ∷ s) r h e = ground arith
strip_prefix-seam (c ∷ u) [] r h e = ground arith
strip_prefix-seam (c ∷ u) (d ∷ s) r h e = ground (arith, strip_prefix-seam u s r)

strip_prefix_head :
    (c : ℕ) (u a r : Str)
    → has_slash u ≡ false
    → strip_prefix (slash ∷ (u ++ slash ∷ [])) (c ∷ (a ++ slash ∷ [])) ≡ none
    → strip_prefix (slash ∷ (u ++ slash ∷ [])) (c ∷ (a ++ slash ∷ r)) ≡ none
unfolding strip_prefix
strip_prefix_head c u a r hu h = ground (arith, strip_prefix-seam u a r)

pub find_after_of_contains : (s p : Str) → contains s p ≡ false → find_after s p ≡ none
unfolding contains find_after starts_with
find_after_of_contains [] p h = ground arith
find_after_of_contains (c ∷ s) p h = ground (arith, find_after_of_contains s p)

find_after_hit :
    (c : ℕ) (s p rest : Str)
    → strip_prefix p (c ∷ s) ≡ some rest
    → find_after (c ∷ s) p ≡ some ([], rest)
unfolding find_after
find_after_hit c s p rest e = ground arith

find_after_miss :
    (c : ℕ) (s p a b : Str)
    → strip_prefix p (c ∷ s) ≡ none
    → find_after s p ≡ some (a, b)
    → find_after (c ∷ s) p ≡ some (c ∷ a, b)
unfolding find_after
find_after_miss c s p a b e f = ground arith

contains-cons :
    (c : ℕ) (s p : Str)
    → contains (c ∷ s) p ≡ false
    → (strip_prefix p (c ∷ s) ≡ none) × (contains s p ≡ false)
unfolding contains starts_with
contains-cons c s p h = ground arith

pub contains-find_after :
    (s p : Str) → contains s p ≡ true → (a : Str) × (b : Str) × (find_after s p ≡ some (a, b))
unfolding contains starts_with find_after
contains-find_after [] p h = elim (Option-cases (strip_prefix p [])) [
  | inl e ↦ absurd (ground arith)
  | inr (b, e) ↦ ([], b, rw (e, find_after))
]
contains-find_after (c ∷ s) p h = elim (Option-cases (strip_prefix p (c ∷ s))) [
  | inl e ↦
      let (a, b, f) = contains-find_after s p (ground arith) in
      (c ∷ a, b, find_after_miss c s p a b e f)
  | inr (b, e) ↦ ([], b, find_after_hit c s p b e)
]

-- The first occurrence of `/u/` behind `a`.
pub find_after-first :
    (u a r rest : Str)
    → has_slash u ≡ false
    → contains (a ++ slash ∷ []) (slash ∷ (u ++ slash ∷ [])) ≡ false
    → strip_prefix (slash ∷ (u ++ slash ∷ [])) (slash ∷ r) ≡ some rest
    → find_after (a ++ slash ∷ r) (slash ∷ (u ++ slash ∷ [])) ≡ some (a, rest)
find_after-first u [] r rest hu h e = find_after_hit slash r (slash ∷ (u ++ slash ∷ [])) rest e
find_after-first u (c ∷ a) r rest hu h e =
    let (miss, later) = contains-cons c (a ++ slash ∷ []) (slash ∷ (u ++ slash ∷ [])) h in
    find_after_miss c (a ++ slash ∷ r) (slash ∷ (u ++ slash ∷ [])) a rest
      (strip_prefix_head c u a r hu miss) (find_after-first u a r rest hu later e)

-- A zenoh id: one segment with no wildcard, that begins with the first byte of a character.
pub record IsZid (uuid : Str) : Type 0 where
  pub one_segment : has_slash uuid ≡ false
  pub plain : has_star uuid ≡ false
  pub starts_char : is_boundary uuid ≡ true

abbrev pub scope_is_plain : Option Str → Bool
scope_is_plain none = true
scope_is_plain (some scope) = elim (has_star scope) [ true ↦ false | false ↦ true ]

-- The text between the id and the kind, `@dds_fwd_disco[/<scope>]`.
abbrev pub fwd_head : Option Str → Str
fwd_head none = ke_prefix_fwd_disco
fwd_head (some scope) = ke_prefix_fwd_disco ++ (slash ∷ scope)

find_after-slash :
    (u r : Str) → has_slash u ≡ false → find_after (u ++ slash ∷ r) (slash ∷ []) ≡ some (u, r)
unfolding has_slash strip_prefix
find_after-slash [] r h = find_after_hit slash r (slash ∷ []) r refl
find_after-slash (c ∷ u) r h =
    find_after_miss c (u ++ slash ∷ r) (slash ∷ []) u r (ground arith)
      (find_after-slash u r (ground arith))

module _ (x : External) (joins : JoinsBySlash x) (uuid : Str) (zid : IsZid uuid) where
  uuid_text : x.div ke_prefix_admin_space uuid ≡ codes "@/" ++ uuid
  unfolding has_star
  uuid_text = joins.div-plain ke_prefix_admin_space uuid refl

  disco_text :
      x.div (x.div ke_prefix_admin_space uuid) ke_prefix_fwd_disco
      ≡ codes "@/" ++ (uuid ++ (slash ∷ ke_prefix_fwd_disco))
  unfolding has_star
  disco_text = rw uuid_text (joins.div-plain (codes "@/" ++ uuid) ke_prefix_fwd_disco zid.plain)

  disco_plain : has_star (codes "@/" ++ (uuid ++ (slash ∷ ke_prefix_fwd_disco))) ≡ false
  unfolding has_star
  disco_plain = star_free-append uuid (slash ∷ ke_prefix_fwd_disco) zid.plain refl

  prefix_text :
      (scope : Option Str)
      → scope_is_plain scope ≡ true
      → (fwd_key_prefix x uuid scope ≡ codes "@/" ++ (uuid ++ (slash ∷ fwd_head scope)))
        × (has_star (codes "@/" ++ (uuid ++ (slash ∷ fwd_head scope))) ≡ false)
  unfolding fwd_key_prefix has_star
  prefix_text none h = (disco_text, disco_plain)
  prefix_text (some scope) h = (
    rw (disco_text, fwd_key_prefix)
        (joins.div-plain _ scope disco_plain ∙ ap (λ t. codes "@/" ++ t) (append_assoc uuid _ _)),
    star_free-append uuid (slash ∷ fwd_head (some scope)) zid.plain (ground arith),
  )

  pub fwd_entity_key_text :
      (scope : Option Str) (is_writer : Bool) (admin : Str)
      → scope_is_plain scope ≡ true
      → fwd_entity_key x uuid scope is_writer admin
        ≡ codes "@/"
          ++ (uuid
              ++ (slash
                  ∷ (fwd_head scope ++ (slash ∷ (kind_segment is_writer ++ (slash ∷ admin))))))
  unfolding fwd_entity_key has_star
  fwd_entity_key_text scope is_writer admin h =
      ap (λ t. x.div (x.div t (kind_segment is_writer)) admin) (prefix_text scope h).0
      ∙ (ap (λ t. x.div t admin)
            (joins.div-plain (prefix scope) (kind_segment is_writer) (prefix_text scope h).1)
          ∙ (joins.div-plain (prefix scope ++ (slash ∷ kind_segment is_writer)) admin
                (star_free-append (prefix scope) _ (prefix_text scope h).1 (kind_plain is_writer))
              ∙ simp append_assoc))
    where
      prefix : Option Str → Str
      prefix scope = codes "@/" ++ (uuid ++ (slash ∷ fwd_head scope))

      kind_plain : (b : Bool) → has_star (slash ∷ kind_segment b) ≡ false
      kind_plain true = refl
      kind_plain false = refl

boundary_append : (u r : Str) → is_boundary u ≡ true → is_boundary (u ++ (slash ∷ r)) ≡ true
boundary_append [] r h = refl
boundary_append (c ∷ u) r h = h

starts_with-fwd_head :
    (scope : Option Str) (r : Str) → starts_with (fwd_head scope ++ r) ke_prefix_fwd_disco ≡ true
unfolding starts_with strip_prefix
starts_with-fwd_head none r = refl
starts_with-fwd_head (some scope) r = refl

pub parse_text :
    (uuid : Str) (scope : Option Str) (r : Str)
    → IsZid uuid
    → parse_fwd_discovery_keyexpr (codes "@/" ++ (uuid ++ (slash ∷ (fwd_head scope ++ r))))
      ≡ some (with_uuid uuid (find_kind (fwd_head scope ++ r)))
unfolding parse_fwd_discovery_keyexpr slice_from starts_with strip_prefix
parse_text uuid scope r zid = rw (
  boundary_append uuid (fwd_head scope ++ r) zid.starts_char,
  find_after-slash uuid (fwd_head scope ++ r) zid.one_segment,
  starts_with-fwd_head scope r,
)
