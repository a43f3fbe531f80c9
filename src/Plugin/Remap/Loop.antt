-- ===== src/Plugin/Remap/Loop.antt =====
-- zenoh-plugin-dds/src/lib.rs, `remap_entities_info`: when its loop ends, and with what.
use zenoh_plugin_dds.Base.{
  ℕ, zero, suc, ◌+◌, ◌<◌, ◌≡◌, ◌≢◌, refl, ap, ◌∙◌, none, some, List, [], ◌∷◌, ◌++◌, arith, inl, inr,
  ◌⊎◌,
}
use mathlib.Core.List.{append_assoc, append-nil}
use zenoh_plugin_dds.Base.Tests.{length}
use zenoh_plugin_dds.Base.Text.{Str}
use zenoh_plugin_dds.Plugin.Remap.{
  get_elem?, set, remove_at, Served, unrouted, unnamed, remapped, remap_loop,
}

Served-cases : (v : Served) → (v ≡ unrouted) ⊎ ((v ≡ unnamed) ⊎ ((own : Str) × (v ≡ remapped own)))
Served-cases unrouted = inl refl
Served-cases unnamed = inr (inl refl)
Served-cases (remapped own) = inr (inr (own, refl))

get_elem?-append :
    (done rest : List Str) (g : Str) → get_elem? (done ++ g ∷ rest) (length done) ≡ some g
get_elem?-append [] rest g = refl
get_elem?-append (d ∷ done) rest g = get_elem?-append done rest g

get_elem?-end : (done : List Str) → get_elem? done (length done) ≡ none
get_elem?-end [] = refl
get_elem?-end (d ∷ done) = get_elem?-end done

set-append :
    (done rest : List Str) (g v : Str)
    → set (done ++ g ∷ rest) (length done) v ≡ (done ++ v ∷ []) ++ rest
set-append [] rest g v = refl
set-append (d ∷ done) rest g v = ap (◌∷◌ d) (set-append done rest g v)

remove_at-append :
    (done rest : List Str) (g : Str) → remove_at (done ++ g ∷ rest) (length done) ≡ done ++ rest
remove_at-append [] rest g = refl
remove_at-append (d ∷ done) rest g = ap (◌∷◌ d) (remove_at-append done rest g)

length-snoc : (done : List Str) (v : Str) → length (done ++ v ∷ []) ≡ length done + 1
length-snoc [] v = omega arith
length-snoc (d ∷ done) v = omega (arith, length-snoc done v)

module _ (served : Str → Served) where
  abbrev step_spec : Served → List Str → List Str
  step_spec unrouted rest = rest
  step_spec unnamed rest = rest
  step_spec (remapped own) rest = own ∷ rest

  -- What a gid list becomes: the routed gids in their order, each replaced by that of its route.
  unfoldable pub remapped_gids : List Str → List Str
  remapped_gids [] = []
  remapped_gids (g ∷ gids) = step_spec (served g) (remapped_gids gids)

  -- The gid of every route that serves a gid of the list can be had.
  abbrev pub AllNamed : List Str → Type 0
  AllNamed [] = Unit
  AllNamed (g ∷ gids) = (served g ≢ unnamed) × AllNamed gids

  round_end :
      (fuel i : ℕ) (gids : List Str)
      → get_elem? gids i ≡ none
      → remap_loop served (suc fuel) i gids ≡ some gids
  unfolding remap_loop
  round_end fuel i gids e = rw (e, remap_loop)

  round_remove :
      (fuel i : ℕ) (gids : List Str) (g : Str)
      → get_elem? gids i ≡ some g
      → served g ≡ unrouted
      → remap_loop served (suc fuel) i gids ≡ remap_loop served fuel i (remove_at gids i)
  unfolding remap_loop
  round_remove fuel i gids g e u = rw (e, remap_loop) (rw (u, remap_loop))

  round_replace :
      (fuel i : ℕ) (gids : List Str) (g own : Str)
      → get_elem? gids i ≡ some g
      → served g ≡ remapped own
      → remap_loop served (suc fuel) i gids ≡ remap_loop served fuel (i + 1) (set gids i own)
  unfolding remap_loop
  round_replace fuel i gids g own e u = rw (e, remap_loop) (rw (u, remap_loop))

  remap_loop_from :
      (fuel : ℕ) (done rest : List Str)
      → length rest < fuel
      → AllNamed rest
      → remap_loop served fuel (length done) (done ++ rest) ≡ some (done ++ remapped_gids rest)
  unfolding remapped_gids
  remap_loop_from zero done rest h a = absurd (omega arith)
  remap_loop_from (suc fuel) done [] h a =
      rw append-nil (round_end fuel (length done) done (get_elem?-end done))
  remap_loop_from (suc fuel) done (g ∷ rest) h a =
      let at = get_elem?-append done rest g in
      elim (Served-cases (served g)) [
        | inl e ↦
            rw
              (
                round_remove fuel (length done) (done ++ g ∷ rest) g at e,
                remove_at-append done rest g,
                e,
              )
              (remap_loop_from fuel done rest (omega arith) a.1)
        | inr (inl e) ↦ absurd (a.0 e)
        | inr (inr (own, e)) ↦
            rw
              (
                round_replace fuel (length done) (done ++ g ∷ rest) g own at e,
                set-append done rest g own,
                ← length-snoc done own,
                e,
              )
              (remap_loop_from fuel (done ++ own ∷ []) rest (omega arith) a.1
                ∙ ap some (append_assoc done (own ∷ []) (remapped_gids rest)))
      ]

  -- With one round for each gid and one more the loop ends, and yields the gids of the routes, if
  -- the gid of each serving route can be had.
  pub remap_loop-remapped_gids :
      (gids : List Str) (fuel : ℕ)
      → length gids < fuel
      → AllNamed gids
      → remap_loop served fuel 0 gids ≡ some (remapped_gids gids)
  remap_loop-remapped_gids gids fuel h a = remap_loop_from fuel [] gids h a

  -- If the gid at the index is that of a route whose own gid cannot be had, no fuel is enough: the
  -- loop never ends.
  pub remap_loop_stuck :
      (fuel i : ℕ) (gids : List Str) (g : Str)
      → get_elem? gids i ≡ some g
      → served g ≡ unnamed
      → remap_loop served fuel i gids ≡ none
  unfolding remap_loop
  remap_loop_stuck zero i gids g e u = refl
  remap_loop_stuck (suc fuel) i gids g e u =
      rw (e, remap_loop) (rw (u, remap_loop) (remap_loop_stuck fuel i gids g e u))
