-- ===== src/Plugin/Admin/Retained.antt =====
-- zenoh-plugin-dds/src/lib.rs: `retain` over the routes, with a closure that removes the entry of each
-- route that it drops.
use zenoh_plugin_dds.Base.{
  ◌≡◌, ap, sym, ◌∙◌, subst, true, false, Option, none, some, [], ◌∷◌, arith, inl, inr, ◌⊎◌,
}
use zenoh_plugin_dds.Base.Tests.{Bool-cases}
use zenoh_plugin_dds.Base.Text.{Str, str_eq, str_eq_iff}
use zenoh_plugin_dds.Base.Map.{Map, Distinct, get-remove, cons_opt, retain_with}
use zenoh_plugin_dds.Base.Map
use zenoh_plugin_dds.Plugin.{AdminRef}
use zenoh_plugin_dds.Plugin.Admin.Registered.{Known}

-- The closure keeps a route and the admin space `admin` of its state, or removes the entry.
abbrev pub Closes :
    {V S : Type 0} → (S → Map AdminRef) → (Str → Str) → (Str → V → S → Option V × S) → Type 0
Closes {V} {S} admin adm close =
    (k : Str) (v : V) (t : S)
    → ((admin (close k v t).1 ≡ admin t) × ((v' : V) × ((close k v t).0 ≡ some v')))
      ⊎ (admin (close k v t).1 ≡ Map.remove (adm k) (admin t))

module _ {V S : Type 0} (admin : S → Map AdminRef) (adm : Str → Str)
    (close : Str → V → S → Option V × S) (law : Closes admin adm close) where
  cons_opt-Known :
      (j k : Str) (o : Option V) (m : Map V)
      → str_eq j k ≡ false
      → Known k m
      → Known k (cons_opt j o m)
  unfolding cons_opt Map.get
  cons_opt-Known j k none m ne (v, e) = (v, e)
  cons_opt-Known j k (some w) m ne (v, e) = (v, ground arith)

  cons_some-Known : (j k : Str) (w : V) (m : Map V) → str_eq j k ≡ true → Known k ((j, w) ∷ m)
  unfolding Map.get
  cons_some-Known j k w m t = (w, ground arith)

  tail-Known :
      (j k : Str) (w : V) (m : Map V) → str_eq j k ≡ false → Known k ((j, w) ∷ m) → Known k m
  unfolding Map.get
  tail-Known j k w m ne (v, e) = (v, ground arith)

  -- An entry that is left was there before, and a route that it points to is kept.
  pub retain_with-entries :
      (m : Map V) (t : S) (a : Str) (ref : AdminRef)
      → Map.get a (admin (retain_with close m t).1) ≡ some ref
      → (Map.get a (admin t) ≡ some ref)
        × ((k : Str) → adm k ≡ a → Known k m → Known k (retain_with close m t).0)
  unfolding retain_with cons_opt
  retain_with-entries [] t a ref h = (h, λ k _ v. v)
  retain_with-entries ((j, w) ∷ m) t a ref h =
      let (before, kept) = retain_with-entries m (close j w t).1 a ref h in
      elim (law j w t) [
        | inl (same, (v', e)) ↦ (
          ap (Map.get a) (sym same) ∙ before,
          λ k at known. elim (Bool-cases (str_eq j k)) [
            | inl y ↦ rw e (cons_some-Known j k v' _ y)
            | inr f ↦
                cons_opt-Known j k (close j w t).0 _ f (kept k at (tail-Known j k w m f known))
          ],
        )
        | inr gone ↦
            let left : Map.get a (Map.remove (adm j) (admin t)) ≡ some ref =
              ap (Map.get a) (sym gone) ∙ before in
            (
              ground (arith, get-remove (adm j) a (admin t), left),
              λ k at known. elim (Bool-cases (str_eq j k)) [
                | inl y ↦
                    let same : adm j ≡ a = ap adm ((str_eq_iff j k).0 y) ∙ at in
                    absurd (
                      ground
                        (arith, get-remove (adm j) a (admin t), left, str_eq_iff (adm j) a, same))
                | inr f ↦
                    cons_opt-Known j k (close j w t).0 _ f (kept k at (tail-Known j k w m f known))
              ],
            )
      ]

  pub retain_with-entries_Distinct :
      (m : Map V) (t : S) → Distinct (admin t) → Distinct (admin (retain_with close m t).1)
  unfolding retain_with
  retain_with-entries_Distinct [] t d = d
  retain_with-entries_Distinct ((j, w) ∷ m) t d = elim (law j w t) [
    | inl (same, _) ↦ retain_with-entries_Distinct m (close j w t).1 (subst Distinct (sym same) d)
    | inr gone ↦
        retain_with-entries_Distinct m (close j w t).1
          (subst Distinct (sym gone) (Map.remove-Distinct (adm j) (admin t) d))
  ]
