-- ===== src/Plugin/Admin/Registered.antt =====
-- zenoh-plugin-dds/src/lib.rs: every entry of the admin space points to what it was made for, through
-- the changes of one entry.
use zenoh_plugin_dds.Base.{
  ◌≡◌, ◌≢◌, refl, ap, sym, ◌∙◌, subst, Bool, true, false, Option, none, some, arith, inl, inr,
}
use zenoh_plugin_dds.Base.Tests.{Bool-cases}
use zenoh_plugin_dds.Base.Text.{Str, str_eq, str_eq_iff}
use zenoh_plugin_dds.Base.Map.{Map, get-insert, get-remove, get-modify}
use zenoh_plugin_dds.Base.Map
use zenoh_plugin_dds.World.{External}
use zenoh_plugin_dds.Keyexpr.{
  ke_prefix_route_from_dds, ke_prefix_route_to_dds, participant_admin_text, entity_admin_text,
}
use zenoh_plugin_dds.Plugin.{
  Plugin, AdminRef, dds_participant, dds_writer_entity, dds_reader_entity, from_dds_route,
  to_dds_route, plugin_config, plugin_version,
}
use zenoh_plugin_dds.Plugin.Admin.{get_admin_value}

-- The map has the key.
abbrev pub Known : {V : Type 0} → Str → Map V → Type 0
Known {V} k m = (v : V) × (Map.get k m ≡ some v)

pub insert-Known :
    {V : Type 0} (j k : Str) (v : V) (m : Map V) → Known k m → Known k (Map.insert j v m)
insert-Known j k v m (w, e) = elim (Bool-cases (str_eq j k)) [
  | inl t ↦ (v, ground (arith, get-insert j k v m))
  | inr f ↦ (w, ground (arith, get-insert j k v m))
]

pub insert-Known_new : {V : Type 0} (j : Str) (v : V) (m : Map V) → Known j (Map.insert j v m)
insert-Known_new j v m = (v, ground (arith, get-insert j j v m, (str_eq_iff j j).1 refl))

pub modify-Known :
    {V : Type 0} (j k : Str) (f : V → V) (m : Map V) → Known k m → Known k (Map.modify j f m)
modify-Known j k f m (w, e) = elim (Bool-cases (str_eq j k)) [
  | inl t ↦ (f w, ground (arith, get-modify j k f m))
  | inr t ↦ (w, ground (arith, get-modify j k f m))
]

-- The participant and the topic of each Writer (`true`) and Reader (`false`), by its key.
module _ (x : External) (place : Bool → Str → Str × Str) where
  -- The key of the entry for a Writer or a Reader.
  abbrev pub entity_key : Bool → Str → Option Str
  entity_key is_writer k =
      x.try_into (entity_admin_text (place is_writer k).0 is_writer k (place is_writer k).1)

  -- The entry `ref` stands under the key that was made for what it points to, which is known.
  abbrev pub Points : Plugin → Str → AdminRef → Type 0
  Points s a (dds_participant k) =
      Known k s.discovered_participants × (x.try_into (participant_admin_text k) ≡ some a)
  Points s a (dds_writer_entity k) = Known k s.discovered_writers × (entity_key true k ≡ some a)
  Points s a (dds_reader_entity k) = Known k s.discovered_readers × (entity_key false k ≡ some a)
  Points s a (from_dds_route k) = Known k s.routes_from_dds × (x.div ke_prefix_route_from_dds k ≡ a)
  Points s a (to_dds_route k) = Known k s.routes_to_dds × (x.div ke_prefix_route_to_dds k ≡ a)
  Points s a plugin_config = Unit
  Points s a plugin_version = Unit

  abbrev pub IsRegistered : Plugin → Type 0
  IsRegistered s = (a : Str) (ref : AdminRef) → Map.get a s.admin_space ≡ some ref → Points s a ref

  -- What an entry points to is found.
  pub Points-get_admin_value :
      (s : Plugin) (a : Str) (ref : AdminRef) → Points s a ref → get_admin_value s ref ≢ none
  unfolding get_admin_value
  Points-get_admin_value s a (dds_participant k) ((e, f), _) = rw f (λ h. cc)
  Points-get_admin_value s a (dds_writer_entity k) ((e, f), _) = rw f (λ h. cc)
  Points-get_admin_value s a (dds_reader_entity k) ((e, f), _) = rw f (λ h. cc)
  Points-get_admin_value s a (from_dds_route k) ((e, f), _) = rw f (λ h. cc)
  Points-get_admin_value s a (to_dds_route k) ((e, f), _) = rw f (λ h. cc)
  Points-get_admin_value s a plugin_config _ = λ h. cc
  Points-get_admin_value s a plugin_version _ = λ h. cc

  -- What the entry `a` may point to is known in the second state if it is in the first.
  pub record Keeps (a : Str) (s s' : Plugin) : Type 0 where
    pub participants :
        (k : Str)
        → x.try_into (participant_admin_text k) ≡ some a
        → Known k s.discovered_participants
        → Known k s'.discovered_participants
    pub writers :
        (k : Str)
        → entity_key true k ≡ some a
        → Known k s.discovered_writers
        → Known k s'.discovered_writers
    pub readers :
        (k : Str)
        → entity_key false k ≡ some a
        → Known k s.discovered_readers
        → Known k s'.discovered_readers
    pub from_dds :
        (k : Str)
        → x.div ke_prefix_route_from_dds k ≡ a
        → Known k s.routes_from_dds
        → Known k s'.routes_from_dds
    pub to_dds :
        (k : Str)
        → x.div ke_prefix_route_to_dds k ≡ a
        → Known k s.routes_to_dds
        → Known k s'.routes_to_dds

  pub Keeps-Points :
      (a : Str) (s s' : Plugin) (ref : AdminRef) → Keeps a s s' → Points s a ref → Points s' a ref
  Keeps-Points a s s' (dds_participant k) m (v, e) = (m.participants k e v, e)
  Keeps-Points a s s' (dds_writer_entity k) m (v, e) = (m.writers k e v, e)
  Keeps-Points a s s' (dds_reader_entity k) m (v, e) = (m.readers k e v, e)
  Keeps-Points a s s' (from_dds_route k) m (v, e) = (m.from_dds k e v, e)
  Keeps-Points a s s' (to_dds_route k) m (v, e) = (m.to_dds k e v, e)
  Keeps-Points a s s' plugin_config m p = tt
  Keeps-Points a s s' plugin_version m p = tt

  -- A new entry, where the older ones keep what they point to.
  pub insert-IsRegistered :
      (s s' : Plugin) (adm : Str) (new : AdminRef)
      → s'.admin_space ≡ Map.insert adm new s.admin_space
      → Points s' adm new
      → ((a : Str) → Keeps a s s')
      → IsRegistered s
      → IsRegistered s'
  insert-IsRegistered s s' adm new e p mono reg a ref h =
      let here : Map.get a (Map.insert adm new s.admin_space) ≡ some ref =
        ap (Map.get a) (sym e) ∙ h in
      elim (Bool-cases (str_eq adm a)) [
        | inl t ↦
            let got : new ≡ ref = ground (arith, get-insert adm a new s.admin_space, here) in
            subst (Points s' a) got (subst (λ k. Points s' k new) ((str_eq_iff adm a).0 t) p)
        | inr f ↦
            Keeps-Points a s s' ref (mono a)
              (reg a ref (ground (arith, get-insert adm a new s.admin_space, here)))
      ]

  -- The removal of an entry, where the others keep what they point to.
  pub remove-IsRegistered :
      (s s' : Plugin) (adm : Str)
      → s'.admin_space ≡ Map.remove adm s.admin_space
      → ((a : Str) → (adm ≢ a) → Keeps a s s')
      → IsRegistered s
      → IsRegistered s'
  remove-IsRegistered s s' adm e mono reg a ref h =
      let here : Map.get a (Map.remove adm s.admin_space) ≡ some ref = ap (Map.get a) (sym e) ∙ h in
      Keeps-Points a s s' ref
        (mono a (ground (arith, get-remove adm a s.admin_space, here, str_eq_iff adm a)))
        (reg a ref (ground (arith, get-remove adm a s.admin_space, here)))
