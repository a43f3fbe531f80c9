-- ===== src/Plugin/Admin/Removals.antt =====
-- zenoh-plugin-dds/src/lib.rs: the admin space while an entity is removed.
use zenoh_plugin_dds.Base.{
  ◌≡◌, ◌≢◌, refl, ap, sym, ◌∙◌, subst, Bool, true, false, Option, some, arith, inl, inr,
}
use zenoh_plugin_dds.Base.Tests.{Option-cases, Ensures}
use zenoh_plugin_dds.Base.Text.{Str, str_eq_iff}
use zenoh_plugin_dds.Base.Map.{Map, Distinct, get-insert, get-remove}
use zenoh_plugin_dds.Base.Map
use zenoh_plugin_dds.World.{External}
use zenoh_plugin_dds.Entity.{DdsEntity, DdsParticipant}
use zenoh_plugin_dds.Keyexpr.{
  get_participant_admin_keyexpr, get_entity_admin_keyexpr, participant_admin_text,
}
use zenoh_plugin_dds.Plugin.{Plugin, remove_dds_participant, remove_dds_writer, remove_dds_reader}
use zenoh_plugin_dds.Plugin.Admin.Registered.{Known, entity_key, remove-IsRegistered}
use zenoh_plugin_dds.Plugin.Admin.Entries.{IsServed, placed_key}

-- Only the removed key is lost.
remove-Known : {V : Type 0} (j k : Str) (m : Map V) → (j ≢ k) → Known k m → Known k (Map.remove j m)
remove-Known j k m ne (v, e) = (v, ground (arith, get-remove j k m, str_eq_iff j k, ne))

module _ (x : External) (place : Bool → Str → Str × Str) where
  -- Of two keys with different entries in the admin space the second is not the first.
  other_key :
      (f : Str → Option Str) (j k adm a : Str) → (adm ≢ a) → f j ≡ some adm → f k ≡ some a → (j ≢ k)
  other_key f j k adm a ne p q same = let e : some adm ≡ some a = sym p ∙ (ap f same ∙ q) in ne (cc)

  abbrev without_participant : Str → Str → Plugin → Plugin
  without_participant key adm s = record s {
    discovered_participants = Map.remove key s.discovered_participants;
    admin_space = Map.remove adm s.admin_space;
  }

  without_participant-IsServed :
      (key adm : Str) (p : DdsParticipant) (s : Plugin)
      → Map.get key s.discovered_participants ≡ some p
      → get_participant_admin_keyexpr x p ≡ some adm
      → IsServed x place s
      → IsServed x place (without_participant key adm s)
  unfolding get_participant_admin_keyexpr
  without_participant-IsServed key adm p s e named i = record {
    registered =
        remove-IsRegistered x place s (without_participant key adm s) adm refl
          (λ a ne. record {
            participants = λ k at v.
                remove-Known key k s.discovered_participants
                  (other_key (λ k. x.try_into (participant_admin_text k)) key k adm a ne
                    (subst (λ k. x.try_into (participant_admin_text k) ≡ some adm)
                      (i.participants key p e) named)
                    at)
                  v;
            writers = λ k _ v. v;
            readers = λ k _ v. v;
            from_dds = λ k _ v. v;
            to_dds = λ k _ v. v;
          })
          i.registered;
    distinct = Map.remove-Distinct adm s.admin_space i.distinct;
    participants = Map.remove-Each _ key s.discovered_participants i.participants;
    writers = i.writers;
    readers = i.readers;
  }

  pub remove_dds_participant-IsServed :
      (key : Str) (s : Plugin)
      → IsServed x place s
      → Ensures (λ t. IsServed x place t.1) (remove_dds_participant x key s)
  unfolding remove_dds_participant
  remove_dds_participant-IsServed key s i =
      elim (Option-cases (Map.get key s.discovered_participants)) [
        | inl e ↦ rw (e, remove_dds_participant) i
        | inr (p, e) ↦
            rw (e, remove_dds_participant)
              (elim (Option-cases (get_participant_admin_keyexpr x p)) [
                | inl n ↦ rw n tt
                | inr (adm, named) ↦ rw named (without_participant-IsServed key adm p s e named i)
              ])
      ]

  abbrev without_writer : Str → Str → Plugin → Plugin
  without_writer key adm s = record s {
    discovered_writers = Map.remove key s.discovered_writers;
    admin_space = Map.remove adm s.admin_space;
  }

  without_writer-IsServed :
      (key adm : Str) (p : DdsEntity) (s : Plugin)
      → Map.get key s.discovered_writers ≡ some p
      → get_entity_admin_keyexpr x p true ≡ some adm
      → IsServed x place s
      → IsServed x place (without_writer key adm s)
  without_writer-IsServed key adm p s e named i = record {
    registered =
        remove-IsRegistered x place s (without_writer key adm s) adm refl
          (λ a ne. record {
            participants = λ k _ v. v;
            writers = λ k at v.
                remove-Known key k s.discovered_writers
                  (other_key (entity_key x place true) key k adm a ne
                    (sym (placed_key x place true key p (i.writers key p e)) ∙ named) at)
                  v;
            readers = λ k _ v. v;
            from_dds = λ k _ v. v;
            to_dds = λ k _ v. v;
          })
          i.registered;
    distinct = Map.remove-Distinct adm s.admin_space i.distinct;
    participants = i.participants;
    writers = Map.remove-Each _ key s.discovered_writers i.writers;
    readers = i.readers;
  }

  pub remove_dds_writer-IsServed :
      (key : Str) (s : Plugin)
      → IsServed x place s
      → Ensures (λ t. IsServed x place t.1) (remove_dds_writer x key s)
  unfolding remove_dds_writer
  remove_dds_writer-IsServed key s i = elim (Option-cases (Map.get key s.discovered_writers)) [
    | inl e ↦ rw (e, remove_dds_writer) i
    | inr (p, e) ↦
        rw (e, remove_dds_writer)
          (elim (Option-cases (get_entity_admin_keyexpr x p true)) [
            | inl n ↦ rw n tt
            | inr (adm, named) ↦ rw named (without_writer-IsServed key adm p s e named i)
          ])
  ]

  abbrev without_reader : Str → Str → Plugin → Plugin
  without_reader key adm s = record s {
    discovered_readers = Map.remove key s.discovered_readers;
    admin_space = Map.remove adm s.admin_space;
  }

  without_reader-IsServed :
      (key adm : Str) (p : DdsEntity) (s : Plugin)
      → Map.get key s.discovered_readers ≡ some p
      → get_entity_admin_keyexpr x p false ≡ some adm
      → IsServed x place s
      → IsServed x place (without_reader key adm s)
  without_reader-IsServed key adm p s e named i = record {
    registered =
        remove-IsRegistered x place s (without_reader key adm s) adm refl
          (λ a ne. record {
            participants = λ k _ v. v;
            writers = λ k _ v. v;
            readers = λ k at v.
                remove-Known key k s.discovered_readers
                  (other_key (entity_key x place false) key k adm a ne
                    (sym (placed_key x place false key p (i.readers key p e)) ∙ named) at)
                  v;
            from_dds = λ k _ v. v;
            to_dds = λ k _ v. v;
          })
          i.registered;
    distinct = Map.remove-Distinct adm s.admin_space i.distinct;
    participants = i.participants;
    writers = i.writers;
    readers = Map.remove-Each _ key s.discovered_readers i.readers;
  }

  pub remove_dds_reader-IsServed :
      (key : Str) (s : Plugin)
      → IsServed x place s
      → Ensures (λ t. IsServed x place t.1) (remove_dds_reader x key s)
  unfolding remove_dds_reader
  remove_dds_reader-IsServed key s i = elim (Option-cases (Map.get key s.discovered_readers)) [
    | inl e ↦ rw (e, remove_dds_reader) i
    | inr (p, e) ↦
        rw (e, remove_dds_reader)
          (elim (Option-cases (get_entity_admin_keyexpr x p false)) [
            | inl n ↦ rw n tt
            | inr (adm, named) ↦ rw named (without_reader-IsServed key adm p s e named i)
          ])
  ]
