-- ===== src/Plugin/Admin/Entries.antt =====
-- zenoh-plugin-dds/src/lib.rs: the admin space while an entity is inserted.
use zenoh_plugin_dds.Base.{◌≡◌, refl, ap, sym, ◌∙◌, Bool, true, false, some}
use zenoh_plugin_dds.Base.Text.{Str}
use zenoh_plugin_dds.Base.Map.{Map, Distinct, get-insert, get-remove}
use zenoh_plugin_dds.Base.Map
use zenoh_plugin_dds.World.{External}
use zenoh_plugin_dds.Entity.{DdsEntity, DdsParticipant}
use zenoh_plugin_dds.Keyexpr.{
  get_participant_admin_keyexpr, get_entity_admin_keyexpr, entity_admin_text,
}
use zenoh_plugin_dds.Plugin.{
  Plugin, dds_participant, dds_writer_entity, dds_reader_entity, insert_dds_participant,
  insert_dds_writer, insert_dds_reader,
}
use zenoh_plugin_dds.Plugin.Admin.Registered.{
  insert-Known, insert-Known_new, entity_key, IsRegistered, insert-IsRegistered,
}

module _ (x : External) (place : Bool → Str → Str × Str) where
  -- The entity has the key `k`, and the participant and the topic of that key.
  abbrev pub IsPlaced : Bool → Str → DdsEntity → Type 0
  IsPlaced is_writer k e = (e.key ≡ k) × (place is_writer k ≡ (e.participant_key, e.topic_name))

  pub record IsServed (s : Plugin) : Type 0 where
    pub registered : IsRegistered x place s
    pub distinct : Distinct s.admin_space
    pub participants : Map.Each (λ k e. e.key ≡ k) s.discovered_participants
    pub writers : Map.Each (IsPlaced true) s.discovered_writers
    pub readers : Map.Each (IsPlaced false) s.discovered_readers

  -- The admin key of an entity in its place.
  pub placed_key :
      (w : Bool) (k : Str) (e : DdsEntity)
      → IsPlaced w k e
      → get_entity_admin_keyexpr x e w ≡ entity_key x place w k
  unfolding get_entity_admin_keyexpr
  placed_key w k e (same, at) =
      ap (λ i. x.try_into (entity_admin_text e.participant_key w i e.topic_name)) same
      ∙ ap (λ t. x.try_into (entity_admin_text t.0 w k t.1)) (sym at)

  pub insert_dds_participant-IsServed :
      (adm : Str) (e : DdsParticipant) (s : Plugin)
      → get_participant_admin_keyexpr x e ≡ some adm
      → IsServed s
      → IsServed (insert_dds_participant adm e s)
  unfolding insert_dds_participant get_participant_admin_keyexpr
  insert_dds_participant-IsServed adm e s named i = record {
    registered =
        insert-IsRegistered x place s (insert_dds_participant adm e s) adm (dds_participant e.key)
          refl (insert-Known_new e.key e s.discovered_participants, named)
          (λ a. record {
            participants = λ k _ v. insert-Known e.key k e s.discovered_participants v;
            writers = λ k _ v. v;
            readers = λ k _ v. v;
            from_dds = λ k _ v. v;
            to_dds = λ k _ v. v;
          })
          i.registered;
    distinct = Map.insert-Distinct adm _ s.admin_space i.distinct;
    participants = Map.insert-Each _ e.key e s.discovered_participants refl i.participants;
    writers = i.writers;
    readers = i.readers;
  }

  pub insert_dds_writer-IsServed :
      (adm : Str) (e : DdsEntity) (s : Plugin)
      → get_entity_admin_keyexpr x e true ≡ some adm
      → IsPlaced true e.key e
      → IsServed s
      → IsServed (insert_dds_writer adm e s)
  unfolding insert_dds_writer
  insert_dds_writer-IsServed adm e s named placed i = record {
    registered =
        insert-IsRegistered x place s (insert_dds_writer adm e s) adm (dds_writer_entity e.key) refl
          (
            insert-Known_new e.key e s.discovered_writers,
            sym (placed_key true e.key e placed) ∙ named,
          )
          (λ a. record {
            participants = λ k _ v. v;
            writers = λ k _ v. insert-Known e.key k e s.discovered_writers v;
            readers = λ k _ v. v;
            from_dds = λ k _ v. v;
            to_dds = λ k _ v. v;
          })
          i.registered;
    distinct = Map.insert-Distinct adm _ s.admin_space i.distinct;
    participants = i.participants;
    writers = Map.insert-Each _ e.key e s.discovered_writers placed i.writers;
    readers = i.readers;
  }

  pub insert_dds_reader-IsServed :
      (adm : Str) (e : DdsEntity) (s : Plugin)
      → get_entity_admin_keyexpr x e false ≡ some adm
      → IsPlaced false e.key e
      → IsServed s
      → IsServed (insert_dds_reader adm e s)
  unfolding insert_dds_reader
  insert_dds_reader-IsServed adm e s named placed i = record {
    registered =
        insert-IsRegistered x place s (insert_dds_reader adm e s) adm (dds_reader_entity e.key) refl
          (
            insert-Known_new e.key e s.discovered_readers,
            sym (placed_key false e.key e placed) ∙ named,
          )
          (λ a. record {
            participants = λ k _ v. v;
            writers = λ k _ v. v;
            readers = λ k _ v. insert-Known e.key k e s.discovered_readers v;
            from_dds = λ k _ v. v;
            to_dds = λ k _ v. v;
          })
          i.registered;
    distinct = Map.insert-Distinct adm _ s.admin_space i.distinct;
    participants = i.participants;
    writers = i.writers;
    readers = Map.insert-Each _ e.key e s.discovered_readers placed i.readers;
  }
