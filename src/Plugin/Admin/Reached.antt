-- ===== src/Plugin/Admin/Reached.antt =====
-- zenoh-plugin-dds/src/lib.rs: no entry of the admin space dangles in a state that the local mode
-- reaches.
use zenoh_plugin_dds.Base.{
  ◌≡◌, ◌≢◌, refl, ap, Bool, true, false, Option, none, some, List, [], ◌∷◌, ◌++◌, arith, inl, inr,
  ◌⊎◌,
}
use zenoh_plugin_dds.Base.Tests.{
  Bool-cases, Option-cases, Ensures, Ensures-bind, Ensures-bind_eq, Ensures-mono,
}
use zenoh_plugin_dds.Base.Int.{ℤ}
use zenoh_plugin_dds.Base.Text.{Str, str_eq_iff, codes, contains}
use zenoh_plugin_dds.Base.Map.{Map, Distinct, get-insert}
use zenoh_plugin_dds.Base.Map
use zenoh_plugin_dds.World.{External, World}
use zenoh_plugin_dds.Entity.{
  DiscoveryEvent, discovered_publication, undiscovered_publication, discovered_subscription,
  undiscovered_subscription, discovered_participant, undiscovered_participant,
}
use zenoh_plugin_dds.Config.{Config}
use zenoh_plugin_dds.Keyexpr.{get_participant_admin_keyexpr, get_entity_admin_keyexpr}
use zenoh_plugin_dds.Plugin.{
  Plugin, AdminRef, plugin_config, plugin_version, start, remove_dds_participant, remove_dds_writer,
  remove_dds_reader,
}
use zenoh_plugin_dds.Plugin.Local.{
  LocalEvent, discovery, new_member, local_step, loop_step, local_run, on_discovered_publication,
  on_undiscovered_publication, on_discovered_subscription, on_undiscovered_subscription,
  on_discovered_participant, on_undiscovered_participant, publication_routes, subscription_routes,
  on_new_member,
}
use zenoh_plugin_dds.Plugin.Admin.{
  Answer, reply, dangling, answer_of, single, matching, admin_answers, get_admin_value,
}
use zenoh_plugin_dds.Plugin.Admin.Registered.{Points, Points-get_admin_value}
use zenoh_plugin_dds.Plugin.Admin.Entries.{
  IsServed, insert_dds_participant-IsServed, insert_dds_writer-IsServed, insert_dds_reader-IsServed,
}
use zenoh_plugin_dds.Plugin.Admin.Removals.{
  remove_dds_participant-IsServed, remove_dds_writer-IsServed, remove_dds_reader-IsServed,
}
use zenoh_plugin_dds.Plugin.Admin.Routes.{
  moved_routes-IsServed, release_from_dds-IsServed, release_to_dds-IsServed,
}
use zenoh_plugin_dds.Plugin.Admin.Served.{
  ArePlaced, publication_routes-IsServed, subscription_routes-IsServed,
}

-- The internal errors among the answers.
abbrev pub dangling_refs : List Answer → List AdminRef
dangling_refs [] = []
dangling_refs (reply ke v ∷ answers) = dangling_refs answers
dangling_refs (dangling ref ∷ answers) = ref ∷ dangling_refs answers

dangling_refs-append :
    (us bs : List Answer)
    → dangling_refs us ≡ []
    → dangling_refs bs ≡ []
    → dangling_refs (us ++ bs) ≡ []
dangling_refs-append [] bs e f = f
dangling_refs-append (reply ke v ∷ us) bs e f = dangling_refs-append us bs e f
dangling_refs-append (dangling ref ∷ us) bs e f = absurd cc

-- A query of a state in which each entry is found.
module _ (intersects : Str → Str → Bool) (s : Plugin) where
  answer_found :
      (ke : Str) (ref : AdminRef) (rest : List Answer)
      → get_admin_value s ref ≢ none
      → dangling_refs rest ≡ []
      → dangling_refs (answer_of ke ref (get_admin_value s ref) ∷ rest) ≡ []
  answer_found ke ref rest found e = elim (Option-cases (get_admin_value s ref)) [
    | inl n ↦ absurd (found n)
    | inr (v, f) ↦ rw f e
  ]

  matching_found :
      (sub_ke : Str) (m : Map AdminRef)
      → Distinct m
      → ((a : Str) (ref : AdminRef) → Map.get a m ≡ some ref → get_admin_value s ref ≢ none)
      → dangling_refs (matching intersects s sub_ke m) ≡ []
  unfolding matching Map.get
  matching_found sub_ke [] d found = refl
  matching_found sub_ke ((ke, ref) ∷ m) (new, d) found =
      let later =
        matching_found sub_ke m d
          λ a r h. found a r (ground (arith, h, new, str_eq_iff ke a, ap (λ k. Map.get k m))) in
      elim (Bool-cases (intersects sub_ke ke)) [
        | inl t ↦
            rw t (
              answer_found ke ref _ (found ke ref (ground (arith, (str_eq_iff ke ke).1 refl)))
                later)
        | inr f ↦ rw f later
      ]

  single_found :
      (sub_ke : Str) (o : Option AdminRef)
      → ((ref : AdminRef) → o ≡ some ref → get_admin_value s ref ≢ none)
      → dangling_refs (single intersects s sub_ke o) ≡ []
  single_found sub_ke none found = refl
  single_found sub_ke (some ref) found = answer_found sub_ke ref [] (found ref refl) refl

  pub admin_answers_found :
      (kes : List Str)
      → Distinct s.admin_space
      → ((a : Str) (ref : AdminRef)
          → Map.get a s.admin_space ≡ some ref
          → get_admin_value s ref ≢ none)
      → dangling_refs (admin_answers intersects s kes) ≡ []
  unfolding admin_answers
  admin_answers_found [] d found = refl
  admin_answers_found (ke ∷ kes) d found = elim (Bool-cases (contains ke (codes "*"))) [
    | inl t ↦
        rw (t, admin_answers)
          (dangling_refs-append (matching intersects s ke s.admin_space)
            (admin_answers intersects s kes) (matching_found ke s.admin_space d found)
            (admin_answers_found kes d found))
    | inr f ↦
        rw (f, admin_answers)
          (dangling_refs-append (single intersects s ke (Map.get ke s.admin_space))
            (admin_answers intersects s kes) (single_found ke (Map.get ke s.admin_space) (found ke))
            (admin_answers_found kes d found))
  ]

module _ (x : External) (place : Bool → Str → Str × Str) where
  release_if-IsServed :
      {A : Type 0} (o : Option A) (s : Plugin) (f : Plugin → Plugin)
      → ((t : Plugin) → IsServed x place t → IsServed x place (f t))
      → IsServed x place s
      → Ensures (IsServed x place) (elim o [ none ↦ some s | some _ ↦ some (f s) ])
  release_if-IsServed none s f k i = i
  release_if-IsServed (some a) s f k i = k s i

  local_step-IsServed :
      (event : DiscoveryEvent) (events : List LocalEvent) (s : Plugin)
      → IsServed x place s
      → ArePlaced x place (discovery event ∷ events)
      → Ensures (IsServed x place) (local_step x event s)
  unfolding local_step on_discovered_publication on_undiscovered_publication
      on_discovered_subscription on_undiscovered_subscription on_discovered_participant
      on_undiscovered_participant get_entity_admin_keyexpr
  local_step-IsServed (discovered_publication e) events s i placed =
      Ensures-bind_eq (IsServed x place) (get_entity_admin_keyexpr x e true) _ λ adm named.
        Ensures-bind (λ t. IsServed x place t.1) (IsServed x place) (publication_routes x e s) _
          (publication_routes-IsServed x place e s i)
          λ t it. insert_dds_writer-IsServed x place adm _ t.1 named placed.0 it
  local_step-IsServed (undiscovered_publication key) events s i placed =
      Ensures-bind (λ t. IsServed x place t.1) (IsServed x place) (remove_dds_writer x key s) _
        (remove_dds_writer-IsServed x place key s i)
        λ t it. release_if-IsServed t.0 t.1 _ (release_from_dds-IsServed x place key) it
  local_step-IsServed (discovered_subscription e) events s i placed =
      Ensures-bind_eq (IsServed x place) (get_entity_admin_keyexpr x e false) _ λ adm named.
        Ensures-bind (λ t. IsServed x place t.1) (IsServed x place) (subscription_routes x e s) _
          (subscription_routes-IsServed x place e s i)
          λ t it. insert_dds_reader-IsServed x place adm _ t.1 named placed.0 it
  local_step-IsServed (undiscovered_subscription key) events s i placed =
      Ensures-bind (λ t. IsServed x place t.1) (IsServed x place) (remove_dds_reader x key s) _
        (remove_dds_reader-IsServed x place key s i)
        λ t it. release_if-IsServed t.0 t.1 _ (release_to_dds-IsServed x place key) it
  local_step-IsServed (discovered_participant e) events s i placed =
      Ensures-bind_eq (IsServed x place) (get_participant_admin_keyexpr x e) _
        λ adm named. insert_dds_participant-IsServed x place adm e s named i
  local_step-IsServed (undiscovered_participant key) events s i placed =
      Ensures-bind (λ t. IsServed x place t.1) (IsServed x place) (remove_dds_participant x key s) _
        (remove_dds_participant-IsServed x place key s i) λ t it. it

  on_new_member-IsServed :
      (zid : Str) (s : Plugin) → IsServed x place s → IsServed x place (on_new_member x zid s)
  unfolding on_new_member
  on_new_member-IsServed zid s i = elim (Option-cases (x.try_into zid)) [
    | inl e ↦ rw (e, on_new_member) i
    | inr (id, e) ↦
        rw (e, on_new_member)
          (moved_routes-IsServed x place s s.routes_from_dds s.routes_to_dds _ (λ k v. v) (λ k v. v)
            i)
  ]

  placed_after :
      (e : LocalEvent) (events : List LocalEvent)
      → ArePlaced x place (e ∷ events)
      → ArePlaced x place events
  placed_after (discovery (discovered_publication e)) events p = p.1
  placed_after (discovery (undiscovered_publication key)) events p = p
  placed_after (discovery (discovered_subscription e)) events p = p.1
  placed_after (discovery (undiscovered_subscription key)) events p = p
  placed_after (discovery (discovered_participant e)) events p = p
  placed_after (discovery (undiscovered_participant key)) events p = p
  placed_after (new_member zid) events p = p

  local_run_from-IsServed :
      (events : List LocalEvent) (s : Plugin)
      → IsServed x place s
      → ArePlaced x place events
      → Ensures (IsServed x place) (local_run x events s)
  unfolding local_run loop_step
  local_run_from-IsServed [] s i placed = i
  local_run_from-IsServed (discovery e ∷ events) s i placed =
      Ensures-bind (IsServed x place) (IsServed x place) (local_step x e s) _
        (local_step-IsServed e events s i placed)
        λ t it. local_run_from-IsServed events t it (placed_after (discovery e) events placed)
  local_run_from-IsServed (new_member zid ∷ events) s i placed =
      local_run_from-IsServed events (on_new_member x zid s) (on_new_member-IsServed zid s i) placed

  pub start-IsServed :
      (config : Config) (zid : Str) (dp : ℤ) (w : World) → IsServed x place (start config zid dp w)
  unfolding start Map.get
  start-IsServed config zid dp w = record {
    registered = λ a ref h. entry a ref h;
    distinct =
        Map.insert-Distinct (codes "version") plugin_version
          (Map.insert (codes "config") plugin_config [])
          (Map.insert-Distinct (codes "config") plugin_config [] tt);
    participants = λ k e found. absurd cc;
    writers = λ k e found. absurd cc;
    readers = λ k e found. absurd cc;
  }
    where
      named :
          (a : Str) (ref : AdminRef)
          → (ref ≡ plugin_version) ⊎ (ref ≡ plugin_config)
          → Points x place (start config zid dp w) a ref
      named a ref (inl e) = rw e tt
      named a ref (inr e) = rw e tt

      entry :
          (a : Str) (ref : AdminRef)
          → Map.get a (start config zid dp w).admin_space ≡ some ref
          → Points x place (start config zid dp w) a ref
      entry a ref h =
          let inner = Map.insert (codes "config") plugin_config [] in
          named a ref (
            ground (
              arith,
              h,
              get-insert (codes "version") a plugin_version inner,
              get-insert (codes "config") a plugin_config [],
            ))

  -- In every state that the loop reaches from the start of the plugin, a query of the admin space
  -- meets no dangling entry: each answer is a value. A key of DDS stands for one endpoint only, of
  -- one participant and topic.
  pub local_run-admin_answers :
      (config : Config) (zid : Str) (dp : ℤ) (w : World) (events : List LocalEvent)
      → ArePlaced x place events
      → (intersects : Str → Str → Bool) (kes : List Str)
      → Ensures
          (λ s. dangling_refs (admin_answers intersects s kes) ≡ [])
          (local_run x events (start config zid dp w))
  local_run-admin_answers config zid dp w events placed intersects kes =
      Ensures-mono (IsServed x place) _ (local_run x events (start config zid dp w))
        (local_run_from-IsServed events (start config zid dp w) (start-IsServed config zid dp w)
          placed)
        λ s i.
          admin_answers_found intersects s kes i.distinct
            λ a ref h. Points-get_admin_value x place s a ref (i.registered a ref h)
