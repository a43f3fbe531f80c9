-- ===== src/Plugin/Fwd/Released.antt =====
-- zenoh-plugin-dds/src/lib.rs, `run_fwd_discovery_mode`: the routes when a remote Writer is deleted.
use zenoh_plugin_dds.Base.{
  ◌≡◌, refl, sym, ap, ◌∙◌, true, false, not, ◌&&◌, Option, ◌⊎◌, none, some, inl, inr,
}
use zenoh_plugin_dds.Base.Tests.{is_empty, Bool-cases, Ensures, if◌then◌else◌, ◌>>=◌}
use zenoh_plugin_dds.Base.Text.{Str, str_eq, str_eq_iff}
use zenoh_plugin_dds.Base.Set.{mem, mem-remove, mem_of_is_empty, member_of_not_empty}
use zenoh_plugin_dds.Base.Set
use zenoh_plugin_dds.Base.Map.{Map, Distinct, get-retain}
use zenoh_plugin_dds.Base.Map
use zenoh_plugin_dds.Base.All.{All, All-any, All-retain_with}
use zenoh_plugin_dds.World.{External, World}
use zenoh_plugin_dds.Route.ToDds.{
  RouteZenohDds, has_remote_routed_writer, remove_remote_routed_writer, delete_dds_writer,
  has_local_routed_reader, dds_entity_null,
}
use zenoh_plugin_dds.Plugin.{Plugin, AdminRef}
use zenoh_plugin_dds.Plugin.Fwd.{retain_to_dds}
use zenoh_plugin_dds.Plugin.Fwd.Remote.{release_remote_writer}
use zenoh_plugin_dds.Plugin.Fwd.Leave.{retain_with-retain}

-- The route does not serve the remote Writer.
abbrev pub HasForgotten : Str → RouteZenohDds → Type 0
HasForgotten full_ke r = mem full_ke r.remote_routed_writers ≡ false

-- The route without the remote Writer, if it is kept.
module _ (x : External) (full_ke : Str) where
  release_remote_writer-HasForgotten :
      (k : Str) (r : RouteZenohDds) (t : Map AdminRef × World)
      → Ensures (HasForgotten full_ke) (release_remote_writer x full_ke k r t).0
  unfolding remove_remote_routed_writer delete_dds_writer
  release_remote_writer-HasForgotten k r t =
      elim (Bool-cases (has_remote_routed_writer (remove_remote_routed_writer full_ke r))) [
        | inl y ↦ rw y forgotten
        | inr n ↦
            elim (Bool-cases (
              has_local_routed_reader
                (delete_dds_writer x (remove_remote_routed_writer full_ke r) t.1).0)) [
                  | inl l ↦ rw (n, l) forgotten
                  | inr m ↦ rw (n, m) tt
                ]
      ]
    where
      forgotten : mem full_ke (Set.remove full_ke r.remote_routed_writers) ≡ false
      forgotten =
          mem-remove full_ke full_ke r.remote_routed_writers
          ∙ rw ((str_eq_iff full_ke full_ke).1 refl) refl

  pub retain_to_dds-HasForgotten :
      (s : Plugin)
      → All
          (λ k. HasForgotten full_ke)
          (retain_to_dds (release_remote_writer x full_ke) s).routes_to_dds
  unfolding retain_to_dds
  retain_to_dds-HasForgotten s =
      All-retain_with (λ r. Unit) (HasForgotten full_ke) (release_remote_writer x full_ke)
        s.routes_to_dds (s.admin_space, s.world)
        (λ k r t u. release_remote_writer-HasForgotten k r t) (All-any s.routes_to_dds)

  -- What is left of a route when the remote Writer is gone: without another remote Writer it is
  -- kept for its local Readers, with no DDS Writer.
  abbrev writer_gone : RouteZenohDds → Option RouteZenohDds
  writer_gone r =
      let r' = remove_remote_routed_writer full_ke r in
      if has_remote_routed_writer r'
      then some r'
      else (if is_empty r.local_routed_readers
          then none
          else some (record r' { dds_writer = dds_entity_null }))

  release_remote_writer-writer_gone :
      (k : Str) (r : RouteZenohDds) (t : Map AdminRef × World)
      → (release_remote_writer x full_ke k r t).0 ≡ writer_gone r
  unfolding remove_remote_routed_writer delete_dds_writer has_local_routed_reader
  release_remote_writer-writer_gone k r t =
      elim (Bool-cases (has_remote_routed_writer (remove_remote_routed_writer full_ke r))) [
        | inl y ↦ rw y refl
        | inr n ↦ elim (Bool-cases (is_empty r.local_routed_readers)) [
          | inl l ↦ rw (n, l) refl
          | inr m ↦ rw (n, m) refl
        ]
      ]

  pub retain_to_dds-get :
      (k : Str) (s : Plugin)
      → Distinct s.routes_to_dds
      → Map.get k (retain_to_dds (release_remote_writer x full_ke) s).routes_to_dds
        ≡ (Map.get k s.routes_to_dds >>= writer_gone)
  unfolding retain_to_dds
  retain_to_dds-get k s distinct =
      ap (Map.get k) (
        retain_with-retain (release_remote_writer x full_ke) writer_gone
          release_remote_writer-writer_gone s.routes_to_dds (s.admin_space, s.world))
      ∙ get-retain (λ k. writer_gone) k s.routes_to_dds distinct

-- What becomes of a route to DDS when the remote Writer of this key is gone: it loses that Writer, and
-- keeps the others. With another remote Writer it changes in nothing else; without one it has no DDS
-- Writer either, and stays just when it has a local Reader.
abbrev pub ReleasedFrom : Str → Option RouteZenohDds → Option RouteZenohDds → Type 0
ReleasedFrom full_ke none after = after ≡ none
ReleasedFrom full_ke (some r) none =
    ((j : Str) → (not (str_eq full_ke j) && mem j r.remote_routed_writers) ≡ false)
    × ((j : Str) → mem j r.local_routed_readers ≡ false)
ReleasedFrom full_ke (some r) (some r') =
    ((j : Str)
      → mem j r'.remote_routed_writers ≡ (not (str_eq full_ke j) && mem j r.remote_routed_writers))
    × (r'
        ≡ record r { remote_routed_writers = r'.remote_routed_writers; dds_writer = r'.dds_writer })
    × ((((j : Str) × (mem j r'.remote_routed_writers ≡ true)) × (r'.dds_writer ≡ r.dds_writer))
        ⊎ (((j : Str) → mem j r'.remote_routed_writers ≡ false)
            × ((j : Str) × (mem j r.local_routed_readers ≡ true))
            × (r'.dds_writer ≡ dds_entity_null)))

module _ (x : External) (full_ke : Str) where
  pub writer_gone-ReleasedFrom :
      (o : Option RouteZenohDds) → ReleasedFrom full_ke o (o >>= writer_gone x full_ke)
  unfolding remove_remote_routed_writer has_remote_routed_writer
  writer_gone-ReleasedFrom none = refl
  writer_gone-ReleasedFrom (some r) =
      elim (Bool-cases (is_empty (Set.remove full_ke r.remote_routed_writers))) [
        | inr other ↦ rw other (removed, refl, inl (member_of_not_empty _ other, refl))
        | inl last ↦ elim (Bool-cases (is_empty r.local_routed_readers)) [
          | inl unused ↦
              rw (last, unused)
                (
                  λ j. sym (removed j) ∙ mem_of_is_empty _ last j,
                  mem_of_is_empty r.local_routed_readers unused,
                )
          | inr used ↦
              rw (last, used)
                (
                  removed,
                  refl,
                  inr (
                    mem_of_is_empty _ last,
                    member_of_not_empty r.local_routed_readers used,
                    refl,
                  ),
                )
        ]
      ]
    where
      removed :
          (j : Str)
          → mem j (Set.remove full_ke r.remote_routed_writers)
            ≡ (not (str_eq full_ke j) && mem j r.remote_routed_writers)
      removed j = mem-remove full_ke j r.remote_routed_writers
