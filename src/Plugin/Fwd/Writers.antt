-- ===== src/Plugin/Fwd/Writers.antt =====
-- zenoh-plugin-dds/src/lib.rs, `run_fwd_discovery_mode`, and route_zenoh_dds.rs: the DDS Writer of a route
-- while the route is created, noted and released.
use zenoh_plugin_dds.Base.{
  ◌≡◌, ◌≢◌, refl, ap, true, false, not, ◌||◌, ◌&&◌, Option, none, some, [], ◌∷◌, arith, inl, inr,
}
use zenoh_plugin_dds.Base.Tests.{Result, ok, err, Bool-cases, Ensures, ==_iff}
use zenoh_plugin_dds.Base.Int.{ℤ, pos, negsuc, eqb_ℤ}
use zenoh_plugin_dds.Base.Text.{Str, str_eq, contains}
use zenoh_plugin_dds.Base.Map.{Map}
use zenoh_plugin_dds.Base.Set.{insert-not_empty, keep_if-not_empty, remove}
use zenoh_plugin_dds.Qos.{Qos}
use zenoh_plugin_dds.World.{External, World, M, Error, perform, create_writer, writer_creation}
use zenoh_plugin_dds.Dds.{
  TypeInfo, is_negative, non_negative, create_topic, created_writer, create_forwarding_dds_writer,
}
use zenoh_plugin_dds.Entity.{DdsEntity, RouteStatus}
use zenoh_plugin_dds.Route.FromDds.{
  RouteDdsZenoh, add_remote_routed_reader, has_remote_routed_reader, add_local_routed_writer,
}
use zenoh_plugin_dds.Route.ToDds.{
  RouteZenohDds, dds_entity_null, set_dds_writer, delete_dds_writer, add_remote_routed_writer,
  remove_remote_routed_writer, has_remote_routed_writer, add_local_routed_reader,
  remove_local_routed_reader, has_local_routed_reader, remove_remote_routed_writers_containing,
}
use zenoh_plugin_dds.Plugin.{AdminRef}
use zenoh_plugin_dds.Plugin.Fwd.{Codec, fwd_release_reader}
use zenoh_plugin_dds.Plugin.Fwd.Remote.{is_matching, add_matching, release_remote_writer}
use zenoh_plugin_dds.Plugin.Fwd.Group.{Leaving, leave_to_dds, admin_subke}
use zenoh_plugin_dds.Plugin.Fwd.Account.{add_matching-dds_writer}

-- #102: the route has a DDS Writer just when it serves remote Writers.
abbrev pub HasWriterIfRouted : RouteZenohDds → Type 0
HasWriterIfRouted r = eqb_ℤ r.dds_writer dds_entity_null ≡ not (has_remote_routed_writer r)

-- The route serves a local Reader or a remote Writer.
pub record IsUsed (r : RouteZenohDds) : Type 0 where
  pub writer : HasWriterIfRouted r
  pub used : (has_local_routed_reader r || has_remote_routed_writer r) ≡ true

abbrev pub HasWriter : RouteZenohDds → Type 0
HasWriter r = eqb_ℤ r.dds_writer dds_entity_null ≡ false

-- DDS gives no writer the handle 0, which stands for no entity.
abbrev pub NeverNull : External → Type 0
NeverNull x = (w : World) (dp t : ℤ) (qos : Qos) → x.answer w (create_writer dp t qos) ≢ pos 0

-- What holds of a result.
abbrev pub Results : {A : Type 0} → (A → Type 0) → Option (Result Error A × World) → Type 0
Results P none = Unit
Results P (some (ok a, w)) = P a
Results P (some (err e, w)) = Unit

pub Results-bind :
    {A B : Type 0} (P : A → Type 0) (Q : B → Type 0) (f : A → M B)
    → ((a : A) (w : World) → P a → Results Q (f a w))
    → (r : Option (Result Error A × World)) → Results P r
    → Results Q
        (elim r [ none ↦ none | some (ok a, w') ↦ f a w' | some (err e, w') ↦ some (err e, w') ])
Results-bind P Q f each none h = tt
Results-bind P Q f each (some (ok a, w)) h = each a w h
Results-bind P Q f each (some (err e, w)) h = tt

pub Results-any : {A : Type 0} (r : Option (Result Error A × World)) → Results (λ _. Unit {0}) r
Results-any none = tt
Results-any (some (ok a, w)) = tt
Results-any (some (err e, w)) = tt

abbrev IsWriter : ℤ → Type 0
IsWriter h = eqb_ℤ h dds_entity_null ≡ false

not_null : (h : ℤ) → h ≢ pos 0 → IsWriter h
not_null (pos n) ne = elim (Bool-cases (eqb_ℤ (pos n) dds_entity_null)) [
  | inl t ↦ absurd (ne (ap pos ((==_iff n 0).0 t)))
  | inr f ↦ f
]
not_null (negsuc n) ne = refl

non_negative-IsWriter :
    (h : ℤ) (w : World) → h ≢ pos 0 → Results IsWriter (non_negative writer_creation h w)
unfolding non_negative
non_negative-IsWriter h w ne = elim (Bool-cases (is_negative h)) [
  | inl t ↦ rw (t, non_negative) tt
  | inr f ↦ rw (f, non_negative) (not_null h ne)
]

module _ (x : External) (nonzero : NeverNull x) (dp : ℤ) where
  created_writer-IsWriter :
      (t : ℤ) (qos : Qos) (w : World) → Results IsWriter (created_writer x dp t qos w)
  unfolding created_writer perform
  created_writer-IsWriter t qos w = non_negative-IsWriter _ _ (nonzero w dp t qos)

  pub set_dds_writer-HasWriter :
      (r : RouteZenohDds) (ti : Option TypeInfo) (qos : Qos) (w : World)
      → Results HasWriter (set_dds_writer x dp r ti qos w)
  unfolding set_dds_writer create_forwarding_dds_writer
  set_dds_writer-HasWriter r ti qos w = elim (Bool-cases (eqb_ℤ r.dds_writer dds_entity_null)) [
    | inr f ↦ rw (f, set_dds_writer) f
    | inl t ↦
        rw (t, set_dds_writer)
          (Results-bind IsWriter HasWriter _ (λ dw w' h. h) _
            (Results-bind (λ _. Unit {0}) IsWriter _ (λ t w' _. created_writer-IsWriter t _ w') _
              (Results-any (create_topic x dp r.topic_name r.topic_type ti r.keyless w))))
  ]

-- Adding matching Readers changes nothing else of the route.
add_matching-remote_routed_writers :
    (ton : Str) (part : Option Str) (status : RouteStatus) (locals : Map DdsEntity)
    (r : RouteZenohDds)
    → (add_matching add_local_routed_reader ton part status locals r).remote_routed_writers
      ≡ r.remote_routed_writers
unfolding add_matching add_local_routed_reader
add_matching-remote_routed_writers ton part status [] r = refl
add_matching-remote_routed_writers ton part status ((k, local) ∷ locals) r =
    elim (Bool-cases (is_matching ton part local)) [
      | inl t ↦
          rw (t, add_matching)
            (add_matching-remote_routed_writers ton part status locals
              (add_local_routed_reader local.key r))
      | inr f ↦ rw (f, add_matching) (add_matching-remote_routed_writers ton part status locals r)
    ]

add_matching-remote_routed_readers :
    (ton : Str) (part : Option Str) (status : RouteStatus) (locals : Map DdsEntity)
    (r : RouteDdsZenoh)
    → (add_matching add_local_routed_writer ton part status locals r).remote_routed_readers
      ≡ r.remote_routed_readers
unfolding add_matching add_local_routed_writer
add_matching-remote_routed_readers ton part status [] r = refl
add_matching-remote_routed_readers ton part status ((k, local) ∷ locals) r =
    elim (Bool-cases (is_matching ton part local)) [
      | inl t ↦
          rw (t, add_matching)
            (add_matching-remote_routed_readers ton part status locals
              (add_local_routed_writer local.key r))
      | inr f ↦ rw (f, add_matching) (add_matching-remote_routed_readers ton part status locals r)
    ]

-- A route that is noted for a remote Writer or for a local Reader is used.
module _ (ke ton : Str) (part : Option Str) (status : RouteStatus) where
  pub noted_writer-IsUsed :
      (locals : Map DdsEntity) (r : RouteZenohDds)
      → HasWriter r
      → IsUsed (
          add_matching add_local_routed_reader ton part status locals
            (add_remote_routed_writer ke r))
  unfolding has_remote_routed_writer add_remote_routed_writer
  noted_writer-IsUsed locals r h = record {
    writer = ground (
      arith,
      h,
      add_matching-dds_writer ton part status locals (add_remote_routed_writer ke r),
      add_matching-remote_routed_writers ton part status locals (add_remote_routed_writer ke r),
      insert-not_empty ke r.remote_routed_writers,
    );
    used = ground (
      arith,
      add_matching-remote_routed_writers ton part status locals (add_remote_routed_writer ke r),
      insert-not_empty ke r.remote_routed_writers,
    );
  }

  pub noted_reader-has_remote :
      (locals : Map DdsEntity) (r : RouteDdsZenoh)
      → has_remote_routed_reader (
          add_matching add_local_routed_writer ton part status locals
            (add_remote_routed_reader ke r))
        ≡ true
  unfolding has_remote_routed_reader add_remote_routed_reader
  noted_reader-has_remote locals r = ground (
    arith,
    add_matching-remote_routed_readers ton part status locals (add_remote_routed_reader ke r),
    insert-not_empty ke r.remote_routed_readers,
  )

pub local_reader-IsUsed :
    (key : Str) (r : RouteZenohDds) → HasWriterIfRouted r → IsUsed (add_local_routed_reader key r)
unfolding has_remote_routed_writer has_local_routed_reader add_local_routed_reader
local_reader-IsUsed key r h = record {
  writer = h;
  used = ground (arith, insert-not_empty key r.local_routed_readers);
}

-- What is kept of a route that is released is used.
module _ (x : External) (c : Codec) where
  pub fwd_release_reader-IsUsed :
      (key k : Str) (r : RouteZenohDds) (t : Map AdminRef × World)
      → IsUsed r
      → Ensures IsUsed (fwd_release_reader x c key k r t).0
  unfolding has_remote_routed_writer remove_local_routed_reader
  fwd_release_reader-IsUsed key k r t i =
      let r' = remove_local_routed_reader key r in
      elim (Bool-cases (not (has_local_routed_reader r') && not (has_remote_routed_writer r'))) [
        | inl y ↦ rw y tt
        | inr f ↦ rw f (record { writer = i.writer; used = ground arith })
      ]

  pub release_remote_writer-IsUsed :
      (ke k : Str) (r : RouteZenohDds) (t : Map AdminRef × World)
      → IsUsed r
      → Ensures IsUsed (release_remote_writer x ke k r t).0
  unfolding has_remote_routed_writer remove_remote_routed_writer delete_dds_writer remove
      has_local_routed_reader
  release_remote_writer-IsUsed ke k r t i =
      let r' = remove_remote_routed_writer ke r in
      elim (Bool-cases (has_remote_routed_writer r')) [
        | inl y ↦ rw y (record {
          writer =
              ground (
                arith,
                i.writer,
                keep_if-not_empty (λ j. not (str_eq j ke)) r.remote_routed_writers,
              );
          used = ground arith;
        })
        | inr f ↦ elim (Bool-cases (has_local_routed_reader (delete_dds_writer x r' t.1).0)) [
          | inl y ↦ rw (f, y) (record { writer = ground arith; used = ground arith })
          | inr g ↦ rw (f, g) tt
        ]
      ]

  pub leave_to_dds-IsUsed :
      (zid k : Str) (r : RouteZenohDds) (t : Leaving)
      → IsUsed r
      → Ensures IsUsed (leave_to_dds x c zid k r t).0
  unfolding has_remote_routed_writer remove_remote_routed_writers_containing
  leave_to_dds-IsUsed zid k r t i =
      let r' = remove_remote_routed_writers_containing (admin_subke x c zid) r in
      elim (Bool-cases (has_remote_routed_writer r')) [
        | inl y ↦ rw y (record {
          writer = ground (
            arith,
            i.writer,
            keep_if-not_empty (λ s. not (contains s (admin_subke x c zid))) r.remote_routed_writers,
          );
          used = ground arith;
        })
        | inr f ↦ rw f tt
      ]
