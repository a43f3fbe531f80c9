-- ===== src/Plugin/Returns.antt =====
-- zenoh-plugin-dds/src/lib.rs: routes are created without a panic, and their creation leaves what has
-- been discovered as it was.
use zenoh_plugin_dds.Base.{ℕ, ◌≡◌, refl, Bool, Option, none, some, List, [], ◌∷◌, inl, inr}
use zenoh_plugin_dds.Base.Tests.{ok, Bool-cases}
use zenoh_plugin_dds.Base.Int.{ℤ, eqb_ℤ}
use zenoh_plugin_dds.Base.Text.{Str}
use zenoh_plugin_dds.Qos.{Qos, is_transient_local}
use zenoh_plugin_dds.World.{External, CongestionControl, lift, perform, perform_or}
use zenoh_plugin_dds.Dds.{TypeInfo}
use zenoh_plugin_dds.Dds.Returns.{
  Returns, IsCString, Returns-bind, Returns-if, Returns-pure, create_forwarding_dds_reader-Returns,
  create_forwarding_dds_writer-Returns,
}
use zenoh_plugin_dds.Config.{Config, get_read_period, read_period_in}
use zenoh_plugin_dds.Route.FromDds.{
  RouteDdsZenoh, new_publisher, new_declared, new_with_publisher, new_with_reader,
}
use zenoh_plugin_dds.Route.FromDds
use zenoh_plugin_dds.Route.ToDds.{RouteZenohDds, set_dds_writer, new_subscriber, dds_entity_null}
use zenoh_plugin_dds.Route.ToDds

-- The names of the topic and of its type hold no zero byte.
abbrev pub HasCNames : RouteZenohDds → Type 0
HasCNames r = IsCString r.topic_name × IsCString r.topic_type

module _ (x : External) where
  -- Every configured frequency has a period.
  abbrev pub HasPeriods : List (Str × ℕ) → Type 0
  HasPeriods [] = Unit
  HasPeriods ((re, freq) ∷ rest) =
      ((period : ℕ) × (x.period_of freq ≡ some period)) × HasPeriods rest

  read_period_in-returns :
      (fs : List (Str × ℕ)) (ke : Str)
      → HasPeriods fs
      → (p : Option ℕ) × (read_period_in x fs ke ≡ some p)
  unfolding read_period_in
  read_period_in-returns [] ke h = (none, refl)
  read_period_in-returns ((re, freq) ∷ fs) ke ((period, e), h) =
      elim (Bool-cases (x.is_match re ke)) [
        | inl t ↦ (some period, rw (t, e, read_period_in) refl)
        | inr f ↦ let (p, g) = read_period_in-returns fs ke h in (p, rw (f, read_period_in) g)
      ]

  module _ (dp : ℤ) (zid : Str) (config : Config) (periods : HasPeriods config.max_frequencies)
      (ton tyn : Str) (ti : Option TypeInfo) (keyless : Bool) (qos : Qos) (ke : Str)
      (cc : CongestionControl) (cton : IsCString ton) (ctyn : IsCString tyn) where
    new_publisher-Returns : Returns (new_publisher x zid ke keyless qos)
    unfolding new_publisher perform perform_or
    new_publisher-Returns =
        Returns-if (is_transient_local qos) _ _
          (Returns-bind _ _ (λ w. (_, refl)) λ _. Returns-pure _) (λ w. (_, refl))

    lifted : {A : Type 0} (o : Option A) (a : A) → o ≡ some a → Returns (lift o)
    lifted o a e w = ((ok a, w), rw e refl)

    pub from_dds_new-Returns : Returns (FromDds.new x dp zid config ton tyn ti keyless qos ke cc)
    unfolding FromDds.new new_declared new_with_publisher new_with_reader perform_or get_read_period
    from_dds_new-Returns =
        Returns-bind _ _ (λ w. (_, refl))
          λ _. Returns-bind (new_publisher x zid ke keyless qos) _ new_publisher-Returns λ p.
            let (period, e) = read_period_in-returns config.max_frequencies ke periods in
            Returns-bind (lift (get_read_period x config ke)) _ (lifted _ period e) λ period'.
              Returns-bind _ _
                (create_forwarding_dds_reader-Returns x dp tyn ti keyless qos _ period' cton ctyn)
                λ r. Returns-pure _

  pub to_dds_new-Returns :
      (ke : Str) (querying : Bool) (ton tyn : Str) (keyless : Bool)
      → Returns (ToDds.new x ke querying ton tyn keyless)
  unfolding ToDds.new new_subscriber perform_or
  to_dds_new-Returns ke querying ton tyn keyless =
      Returns-bind (new_subscriber x ke querying) _
        (Returns-if querying _ _ (Returns-bind _ _ (λ w. (_, refl)) λ _. Returns-pure _)
          (Returns-bind _ _ (λ w. (_, refl)) λ _. Returns-pure _))
        λ z. Returns-pure _

  pub set_dds_writer-Returns :
      (dp : ℤ) (r : RouteZenohDds) (ti : Option TypeInfo) (qos : Qos)
      → HasCNames r
      → Returns (set_dds_writer x dp r ti qos)
  unfolding set_dds_writer
  set_dds_writer-Returns dp r ti qos names =
      Returns-if (eqb_ℤ r.dds_writer dds_entity_null) _ _
        (Returns-bind _ _
          (create_forwarding_dds_writer-Returns x dp r.topic_name r.topic_type ti r.keyless qos
            names.0 names.1)
          λ dw. Returns-pure _)
        (Returns-pure r)
