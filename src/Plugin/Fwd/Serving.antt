-- ===== src/Plugin/Fwd/Serving.antt =====
-- zenoh-plugin-dds/src/lib.rs, `run_fwd_discovery_mode`: no event leaves a route that serves nobody, or a
-- DDS Writer that no remote Writer needs.
use zenoh_plugin_dds.Base.{sym, subst, Option, none, some, inl, inr}
use zenoh_plugin_dds.Base.Tests.{Option-cases, Ensures, Ensures-mono}
use zenoh_plugin_dds.Base.Text.{Str}
use zenoh_plugin_dds.Base.Map.{Map}
use zenoh_plugin_dds.Base.Map
use zenoh_plugin_dds.Base.All.{All, At, All-modify, All-absent}
use zenoh_plugin_dds.Qos.{Qos}
use zenoh_plugin_dds.World.{External}
use zenoh_plugin_dds.Entity.{RouteStatus, routed, not_allowed, creation_failure, qos_conflict}
use zenoh_plugin_dds.Route.ToDds.{add_local_routed_reader}
use zenoh_plugin_dds.Plugin.{Plugin, remove_dds_participant, remove_dds_writer, remove_dds_reader}
use zenoh_plugin_dds.Plugin.Removals.{
  SameRoutes, remove_dds_participant-SameRoutes, remove_dds_writer-SameRoutes,
  remove_dds_reader-SameRoutes,
}
use zenoh_plugin_dds.Plugin.Local.{note_reader}
use zenoh_plugin_dds.Plugin.Fwd.Remote.{note_remote_writer, note_remote_reader}
use zenoh_plugin_dds.Plugin.Fwd.Writers.{
  IsUsed, HasWriter, noted_writer-IsUsed, noted_reader-has_remote, local_reader-IsUsed,
}
use zenoh_plugin_dds.Plugin.Fwd.Used.{AreUsed, ServesReader, AfterTo, AfterFrom, Needed}

pub note_reader-AreUsed :
    (ke key : Str) (status : RouteStatus) (s : Plugin)
    → AfterTo ke none (status, s)
    → AreUsed (note_reader key status s)
note_reader-AreUsed ke key (routed k) s (same, to, from) = record {
  to_dds =
      All-modify k (Needed none) IsUsed (add_local_routed_reader key) s.routes_to_dds
        (local_reader-IsUsed key)
        (subst (λ k. All (At k (Needed none) IsUsed) s.routes_to_dds) (sym same) to);
  from_dds = from;
}
note_reader-AreUsed ke key not_allowed s i = i
note_reader-AreUsed ke key (creation_failure e) s i = i
note_reader-AreUsed ke key qos_conflict s i = i

module _ (x : External) (key ke ton : Str) (part : Option Str) where
  pub note_remote_writer-AreUsed :
      (qos : Qos) (status : RouteStatus) (s : Plugin)
      → AfterTo key (some qos) (status, s)
      → AreUsed (note_remote_writer x ke ton part status s)
  note_remote_writer-AreUsed qos (routed k) s (same, to, from) =
      let here : All (At k HasWriter IsUsed) s.routes_to_dds =
        subst (λ k. All (At k HasWriter IsUsed) s.routes_to_dds) (sym same) to in
      elim (Option-cases (Map.get k s.routes_to_dds)) [
        | inl e ↦
            rw (e, note_remote_writer)
              (record {
                to_dds = All-absent k HasWriter IsUsed s.routes_to_dds e here;
                from_dds = from;
              })
        | inr (r, e) ↦
            rw (e, note_remote_writer)
              (record {
                to_dds =
                    All-modify k HasWriter IsUsed _ s.routes_to_dds
                      (noted_writer-IsUsed ke ton part (routed k) s.discovered_readers) here;
                from_dds = from;
              })
      ]
  note_remote_writer-AreUsed qos not_allowed s i = i
  note_remote_writer-AreUsed qos (creation_failure e) s i = i
  note_remote_writer-AreUsed qos qos_conflict s i = i

  pub note_remote_reader-AreUsed :
      (status : RouteStatus) (s : Plugin)
      → AfterFrom key (status, s)
      → AreUsed (note_remote_reader x ke ton part status s)
  note_remote_reader-AreUsed (routed k) s (same, from, to) =
      let here : All (At k (λ r. Unit) ServesReader) s.routes_from_dds =
        subst (λ k. All (At k (λ r. Unit) ServesReader) s.routes_from_dds) (sym same) from in
      elim (Option-cases (Map.get k s.routes_from_dds)) [
        | inl e ↦
            rw (e, note_remote_reader)
              (record {
                to_dds = to;
                from_dds = All-absent k (λ r. Unit) ServesReader s.routes_from_dds e here;
              })
        | inr (r, e) ↦
            rw (e, note_remote_reader)
              (record {
                to_dds = to;
                from_dds =
                    All-modify k (λ r. Unit) ServesReader _ s.routes_from_dds
                      (λ r _. noted_reader-has_remote ke ton part (routed k) s.discovered_writers r)
                      here;
              })
      ]
  note_remote_reader-AreUsed not_allowed s i = i
  note_remote_reader-AreUsed (creation_failure e) s i = i
  note_remote_reader-AreUsed qos_conflict s i = i

SameRoutes-AreUsed : (s t : Plugin) → AreUsed s → SameRoutes s t → AreUsed t
SameRoutes-AreUsed s t i (to, from) = record {
  to_dds = subst (All (λ k. IsUsed)) to i.to_dds;
  from_dds = subst (All (λ k. ServesReader)) from i.from_dds;
}

module _ (x : External) (key : Str) (s : Plugin) (i : AreUsed s) where
  pub remove_dds_participant-AreUsed : Ensures (λ t. AreUsed t.1) (remove_dds_participant x key s)
  remove_dds_participant-AreUsed =
      Ensures-mono (λ t. SameRoutes s t.1) (λ t. AreUsed t.1) (remove_dds_participant x key s)
        (remove_dds_participant-SameRoutes x key s) λ t. SameRoutes-AreUsed s t.1 i

  pub remove_dds_writer-AreUsed : Ensures (λ t. AreUsed t.1) (remove_dds_writer x key s)
  remove_dds_writer-AreUsed =
      Ensures-mono (λ t. SameRoutes s t.1) (λ t. AreUsed t.1) (remove_dds_writer x key s)
        (remove_dds_writer-SameRoutes x key s) λ t. SameRoutes-AreUsed s t.1 i

  pub remove_dds_reader-AreUsed : Ensures (λ t. AreUsed t.1) (remove_dds_reader x key s)
  remove_dds_reader-AreUsed =
      Ensures-mono (λ t. SameRoutes s t.1) (λ t. AreUsed t.1) (remove_dds_reader x key s)
        (remove_dds_reader-SameRoutes x key s) λ t. SameRoutes-AreUsed s t.1 i
