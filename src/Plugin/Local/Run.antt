-- ===== src/Plugin/Local/Run.antt =====
-- zenoh-plugin-dds/src/lib.rs, `run_local_discovery_mode`: its loop, from the start of the plugin.
use zenoh_plugin_dds.Base.{ℕ, suc, refl, List, [], ◌∷◌, arith, inl, inr}
use zenoh_plugin_dds.Base.Tests.{Option-cases, Ensures, Ensures-bind}
use zenoh_plugin_dds.Base.Int.{ℤ, pos}
use zenoh_plugin_dds.Base.Text.{Str}
use zenoh_plugin_dds.Base.Total.{total}
use zenoh_plugin_dds.World.{External}
use zenoh_plugin_dds.Dds.Handles.{created, deleted}
use zenoh_plugin_dds.Config.{Config}
use zenoh_plugin_dds.Plugin.{Plugin, start}
use zenoh_plugin_dds.Plugin.Account.{IsAccounted, held}
use zenoh_plugin_dds.Plugin.Local.{
  LocalEvent, discovery, new_member, local_run, loop_step, on_new_member,
}
use zenoh_plugin_dds.Plugin.Local.Quiet.{query_new_member-quiet}
use zenoh_plugin_dds.Plugin.Local.Account.{local_step-IsAccounted}

module _ (x : External) (n others : ℕ) where
  abbrev h : ℤ
  h = pos (suc n)

  on_new_member-IsAccounted :
      (zid : Str) (s : Plugin)
      → IsAccounted others h s
      → IsAccounted others h (on_new_member x zid s)
  unfolding on_new_member held
  on_new_member-IsAccounted zid s acc = elim (Option-cases (x.try_into zid)) [
    | inl e ↦ rw (e, on_new_member) acc
    | inr (id, e) ↦
        let (c, d) = query_new_member-quiet x h id s.routes_to_dds s.world in
        rw (e, on_new_member)
          (record {
            balanced = omega (arith, acc.balanced, c, d);
            distinct_from = acc.distinct_from;
            distinct_to = acc.distinct_to;
          })
  ]

  loop_step-IsAccounted :
      (e : LocalEvent) (s : Plugin)
      → IsAccounted others h s
      → Ensures (IsAccounted others h) (loop_step x e s)
  unfolding loop_step
  loop_step-IsAccounted (discovery event) s acc = local_step-IsAccounted x n others event s acc
  loop_step-IsAccounted (new_member zid) s acc = on_new_member-IsAccounted zid s acc

  local_run_from-IsAccounted :
      (events : List LocalEvent) (s : Plugin)
      → IsAccounted others h s
      → Ensures (IsAccounted others h) (local_run x events s)
  unfolding local_run
  local_run_from-IsAccounted [] s acc = acc
  local_run_from-IsAccounted (e ∷ events) s acc =
      Ensures-bind (IsAccounted others h) (IsAccounted others h) (loop_step x e s) _
        (loop_step-IsAccounted e s acc) λ t it. local_run_from-IsAccounted events t it

module _ (x : External) (n : ℕ) where
  -- From the start of the plugin, whatever is discovered or joins, and whatever DDS and zenoh
  -- answer: the creations of a DDS reader or writer with a given positive handle are as many as
  -- the requests to delete it and the routes that hold it together, in the state after the events,
  -- if none of them panics.
  pub local_run-IsAccounted :
      (config : Config) (zid : Str) (dp : ℤ) (events : List LocalEvent)
      → Ensures (IsAccounted 0 (pos (suc n))) (local_run x events (start config zid dp []))
  unfolding start held created deleted total
  local_run-IsAccounted config zid dp events =
      local_run_from-IsAccounted x n 0 events (start config zid dp [])
        (record { balanced = refl; distinct_from = tt; distinct_to = tt })
