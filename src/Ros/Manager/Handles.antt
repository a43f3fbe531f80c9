-- ===== src/Ros/Manager/Handles.antt =====
-- zenoh-plugin-dds/src/ros_discovery.rs, `RosDiscoveryInfoMgr`: the DDS reader and writer that it holds.
use zenoh_plugin_dds.Base.{ℕ, ◌+◌, ◌≡◌, Option, some, arith}
use zenoh_plugin_dds.Base.Tests.{Result, ok}
use zenoh_plugin_dds.Base.Int.{ℤ, pos}
use zenoh_plugin_dds.World.{External, World, Error, run_and_log}
use zenoh_plugin_dds.Dds.{delete_dds_entity}
use zenoh_plugin_dds.Dds.Handles.{created, deleted, is_handle, run_and_log-delete_dds_entity}
use zenoh_plugin_dds.Ros.Info.{RosCodec}
use zenoh_plugin_dds.Ros.Manager.{RosDiscoveryInfoMgr, create_mgr, create_ros_writer, drop_mgr}

-- How many of the manager's two entities have the handle `h`.
abbrev pub mgr_holds : ℤ → RosDiscoveryInfoMgr → ℕ
mgr_holds h mgr = is_handle h mgr.reader + is_handle h mgr.writer

-- What a successful creation has created is what the manager holds, and it has deleted nothing.
abbrev pub Hands : ℤ → World → Option (Result Error RosDiscoveryInfoMgr × World) → Type 0
Hands h w (some (ok mgr, w')) =
    (created h w' ≡ created h w + mgr_holds h mgr) × (deleted h w' ≡ deleted h w)
Hands h w _ = Unit

pub create_mgr-Hands :
    (c : RosCodec) (x : External) (dp : ℤ) (n : ℕ) (w : World)
    → Hands (pos n) w (create_mgr c x dp w)
unfolding create_mgr create_ros_writer created deleted
create_mgr-Hands c x dp n w = ground arith

-- Dropping the manager asks once for the deletion of each of its two entities.
pub drop_mgr-deleted :
    (c : RosCodec) (x : External) (h : ℤ) (mgr : RosDiscoveryInfoMgr) (w : World)
    → (created h (drop_mgr c x mgr w) ≡ created h w)
      × (deleted h (drop_mgr c x mgr w) ≡ mgr_holds h mgr + deleted h w)
unfolding drop_mgr
drop_mgr-deleted c x h mgr w =
    let (c1, d1) = run_and_log-delete_dds_entity x h mgr.reader w in
    let (c2, d2) =
      run_and_log-delete_dds_entity x h mgr.writer
        (run_and_log (delete_dds_entity x mgr.reader) w) in
    (omega (arith, c1, c2), omega (arith, d1, d2))
