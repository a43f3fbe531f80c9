-- ===== src/Lib.antt =====
-- The DDS plugin of zenoh (crate zenoh-plugin-dds). The plugin watches what DDS discovers, and
-- creates routes: a DDS Reader whose data is published on a zenoh key, or a zenoh subscriber whose
-- data is written by a DDS Writer. It answers queries on its admin space, and in the forward mode
-- exchanges the discovery of entities, and the ROS graph, with the plugins of other hosts.
--
-- The files, and the code they are about (paths from the root of the repository):
--   Base      helpers: options and results, signed integers, text as bytes, and the maps and sets of
--             Rust's standard library as association lists and lists
--   World     everything outside of the plugin: DDS (crate cyclors), zenoh, regular expressions. A
--             call is recorded with its return code; the codes are an unknown function of the calls
--             made before, so that every failure of DDS and zenoh is possible at every call
--   Qos       zenoh-plugin-dds/src/qos_helpers.rs, and the adapt_* functions of lib.rs beside it
--   Dds       zenoh-plugin-dds/src/dds_mgt.rs: topics, readers and writers created and deleted.
--             Dds/Handles counts the creations and deletions of a handle, Dds/Matching states when
--             the QoS of two endpoints match. Dds/Discovery is the callback on_data, Dds/Samples the
--             samples taken from DDS and the loops that put them on a key
--   Entity    the entities and events of discovery, of dds_mgt.rs
--   Keyexpr   lib.rs: the keys of the admin space, of topics, and of forwarded discovery messages,
--             with the function that parses those
--   Config    zenoh-plugin-dds/src/config.rs: the configuration, its filters and read periods, and
--             in Config/Parse the visitors of its fields; Config/Published is the configuration
--             that lib.rs publishes
--   Route     FromDds is route_dds_zenoh.rs, ToDds is route_zenoh_dds.rs: the life of a route.
--             Route/ToDds/Deliver is the callback of the subscriber
--   Plugin    lib.rs, DdsPluginRuntime: its maps and the creation of routes. Plugin/Admin is the
--             admin space and what its queries find, Plugin/Local the handlers and the loop of
--             run_local_discovery_mode, Plugin/Remap the function remap_entities_info. Plugin/Fwd
--             are the handlers of run_fwd_discovery_mode: of what DDS discovers (Fwd), of the
--             messages about remote entities (Fwd/Remote), of plugins that come and go and of
--             ros_discovery_info (Fwd/Group), and the loop (Fwd/Loop). Fwd/Preserves is the interface
--             that an invariant of the loop fills, Fwd/Keeps carries it through the loop; it is
--             filled in Fwd/Leaks, Fwd/Served and Fwd/Reached
--   Ros       zenoh-plugin-dds/src/ros_discovery.rs: the ROS graph, its wire form and bytes
--             (Ros/Info), and the reader and writer of ros_discovery_info (Ros/Manager)
--   Tests     a concrete DDS and zenoh, and the theorems applied to it
--
-- The methods of DdsPluginRuntime and of the routes keep their names, in snake case; a method that
-- changes its receiver returns the new one. `RouteDDSZenoh` is `RouteDdsZenoh`, `RouteZenohDDS` is
-- `RouteZenohDds`, `DdsPluginRuntime` is `Plugin`. A result `Result<_, String>` is ok or err with a
-- constructor for each message; a panic (`unwrap` on a name that is no key expression, or that holds
-- a zero byte) is `none`.
-- The select! of a loop takes one event after another, so a run is a list of events.
--
-- Machine integers: DDS handles and depths are ℤ; the product of two `i32` is checked against 31
-- bits and read as a `usize` of 64 bits; saturating_add stops at the largest `i64`. The only fuel
-- is that of the `while` loops of remap_entities_info: one round more than there are gids is enough
-- if each serving route has a gid, and no fuel is enough if one has none.
--
-- In the forward mode a message of another plugin is a key with a payload or a deletion; bincode and
-- the crate cdr are parameters (Codec, RosCodec). The callbacks of DDS get the samples as the fields
-- that the sources read of them. A subscriber's callback may find any Writer at each of its loads.
--
-- Not modelled: the creation of the readers of the builtin topics (run_discovery), the declarations of
-- keys, subscribers and queryables before a loop starts, and the JSON text of values; the memory that
-- is handed to the C library; logging, the async runtime, and the executable in zenoh-bridge-dds.
pub mod Base
pub mod Qos
pub mod World
pub mod Dds
pub mod Entity
pub mod Keyexpr
pub mod Config
pub mod Route
pub mod Plugin
pub mod Ros
pub mod Tests
