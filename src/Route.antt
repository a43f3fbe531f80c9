-- ===== src/Route.antt =====
-- The two kinds of route of the plugin: route_dds_zenoh.rs and route_zenoh_dds.rs of
-- zenoh-plugin-dds/src.
pub mod FromDds
pub mod ToDds
