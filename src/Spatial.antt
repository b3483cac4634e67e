-- ===== src/Spatial.antt =====
-- src/geofence/spatial_node: the geofence map, its spatial index, and the operations on them.
pub mod Shapes
pub mod Index
pub mod Pool
pub mod Geofence
pub mod Batch
pub mod Service
mod Tests
