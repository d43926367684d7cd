-- ===== src/Jv.antt =====
-- Package jv: helpers over slices, Go maps, and the package's own Set, Map and Iter.
pub mod Extrema
pub mod Search
pub mod Select
pub mod Distinct
pub mod Permutations
pub mod Maps
pub mod Collections
mod Tests
