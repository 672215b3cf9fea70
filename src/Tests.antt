-- ===== src/Tests.antt =====
-- Runs of the definitions on small inputs, after the unit tests of the sources where these have
-- one, and the theorems at concrete data.
pub mod Memory
pub mod Vfs
pub mod Listings
pub mod Names
pub mod Hooks
pub mod Changes
pub mod Drops
pub mod Pages
