-- ===== src/Examples.antt =====
-- A concrete database for the tests and the witnesses, and the witnesses.
pub mod Sorting
pub mod Database
pub mod InEighths
pub mod Documents
pub mod Tenths
pub mod Witnesses
pub mod MoreWitnesses
