-- ===== src/Console.antt =====
-- src/console/
pub mod Input
pub mod Menu
pub mod SnapshotClient
pub mod App
pub mod Agreement
pub mod OverTcp
