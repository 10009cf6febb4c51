-- ===== src/Mirror.antt =====
-- internal/mirror: the engine that keeps the sync folder and Proton Drive in agreement.
pub mod Disk
pub mod World
pub mod Guards
pub mod Scan
pub mod Keep
pub mod Pull
pub mod Push
mod Tests
