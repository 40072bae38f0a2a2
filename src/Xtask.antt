-- ===== src/Xtask.antt =====
-- xtask: the repository's own checks.
pub mod Files
pub mod LeakScan
pub mod SeamScan
pub mod Coverage
pub mod Edges
pub mod Bans
pub mod Registry
pub mod Gate
