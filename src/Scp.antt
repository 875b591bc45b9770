-- ===== src/Scp.antt =====
-- pkg/podssh/backend/helper/scp.go: the scp program that the helper runs in a Pod.
pub mod Wire
pub mod Options
pub mod Header
pub mod Paths
pub mod Sink
pub mod Location
pub mod Source
pub mod Command
pub mod Sent
pub mod Transfer
