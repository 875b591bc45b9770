-- ===== src/PodSsh.antt =====
-- pkg/podssh: the SSH sessions and forwards that end in a Pod.
pub mod Forwards
pub mod Session
pub mod Launch
