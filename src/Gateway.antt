-- ===== src/Gateway.antt =====
-- pkg/gateway: what the server composes from the other packages.
pub mod Authorization
pub mod SessionPolicy
pub mod SessionConn
pub mod Login
pub mod Operation
