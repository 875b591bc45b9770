-- ===== src/Audit.antt =====
-- pkg/audit: the events that the gateway records, and the recorder that writes them in the background.
pub mod Event
pub mod Recorder
