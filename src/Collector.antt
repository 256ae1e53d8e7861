-- ===== src/Collector.antt =====
-- The BACnet collector (backend/app/collector).
pub mod Normalizer
pub mod Registry
pub mod Recorder
pub mod Poller
pub mod Writer
pub mod Cov
pub mod ConfigSync
pub mod Discovery
