-- ===== src/Alarms.antt =====
-- The alarm service (backend/app/alarms).
pub mod Machine
pub mod Rules
pub mod Records
pub mod Store
pub mod Runtime
pub mod Engine
pub mod Notifier
pub mod Commands
