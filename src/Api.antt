-- ===== src/Api.antt =====
-- The API (backend/app/api).
pub mod Expr
pub mod Doc
pub mod Session
pub mod Deps
pub mod Users
pub mod Login
pub mod Write
pub mod Synoptics
pub mod History
pub mod Realtime
pub mod Email
pub mod RuleForm
pub mod AlarmRules
pub mod Tree
pub mod PointSettings
pub mod Alarms
