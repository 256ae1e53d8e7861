-- ===== src/Auth.antt =====
-- Accounts (backend/app/auth).
pub mod Permissions
pub mod Lockout
pub mod Tokens
