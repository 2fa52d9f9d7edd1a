-- ===== src/Auth/Laws.antt =====
-- What src/auth/auth.service.ts does, by topic.
pub mod Users
pub mod Otps
pub mod Activation
pub mod Password
pub mod SignIn
pub mod Lockout
pub mod Change
pub mod Handled
pub mod Codes
