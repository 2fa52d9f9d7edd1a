-- ===== src/Auth.antt =====
-- Accounts and codes: src/auth/auth.service.ts.
pub mod Data
pub mod Otps
pub mod SignIn
pub mod Codes
pub mod SignUp
pub mod Laws
mod Tests
