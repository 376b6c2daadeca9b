-- ===== src/Auth.antt =====
-- app/modules/auth/: refresh tokens and one-time codes.
pub mod Tokens
pub mod Login
pub mod Codes
mod Tests
