-- ===== src/Auth.antt =====
-- src/modules/auth and src/common/guards: sign-in, sessions, and who may call what.
pub mod Jwt
pub mod Guards
pub mod Database
pub mod Tokens
pub mod Password
pub mod Login
pub mod Cleanup
pub mod Session
pub mod Register
mod Tests
