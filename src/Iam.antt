-- ===== src/Iam.antt =====
-- iam/: the one-time codes of the client login, and the keys of platform services.
pub mod Otp
pub mod Platform
pub mod Tests
