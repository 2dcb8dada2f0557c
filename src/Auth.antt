-- ===== src/Auth.antt =====
-- src/auth/: the parts that need no network.
pub mod Urlencode
pub mod Credentials
