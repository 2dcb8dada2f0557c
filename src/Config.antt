-- ===== src/Config.antt =====
-- src/config/: the layers of the configuration, their fold, and its resolution.
pub mod Provider
pub mod Partial
pub mod Errors
pub mod Row
pub mod Resolve
pub mod Request
pub mod Ingress
