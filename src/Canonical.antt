-- ===== src/Canonical.antt =====
-- The canonical vocabulary: src/canonical/error.rs, src/canonical/event.rs, src/canonical/usage.rs,
-- src/canonical/knobs.rs.
pub mod Json
pub mod Error
pub mod Usage
pub mod Event
pub mod Model
pub mod Request
pub mod Knobs
