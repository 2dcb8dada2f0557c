-- ===== src/Run.antt =====
-- src/run/: what happens to a response.
pub mod Stream
pub mod Response
pub mod Drive
