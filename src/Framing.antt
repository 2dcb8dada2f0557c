-- ===== src/Framing.antt =====
-- The framing layer: src/protocol/frame.rs and src/protocol/sse.rs.
pub mod Frame
pub mod Peel
pub mod Utf8
pub mod Sse
pub mod Lines
