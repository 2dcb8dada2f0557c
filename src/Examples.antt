-- ===== src/Examples.antt =====
-- The results at concrete inputs.
mod Values
mod Wire
mod Stream
mod Choices
mod Commands
mod Configs
mod Dialects
mod Bodies
mod Lines
