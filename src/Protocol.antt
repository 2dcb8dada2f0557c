-- ===== src/Protocol.antt =====
-- The wire dialects: src/protocol/.
pub mod Wire
pub mod Responses
pub mod Calls
pub mod ClaudeCode
pub mod Google
pub mod Ollama
pub mod State
pub mod Access
pub mod Synth
pub mod Anthropic
pub mod Openai
pub mod Models
pub mod Extra
