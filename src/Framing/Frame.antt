-- ===== src/Framing/Frame.antt =====
-- src/protocol/frame.rs: the frame that every framer produces and every decoder consumes.
use brazen.Base.{ℕ, Option, Bytes}

pub record Frame : Type 0 where
  pub event : Option Bytes
  pub data' : Bytes
  pub status : Option ℕ

-- `Frame::into_bytes`
unfoldable pub into_bytes : Frame → Bytes
into_bytes f = f.data'

pub data Framing : Type 0 where
  sse ndjson identity : Framing
