-- ===== src/Canonical/Request.antt =====
-- src/canonical/request.rs: the request in the canonical form. `V` is the type of JSON values and
-- `F` that of the 32-bit floats.
use brazen.Base.{Bool, List, Option, Bytes, ℕ}
use brazen.Canonical.Knobs.{ReasoningEffort, ServiceTier}

pub data Role : Type 0 where
  system user assistant tool : Role

-- Base64 data with its media type, or an address.
pub data ImageSource : Type 0 where
  base64 : Bytes → Bytes → ImageSource
  url : Bytes → ImageSource

pub data DocumentSource : Type 0 where
  base64 : Bytes → Bytes → DocumentSource
  url : Bytes → DocumentSource

-- A content part, and a `Vec` of them.
mutual
  pub data Content (V : Type 0) : Type 0 where
    text : Bytes → Content V
    image : ImageSource → Content V
    document : DocumentSource → Content V
    -- the identifier, the name, the input and the signature
    tool_use : Bytes → Bytes → V → Option Bytes → Content V
    tool_result : Bytes → Contents V → Bool → Content V
    thinking : Bytes → Option Bytes → Option Bytes → Option Bytes → Content V
    redacted_thinking : Bytes → Content V
    server_tool_use : Bytes → Bytes → V → Content V
    server_tool_result : Bytes → Bytes → V → Content V

  pub data Contents (V : Type 0) : Type 0 where
    nil : Contents V
    cons : Content V → Contents V → Contents V

pub record Message (V : Type 0) : Type 0 where
  pub role : Role
  pub content : Contents V

pub data Tool (V : Type 0) : Type 0 where
  custom : Bytes → Option Bytes → V → Option Bool → Tool V
  provider : Bytes → Bytes → List (Bytes × V) → Tool V

pub data ToolChoice : Type 0 where
  auto any : ToolChoice
  tool : Bytes → ToolChoice
  no_tool : ToolChoice

-- `OutputFormat` of src/canonical/knobs.rs: the name, the schema and whether it is strict.
pub data OutputFormat (V : Type 0) : Type 0 where
  json : OutputFormat V
  json_schema : Option Bytes → V → Option Bool → OutputFormat V

pub record CanonicalRequest (V F : Type 0) : Type 0 where
  pub model : Bytes
  pub system : Option (Contents V)
  pub messages : List (Message V)
  pub tools : List (Tool V)
  pub tool_choice : ToolChoice
  pub parallel_tool_calls : Option Bool
  pub max_tokens : Option ℕ
  pub temperature : Option F
  pub top_p : Option F
  pub reasoning : Option ReasoningEffort
  pub stop : List Bytes
  pub stream : Option Bool
  pub output : Option (OutputFormat V)
  pub service_tier : Option ServiceTier
  pub cache_key : Option Bytes
  pub image : Option Bool
  pub extra : List (Bytes × V)
