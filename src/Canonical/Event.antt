-- ===== src/Canonical/Event.antt =====
-- src/canonical/event.rs: the events that every response becomes. `V` is the type of JSON values.
use brazen.Base.{ℕ, Option, Bytes}
use brazen.Canonical.Error.{CanonicalError}
use brazen.Canonical.Usage.{Usage}

-- `Role` of src/canonical/request.rs
pub data Role : Type 0 where
  system user assistant tool : Role

pub data ContentKind (V : Type 0) : Type 0 where
  text : ContentKind V
  tool_use : Bytes → Bytes → ContentKind V
  thinking : Option Bytes → ContentKind V
  redacted_thinking : Bytes → ContentKind V
  image : Bytes → ContentKind V
  server_tool_use : Bytes → Bytes → ContentKind V
  server_tool_result : Bytes → Bytes → V → ContentKind V
  other_kind : V → ContentKind V

pub data Delta (V : Type 0) : Type 0 where
  text_delta json_delta thinking_delta signature_delta : Bytes → Delta V
  encrypted_reasoning_delta image_delta : Bytes → Delta V
  other_delta : V → Delta V

pub data FinishReason : Type 0 where
  stop length tool_use stop_sequence : FinishReason
  refusal : Bytes → Option Bytes → FinishReason
  pause : FinishReason
  other_reason : Bytes → FinishReason

pub data Event (V : Type 0) : Type 0 where
  message_start : ℕ → Option Bytes → Option Bytes → Role → Event V
  content_start : ℕ → ContentKind V → Event V
  content_delta : ℕ → Delta V → Event V
  content_stop : ℕ → Event V
  usage : Usage → Event V
  finish : FinishReason → Event V
  error : CanonicalError V → Event V
  raw : Bytes → Event V
  end other : Event V

abbrev pub event_schema_version : ℕ
event_schema_version = 1

-- `Event::message_start`
abbrev pub opening : {V : Type 0} → Option Bytes → Option Bytes → Role → Event V
opening id model role = message_start event_schema_version id model role
