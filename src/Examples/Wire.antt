-- ===== src/Examples/Wire.antt =====
-- The framers, the errors and the counters at concrete inputs.
use brazen.Base.{List, [], ◌∷◌, ◌++◌, some, Bytes, str, ◌≡◌, refl, arith}
use brazen.Canonical.Error.{provider}
use brazen.Canonical.Error.Wire.{serialize, deserialize, deserialize-serialize}
use brazen.Canonical.Usage.{Usage, no_usage}
use mathlib.Core.List.{flatten}
use brazen.Framing.Sse.{decode_stream, feed, new}
use brazen.Framing.Sse.Chunks.{decode_stream-flatten, feed-HasBlankLine}
use brazen.Framing.Sse.Blank.{HasBlankLine}
use brazen.Framing.Lines.{decode_lines}
use brazen.Framing.Lines.Chunks.{decode_lines-flatten}
use brazen.Framing.Utf8.{from_utf8_lossy, from_utf8_lossy-IsUtf8}
use brazen.Examples.Values.{json, json-JsonLaws}

-- Two events, the blank line of the first one cut in two.
abbrev event_chunks : List Bytes
event_chunks =
    (str "event: a" ++ 10 ∷ str "data: 1" ++ 13 ∷ 10 ∷ 13 ∷ []) ∷ (10 ∷ str "data: 2") ∷ []

decode_stream-flatten_example :
    decode_stream event_chunks ≡ decode_stream (flatten event_chunks ∷ [])
decode_stream-flatten_example = decode_stream-flatten event_chunks

decode_lines-flatten_example : decode_lines event_chunks ≡ decode_lines (flatten event_chunks ∷ [])
decode_lines-flatten_example = decode_lines-flatten event_chunks

-- `é`
from_utf8_lossy-IsUtf8_example : from_utf8_lossy (195 ∷ 169 ∷ []) ≡ 195 ∷ 169 ∷ []
unfolding brazen.Framing.Utf8.valid
from_utf8_lossy-IsUtf8_example = from_utf8_lossy-IsUtf8 (195 ∷ 169 ∷ []) refl

deserialize-serialize_example :
    deserialize (json []) (serialize (json []) (provider 529)) ≡ provider 529
deserialize-serialize_example =
    deserialize-serialize (json []) (json-JsonLaws []) (provider 529) (omega arith)

abbrev counters : Usage
counters = record no_usage {
  input_tokens = some 10;
  output_tokens = some 7;
  cache_read_tokens = some 2;
  cache_write_tokens = some 1;
}

feed-HasBlankLine_example : ¬ HasBlankLine (feed new event_chunks).1.buf
feed-HasBlankLine_example = feed-HasBlankLine event_chunks
