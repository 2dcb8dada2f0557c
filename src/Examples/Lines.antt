-- ===== src/Examples/Lines.antt =====
-- The lines of the `claude` program at concrete inputs.
use brazen.Base.{Bool, true, false, List, [], ◌∷◌, ◌++◌, Option, none, some, Bytes, str, ◌≡◌, refl}
use brazen.Base.Result.{ok}
use brazen.Canonical.Event.{Event}
use brazen.Canonical.Json.{Json}
use brazen.Examples.Values.{Value, json, members, object, string, bool}
use brazen.Protocol.ClaudeCode.{and_then, line_frame, decode, decode_full}
use brazen.Protocol.ClaudeCode.Lines.{Verdict, decode_full-append, decode-Verdict}
use brazen.Protocol.State.{initial}

-- The last line of a failed run, and the tag in front of it.
abbrev tagged : Value
tagged = object (
    members (
      (str "type", string (str "assistant"))
      ∷ (str "error", string (str "authentication_failed"))
      ∷ []))

abbrev failed : Value
failed = object (members ((str "type", string (str "result")) ∷ (str "is_error", bool true) ∷ []))

abbrev lines : Json
lines = json ((str "tagged", tagged) ∷ (str "failed", failed) ∷ [])

decode_full-append_example :
    decode_full lines (str "tagged" ++ 10 ∷ str "failed") initial
    ≡ and_then (decode_full lines (str "tagged") initial) (decode_full lines (str "failed"))
decode_full-append_example = decode_full-append lines (str "tagged") (str "failed") initial

decode-Verdict_example :
    ((decode lines (line_frame (str "failed")) initial).1 ≡ record initial { terminated = true })
    × (evs : List (Event Value)) × ((decode lines (line_frame (str "failed")) initial).0 ≡ ok evs)
    × Verdict lines failed initial evs
unfolding brazen.Protocol.Access.parse brazen.Examples.Values.find_document str brazen.Base.bytes_eq
    brazen.Examples.Values.at_key brazen.Examples.Values.get brazen.Examples.Values.lookup
decode-Verdict_example = decode-Verdict lines (str "failed") failed initial refl refl
