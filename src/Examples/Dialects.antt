-- ===== src/Examples/Dialects.antt =====
-- The decoders of the Ollama, Google and OpenAI Responses streams at concrete inputs.
use brazen.Base.{ℕ, Bool, true, false, List, [], ◌∷◌, Option, none, some, Bytes, str, ◌≡◌, refl}
use brazen.Base.Dict.{keys}
use brazen.Canonical.Json.{Json}
use brazen.Examples.Values.{
  Value, json, json-JsonLaws, members, object, string, bool, cons, nil, array, at_key,
}
use brazen.Framing.Frame.{Frame}
use brazen.Protocol.State.{initial, flatten}
use brazen.Protocol.State.Track.{track}
use brazen.Protocol.Google
use brazen.Protocol.Google.Finished.{decode_frame-track, chunk-Ends}
use brazen.Protocol.Ollama
use brazen.Protocol.Ollama.Finished.{line_done}
use brazen.Protocol.Responses
use brazen.Protocol.Responses.Full
use brazen.Protocol.Responses.Full.{decode_full-ends}
use brazen.Protocol.Responses.Tracked.{event-track}

abbrev done_line : Value
done_line = object (
    members (
      (str "message", object (members ((str "content", string (str "hi")) ∷ [])))
      ∷ (str "done", bool true)
      ∷ []))

line_done_example :
    ((Ollama.line (json []) done_line initial).1.opened ≡ [])
    × ((Ollama.line (json []) done_line initial).1.terminated ≡ true)
    × (track (keys (initial {V = Value}).opened) (Ollama.line (json []) done_line initial).2 ≡ [])
unfolding at_key brazen.Examples.Values.get brazen.Examples.Values.lookup str brazen.Base.bytes_eq
line_done_example = line_done (json []) done_line initial refl

-- A text and the finish reason.
abbrev last_google : Value
last_google = object (
    members (
      (
        str "candidates",
        array (
            cons []
              (object (
                members (
                  (
                    str "content",
                    object (
                        members (
                          (
                            str "parts",
                            array (
                                cons [] (object (members ((str "text", string (str "hi")) ∷ [])))
                                  nil),
                          )
                          ∷ [])),
                  )
                  ∷ (str "finishReason", string (str "STOP"))
                  ∷ [])))
              nil),
      )
      ∷ []))

abbrev google : Json
google = json ((str "last", last_google) ∷ [])

abbrev google_frame : Frame
google_frame = record { event = none; data' = str "last"; status = none }

decode_frame-track_example :
    keys (Google.decode_frame google (λ s. s) (λ v. v) google_frame initial).1.opened
    ≡ track
        (keys (initial {V = Value}).opened)
        (flatten (Google.decode_frame google (λ s. s) (λ v. v) google_frame initial).0)
decode_frame-track_example = decode_frame-track google (λ s. s) (λ v. v) google_frame initial

chunk-Ends_example :
    ((Google.chunk google (λ s. s) last_google initial).1.opened ≡ [])
    × ((Google.chunk google (λ s. s) last_google initial).1.terminated ≡ true)
    × (track
          (keys (initial {V = Value}).opened)
          (Google.chunk google (λ s. s) last_google initial).2
        ≡ [])
unfolding at_key brazen.Examples.Values.get brazen.Examples.Values.lookup str brazen.Base.bytes_eq
chunk-Ends_example = chunk-Ends google (λ s. s) last_google initial tt

-- A reasoning item opens.
abbrev item : Value
item = object (
    members (
      (str "type", string (str "response.output_item.added"))
      ∷ (str "item", object (members ((str "type", string (str "reasoning")) ∷ [])))
      ∷ []))

event-track_example :
    keys (Responses.event (json []) item initial).1.opened
    ≡ track (keys (initial {V = Value}).opened) (Responses.event (json []) item initial).2
unfolding at_key brazen.Examples.Values.get brazen.Examples.Values.lookup str brazen.Base.bytes_eq
event-track_example = event-track (json []) item initial refl

-- A complete body with one message of one part.
abbrev whole : Value
whole = object (
    members (
      (
        str "output",
        array (
            cons []
              (object (
                members (
                  (str "type", string (str "message"))
                  ∷ (
                    str "content",
                    array (
                        cons []
                          (object (
                            members (
                              (str "type", string (str "output_text"))
                              ∷ (str "text", string (str "hi"))
                              ∷ [])))
                          nil),
                  )
                  ∷ [])))
              nil),
      )
      ∷ []))

abbrev responses : Json
responses = json ((str "whole", whole) ∷ [])

decode_full-ends_example :
    ((Full.decode_full responses (str "whole") initial).1.opened ≡ [])
    × ((Full.decode_full responses (str "whole") initial).1.terminated ≡ true)
unfolding brazen.Protocol.Access.parse brazen.Examples.Values.find_document str brazen.Base.bytes_eq
decode_full-ends_example =
    decode_full-ends responses (json-JsonLaws ((str "whole", whole) ∷ [])) (str "whole") whole
      initial refl
