-- ===== src/Examples/Bodies.antt =====
-- Complete bodies of the OpenAI chat dialect.
use brazen.Base.{List, [], ◌∷◌, none, Bytes, str, ◌≡◌, refl}
use brazen.Canonical.Json.{Json}
use brazen.Examples.Values.{
  Value, null, json, json-JsonLaws, members, object, string, array, cons, nil,
}
use brazen.Protocol.Openai.Full.{decode_full, Ends, decode_full-Ends, decode_full-panics}
use brazen.Protocol.State.{initial}

-- A call that is an object, and a string.
abbrev call : Value
call = object (members ((str "id", string (str "a")) ∷ []))

abbrev body_with : Value → Value
body_with message = object (
    members (
      (str "choices", array (cons [] (object (members ((str "message", message) ∷ []))) nil)) ∷ []))

-- A text and a finish reason.
abbrev last_message : Value
last_message = object (members ((str "content", string (str "hi")) ∷ []))

abbrev last_body : Value
last_body = object (
    members (
      (
        str "choices",
        array (
            cons []
              (object (
                members (
                  (str "message", last_message) ∷ (str "finish_reason", string (str "stop")) ∷ [])))
              nil),
      )
      ∷ []))

abbrev table : List (Bytes × Value)
table =
    (
      str "two",
      body_with (
          object (
            members
              ((str "tool_calls", array (cons [] call (cons [] (string (str "b")) nil))) ∷ []))),
    )
    ∷ (str "last", last_body)
    ∷ []

abbrev bodies : Json
bodies = json table

decode_full-panics_example : decode_full bodies (str "two") initial ≡ none
unfolding brazen.Protocol.Access.parse brazen.Examples.Values.find_document str brazen.Base.bytes_eq
    brazen.Examples.Values.at_key brazen.Examples.Values.get brazen.Examples.Values.lookup
decode_full-panics_example =
    decode_full-panics bodies (json-JsonLaws table) (str "two")
      (body_with (
        object (
          members
            ((str "tool_calls", array (cons [] call (cons [] (string (str "b")) nil))) ∷ []))))
      (call ∷ []) (str "b") [] initial refl refl

abbrev last_delta : Value
last_delta = object (
    members (
      (str "reasoning_content", null)
      ∷ (str "content", string (str "hi"))
      ∷ (str "refusal", null)
      ∷ (str "tool_calls", array nil)
      ∷ []))

decode_full-Ends_example : Ends bodies initial (decode_full bodies (str "last") initial)
unfolding brazen.Protocol.Access.parse brazen.Examples.Values.find_document str brazen.Base.bytes_eq
    brazen.Examples.Values.at_key brazen.Examples.Values.get brazen.Examples.Values.lookup
    brazen.Protocol.Openai.Full.as_delta brazen.Protocol.Openai.Full.with_indices
decode_full-Ends_example =
    decode_full-Ends bodies (json-JsonLaws table) (str "last") last_body last_delta (str "stop")
      initial refl refl refl
