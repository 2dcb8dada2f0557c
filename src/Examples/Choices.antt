-- ===== src/Examples/Choices.antt =====
-- The choice of a model, the knobs and the OpenAI decoder at concrete inputs.
use brazen.Base.{
  Bool, true, false, List, [], ◌∷◌, Option, none, some, Bytes, str, ◌≡◌, ◌↔◌, refl, arith,
}
use brazen.Auth.Urlencode.{encode_pairs, query_pairs}
use brazen.Auth.Urlencode.Pairs.{query_pairs-encode_pairs}
use brazen.Base.Dict.{keys}
use brazen.Canonical.Json.{Json}
use brazen.Canonical.Model.{Model, CachedModels, select_model}
use brazen.Canonical.Model.Choice.{Answers, select_model-Answers}
use brazen.Protocol.Openai.{chunk, decode}
use brazen.Protocol.Openai.Finished.{decode-track, chunk_finish}
use brazen.Protocol.State.{initial, flatten}
use brazen.Protocol.State.Track.{track}
use brazen.Examples.Values.{
  Value, json, json-JsonLaws, members, object, string, number, array, cons, nil, at_key,
}

abbrev named : Bytes → Model
named id = record {
  id = id;
  default = false;
  context_window = none;
  max_output_tokens = none;
  display_name = none;
}

-- The first identifier contains the second one.
abbrev cache : CachedModels
cache = record { models = named (str "opus-4-1") ∷ named (str "opus-4") ∷ []; last_used = none }

select_model-Answers_example :
    Answers cache (str "OPUS") (select_model {V = Value} cache (str "OPUS") (str "acme"))
select_model-Answers_example = select_model-Answers Value cache (str "OPUS") (str "acme")

-- A chunk that brings a text and the finish reason.
abbrev last_chunk : Value
last_chunk = object (
    members (
      (
        str "choices",
        array (
            cons []
              (object (
                members (
                  (str "delta", object (members ((str "content", string (str "hi")) ∷ [])))
                  ∷ (str "finish_reason", string (str "stop"))
                  ∷ [])))
              nil),
      )
      ∷ []))

abbrev chunks : Json
chunks = json ((str "last", last_chunk) ∷ [])

decode-track_example :
    keys
      (decode chunks (record { event = none; data' = str "last"; status = none }) initial).1.opened
    ≡ track (keys (initial {V = Value}).opened) (
        flatten
          (decode chunks (record { event = none; data' = str "last"; status = none }) initial).0)
decode-track_example =
    decode-track chunks (record { event = none; data' = str "last"; status = none }) initial

chunk_finish_example :
    ((chunk chunks last_chunk initial).1.opened ≡ [])
    × ((chunk chunks last_chunk initial).1.terminated ≡ true)
    × (track (keys (initial {V = Value}).opened) (chunk chunks last_chunk initial).2 ≡ [])
unfolding at_key brazen.Examples.Values.get brazen.Examples.Values.lookup str brazen.Base.bytes_eq
chunk_finish_example = chunk_finish chunks last_chunk (str "stop") initial refl

-- A space and an ampersand are escaped.
abbrev query : List (Bytes × Bytes)
query = (97 ∷ 32 ∷ [], 38 ∷ []) ∷ ([], 61 ∷ []) ∷ []

query_pairs-encode_pairs_example : query_pairs (encode_pairs query) ≡ query
unfolding brazen.Framing.Utf8.valid
query_pairs-encode_pairs_example = query_pairs-encode_pairs query (
  ((omega arith, (omega arith, tt)), refl),
  ((omega arith, tt), refl),
  ((tt, refl), ((omega arith, tt), refl), tt),
)

-- A body with a typed cap and a typed option, and what is passed through beside them.
abbrev typed : List (Bytes × Value)
typed = (str "n", number 1) ∷ (str "options", object (members ((str "t", number 2) ∷ []))) ∷ []

abbrev passed : List (Bytes × Value)
passed =
    (str "n", number 7)
    ∷ (str "options", object (members ((str "t", number 8) ∷ (str "c", number 9) ∷ [])))
    ∷ []
