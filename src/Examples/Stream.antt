-- ===== src/Examples/Stream.antt =====
-- A response of two frames at every stage.
use brazen.Base.{
  ℕ, Bool, true, false, List, [], ◌∷◌, ◌++◌, Option, none, some, Bytes, str, ◌≡◌, ◌↔◌, refl, inl,
  inr,
}
use brazen.Base.Dict.{keys}
use brazen.Base.Result.{ok}
use brazen.Canonical.Json.{Json}
use brazen.Canonical.Error.{exit_from_status, transport, IoError}
use brazen.Canonical.Event.{Event, end}
use brazen.Framing.Frame.{Frame}
use brazen.Protocol.Anthropic.{decode}
use brazen.Protocol.Anthropic.Full.{anthropic, decode_full}
use brazen.Protocol.Anthropic.Closed.{decode_full-closed}
use brazen.Protocol.Anthropic.Routed.{decode-Routed}
use brazen.Protocol.State.{initial, flatten}
use brazen.Protocol.State.Track.{track}
use brazen.Protocol.State.Route.{Routed}
use brazen.Run.Stream.{new, Core, end_stream}
use brazen.Protocol.Anthropic.{dispatch}
use brazen.Run.Stream.Lazy.{Yields, collect, new-Yields}
use brazen.Run.Stream.Ends.{has_failed_read}
use brazen.Run.Stream.Closed.{Closes, new-Closes}
use brazen.Run.Drive.{Sink, pump, Sent, drive}
use brazen.Run.Drive.Fold.{has_error}
use brazen.Run.Drive.Exits.{Accepts, pump_iff, drive-status}
use brazen.Run.Drive.Broken.{drive-failed_read, drive-cut_stream}
use brazen.Examples.Values.{
  Value, Members, json, json-JsonLaws, members, object, string, number, array, cons, nil,
}

-- The documents `s` and `whole`: a block that starts, and a message of one text.
abbrev start_document : Value
start_document = object (
    members (
      (str "type", string (str "content_block_start"))
      ∷ (str "index", number 0)
      ∷ (str "content_block", object (members ((str "type", string (str "text")) ∷ [])))
      ∷ []))

abbrev whole_document : Value
whole_document = object (
    members (
      (
        str "content",
        array (
            cons []
              (object (
                members ((str "type", string (str "text")) ∷ (str "text", string (str "hi")) ∷ [])))
              nil),
      )
      ∷ (str "stop_reason", string (str "end_turn"))
      ∷ []))

abbrev documents : Json
documents = json ((str "s", start_document) ∷ (str "whole", whole_document) ∷ [])

abbrev start_frame : Frame
start_frame = record { event = none; data' = str "s"; status = none }

decode-Routed_example :
    (keys (decode documents start_frame initial).1.opened
      ≡ track [] (flatten (decode documents start_frame initial).0))
    × Routed [] (flatten (decode documents start_frame initial).0)
unfolding keys
decode-Routed_example = decode-Routed documents start_frame initial

decode_full-closed_example :
    ((decode_full documents (str "whole") initial).1.opened ≡ [])
    × (track [] (flatten (decode_full documents (str "whole") initial).0) ≡ [])
    × Routed [] (flatten (decode_full documents (str "whole") initial).0)
decode_full-closed_example =
    decode_full-closed documents (json-JsonLaws _) (str "whole") initial refl

-- One frame, cut in two, then a read that fails.
abbrev broken_body : List (Option Bytes)
broken_body = some (str "data: s") ∷ some (10 ∷ 10 ∷ []) ∷ none ∷ []

new-Yields_example :
    Yields documents
      (anthropic documents)
      (new documents (anthropic documents) broken_body)
      (collect documents
        (anthropic documents)
        broken_body
        (new documents (anthropic documents) broken_body).core).0
new-Yields_example = new-Yields documents (anthropic documents) broken_body

new-Closes_example :
    Closes []
      (collect documents
        (anthropic documents)
        broken_body
        (new documents (anthropic documents) broken_body).core).0
unfolding has_failed_read
new-Closes_example =
    new-Closes documents (anthropic documents) (λ frame s. (decode-Routed documents frame s).0)
      broken_body (inl refl)

-- A sink that keeps what it is given.
abbrev kept : Sink Value
kept = record { State = List (Event Value); write = λ ev s. (none, s ++ ev ∷ []) }

kept-Accepts : Accepts kept
kept-Accepts ev s = refl

abbrev sent_of : ℕ → List (Option Bytes) → Sent documents
sent_of status body = record {
  proto = anthropic documents;
  resp = record { status = status; retry_after = none; body = body };
  streamed = true;
  hint = none;
  context_window = none;
  fold_thinking = false;
}

pump_iff_example : ((pump kept (end ∷ []) []).0 ≡ 0) ↔ (has_error {V = Value} (end ∷ []) ≡ false)
pump_iff_example = pump_iff kept kept-Accepts (end ∷ []) []

drive-failed_read_example : (drive documents kept (ok (sent_of 200 broken_body)) false []).0 ≡ 69
unfolding has_failed_read
drive-failed_read_example =
    drive-failed_read documents kept kept-Accepts (sent_of 200 broken_body) false [] refl

drive-status_example :
    (drive documents kept (ok (sent_of 429 (some (str "slow down") ∷ []))) false []).0
    ≡ exit_from_status 429
unfolding has_failed_read brazen.Canonical.Error.is_2xx
drive-status_example =
    drive-status documents kept kept-Accepts (sent_of 429 (some (str "slow down") ∷ [])) false []
      refl refl refl

-- The same frame, and no terminal marker behind it.
abbrev cut_body : List (Option Bytes)
cut_body = some (str "data:s" ++ 10 ∷ 10 ∷ []) ∷ []

cut_body_open :
    (collect documents
      (anthropic documents)
      cut_body
      (new documents (anthropic documents) cut_body).core).1.state.terminated
    ≡ false
unfolding has_failed_read brazen.Canonical.Error.is_2xx collect brazen.Run.Stream.finish_body
    brazen.Run.Stream.end_stream brazen.Run.Stream.decode_frames brazen.Run.Stream.finish
    brazen.Run.Stream.feed_chunk brazen.Run.Stream.push brazen.Run.Stream.accumulate_head new
    brazen.Framing.Sse.push brazen.Framing.Sse.strip_bom str brazen.Base.starts_with
    brazen.Framing.Sse.frame_buffer brazen.Framing.Sse.frame_loop brazen.Base.bytes_eq
    brazen.Run.Stream.decode_frame brazen.Framing.Sse.apply_field brazen.Framing.Sse.apply_line
    brazen.Framing.Sse.apply_lines brazen.Framing.Sse.find_frame_end brazen.Framing.Sse.finish
    brazen.Framing.Sse.join brazen.Framing.Sse.or_later brazen.Framing.Sse.parse_block
    brazen.Framing.Sse.split_colon brazen.Framing.Sse.split_on brazen.Framing.Sse.strip_cr
    brazen.Framing.Sse.strip_space brazen.Framing.Sse.terminator flatten brazen.Protocol.State.gets
    brazen.Protocol.State.pure brazen.Protocol.State.◌>>=◌ brazen.Protocol.State.◌>>◌
    brazen.Run.Stream.decoder brazen.Run.Stream.close_open_blocks brazen.Run.Stream.premature_eof
    brazen.Protocol.Synth.drain brazen.Protocol.Synth.stop_blocks brazen.Protocol.State.stop_block
    brazen.Base.Dict.sort keys brazen.Base.Dict.insert_sorted brazen.Base.Dict.remove
    brazen.Base.Dict.insert decode brazen.Protocol.Access.parse brazen.Examples.Values.find_document
    brazen.Protocol.Anthropic.dispatch brazen.Protocol.Access.text_of brazen.Examples.Values.at_key
    brazen.Protocol.Anthropic.Blocks.content_block_start brazen.Protocol.Anthropic.Blocks.start_kind
    brazen.Protocol.Anthropic.Blocks.block_kind brazen.Protocol.State.start_block
cut_body_open = refl

drive-cut_stream_example : (drive documents kept (ok (sent_of 200 cut_body)) false []).0 ≡ 69
unfolding brazen.Canonical.Error.is_2xx
drive-cut_stream_example =
    drive-cut_stream documents kept kept-Accepts (sent_of 200 cut_body) [] refl refl cut_body_open
