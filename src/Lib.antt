-- ===== src/Lib.antt =====
-- brazen is a client of language-model providers: it encodes a canonical request in a provider's
-- dialect, sends it, and turns the response into one stream of canonical events, which a sink writes
-- out and from which the exit code is computed. This library models the command line and the
-- configuration, up to the request that is encoded, the response half, from the bytes of a response
-- body to the exit code, and the canonical types on the way.
--
-- The parts, and the files that model them (paths from the repository's root):
--
-- - src/protocol/frame.rs, sse.rs: the framers cut a body into frames. Framing/Frame (`Frame`,
--   `Framing`), Framing/Sse (`SseDecoder`: `push`, `finish`, `strip_bom`, `find_frame_end`,
--   `parse_block`), Framing/Lines (`NdjsonDecoder`, `IdentityDecoder`), Framing/Utf8 (the lossy
--   conversion of the standard library). Framing/Peel is the view that both framers share: cut pieces
--   off a buffer while a boundary is found.
-- - src/canonical/: Canonical/Error (`ErrorKind`, `CanonicalError`, `ExitClass` and the tables between
--   kinds, HTTP statuses and exit codes; Canonical/Error/Wire is its serde form), Canonical/Usage
--   (token counters; also `merge_usage` of src/ingress/anthropic_messages/acc.rs), Canonical/Event (the
--   events), Canonical/Model (`select_model`), Canonical/Knobs (reasoning effort and service tier).
-- - src/cli/: Cli (`Flags`, `Route`), Cli/Arms (the flags and what each sets), Cli/Parse (`parse_args`
--   and `route`). The cursor into the words is the list of the words that are left.
-- - src/config/: Config/Partial (the layers, `PartialConfig::or`, `merge_providers`), Config/Provider
--   (the row and its parts, also those of src/auth/oauth_row.rs and src/store/ambient.rs), Config/Row
--   (`complete`, the generation scalars of a row), Config/Resolve (`into_resolved`, `route`, `routable`),
--   Config/Ingress (`resolve_ingress`), Config/Request (`fill_absent`, `lead_with_preamble`,
--   `strip_unsupported`, `couple_budget`, and their composition in src/run/generate.rs),
--   Config/Errors. The layers of a run are folded by `or_config`; the command line is one of them.
-- - src/canonical/request.rs: Canonical/Request. src/protocol/wire.rs: Protocol/Wire.
-- - src/auth/mod.rs: Auth/Credentials, the credential of a request that carries a key or a token.
-- - src/auth/urlencode.rs: Auth/Urlencode, the form codec of the OAuth requests.
-- - src/protocol/frame.rs, mod.rs, json.rs, synth.rs: Protocol/State (`DecodeState`, the response half
--   of the trait `Protocol`, and the actions by which decoders change the state and push events),
--   Protocol/Access (reading JSON, error bodies), Protocol/Models (model lists, counts),
--   Protocol/Extra (`fold_extra`), Protocol/Synth (`open_lazy`, `drain`).
-- - src/protocol/anthropic/decode/ and openai/decode/: Protocol/Anthropic and Protocol/Openai, with a
--   file for the blocks, the errors and the messages each.
-- - src/protocol/google_genai/decode/, ollama_chat/decode/, openai_responses/decode/: Protocol/Google,
--   Protocol/Ollama, Protocol/Responses, Protocol/ClaudeCode (the lines of the `claude`
--   program), and Protocol/Calls for what the first two share.
-- - src/run/events/stream.rs: Run/Stream, the pull iterator `StreamEvents`. A body is the list of what
--   its reads give, with a failed read as `none`; `round` is one turn of the loop of `next`, and
--   `collect` in Run/Stream/Lazy the same body in one pass.
-- - src/run/events/mod.rs: Run/Response (`response_events` and its stages). A streamed response stands
--   there as its one-pass list of events.
-- - src/run/drive.rs, raw.rs and src/pipeline/sink.rs: Run/Drive (`drive`, `canonical_events`, `pump`,
--   `stream_raw`, `fail_inband`) over a sink as a record of a state and a `write`.
--
-- Stateful code is explicit state passing; a decoder's handler is an action on `DecodeState` that also
-- gives the events it pushes. Errors are values. A dictionary is an association list; where the source
-- collects and sorts the keys of a hash map, so does the model. Text is its UTF-8 bytes.
--
-- Fuel: the loops of `SseDecoder::push` and `NdjsonDecoder::push` run on fuel, the length of the
-- buffer, and that of `parse_args` on the number of words. Each turn takes at least one byte off the
-- buffer, or one word off the line, so that is enough.
--
-- Parameters: `serde_json` is the record `Json` of Canonical/Json (values, accessors, parser), with the
-- few laws that some results use in `JsonLaws`. Examples/Values is a concrete one, for the examples.
-- The 32-bit floats are the record `Floats` of Config/Row, the socket addresses of the standard library
-- `Sockets` of Config/Ingress, `str::to_lowercase` an argument of the Google decoder; the credential
-- store and the model cache are what their reads answer.
-- A map keyed by strings is a list of entries, read at the first entry of a key.
--
-- Not modelled: the deserialization of requests and the encoders (src/canonical/request_de*.rs,
-- src/protocol/*/encode), the ingress (src/ingress), the TOML and environment layers and the dump of
-- the configuration, the send and the cache write (src/run/generate.rs, request.rs), the parser of
-- `Retry-After` (a response carries its result), the OAuth flows and the stores (src/auth, src/store),
-- the sinks' output (src/pipeline), and sockets, files and processes (src/native, src/os,
-- src/transport). The OpenAI chat decoder of a complete body can panic, which is a value of its result.
--
-- The machine integers of the source stay what they are: `as u32` and `as u16` are remainders, the
-- saturating additions of the counters stop at 2^32 - 1. Allocation and panics on memory are outside.
pub mod Base
pub mod Framing
pub mod Canonical
pub mod Protocol
pub mod Run
pub mod Examples
pub mod Auth
pub mod Config
pub mod Cli
