-- ===== src/Connect.antt =====
-- The Connect protocol: errors and ends of streams as bytes (error-json.ts and end-stream.ts of
-- packages/connect/src/protocol-connect), over the parameters that all parts of the protocol have.
pub mod UnaryBody
pub mod Handler
pub mod StreamHandler
pub mod Transport
pub mod Answers
pub mod UnaryErrors
pub mod UnaryMessages
pub mod Ends
pub mod Heads
pub mod Streamed
pub mod Served
pub mod Received
pub mod Call
use connect_es.Prelude.{ℕ, Option, none, some, List, [], ◌++◌}
use connect_es.Prelude.Text.{Text, codes}
use connect_es.Prelude.Text.Utf8.{encode, decode}
use connect_es.Code.{invalid_argument}
use connect_es.Headers.{Headers}
use connect_es.Json.{Json}
use connect_es.ConnectError.{Message, ConnectError, connect_error, new_error, Result, ok, err}
use connect_es.AsyncIterable.Envelopes.{Serialization}
use connect_es.ErrorJson.{error_from_json, error_to_json}
use connect_es.EndStream.{EndStreamResponse, end_stream_from_json, end_stream_to_json}
use connect_es.Serialization.{message_of}

-- What is used of @bufbuild/protobuf (base64, where `none` is that it throws, and the JSON of a
-- message), of `JSON`, and of `URL`: a parameter of the query by its name.
pub record Platform : Type 0 where
  pub enc : List ℕ → Text
  pub dec : Text → Option (List ℕ)
  pub to_json : Message → Option Json
  pub stringify : Json → Text
  pub parse_json : Text → Option Json
  pub search_params : Text → Text → Option Text

abbrev pub end_stream_flag : ℕ
end_stream_flag = 2

module _ (p : Platform) where
  -- `errorToJsonBytes`; its `catch` is not reached, since `JSON.stringify` prints any JSON value.
  unfoldable pub error_to_json_bytes : ConnectError → List ℕ
  unfolding error_to_json encode
  error_to_json_bytes e = encode (p.stringify (error_to_json p.enc p.to_json e))

  unfoldable pub or_fallback : Option Json → Option Headers → ConnectError → Result ConnectError
  unfolding error_from_json
  or_fallback none metadata fallback = err (connect_error fallback)
  or_fallback (some json) metadata fallback = error_from_json p.dec json metadata fallback

  -- `errorFromJsonBytes`
  unfoldable pub error_from_json_bytes :
      List ℕ → Option Headers → ConnectError → Result ConnectError
  unfolding or_fallback decode
  error_from_json_bytes bytes metadata fallback =
      or_fallback (p.parse_json (decode bytes)) metadata fallback

  abbrev pub failed_parse : Result EndStreamResponse → Result EndStreamResponse
  unfolding new_error
  failed_parse (ok e) = ok e
  failed_parse (err r) = err (
      connect_error (
        new_error (codes "failed to parse EndStreamResponse: " ++ message_of r) invalid_argument
          []))

  abbrev pub parsed_end : Option Json → Result EndStreamResponse
  unfolding end_stream_from_json new_error
  parsed_end none = err (connect_error (new_error (codes "invalid end stream") invalid_argument []))
  parsed_end (some json) = end_stream_from_json p.dec json

  -- `createEndStreamSerialization`; so too the `catch` of `serialize`.
  unfoldable pub end_stream_serialization : Serialization EndStreamResponse
  unfolding end_stream_to_json failed_parse parsed_end encode decode
  end_stream_serialization = record {
    serialize = λ e. ok (encode (p.stringify (end_stream_to_json p.enc p.to_json e.0 e.1)));
    parse = λ bytes. failed_parse (parsed_end (p.parse_json (decode bytes)));
  }
