-- ===== src/ValidateResponse.antt =====
-- The check of a response's head: validate-response.ts of packages/connect/src/protocol-connect,
-- protocol-grpc and protocol-grpc-web.
use connect_es.Prelude.{
  ℕ, Bool, true, false, ◌&&◌, not, Option, none, some, List, ◌++◌, ltb, leb, ◌==◌, if◌then◌else◌,
  or_else,
}
use connect_es.Prelude.Text.{Text, codes, text_eq, to_lower, show_nat}
use connect_es.Prelude.Text.Uri.{decode_uri_component}
use connect_es.Code.{invalid_argument}
use connect_es.Code.HttpStatus.{code_from_http_status, grpc_code_from_http_status}
use connect_es.Headers.{Headers, get, has}
use connect_es.ConnectError.{
  ConnectError, connect_error, new_error, Result, ok, err, map_result, ◌>>◌, ◌>>=◌,
}
use connect_es.Compression.{Compression, find_by_name}
use connect_es.ContentType.{ParsedType, parse_content_type}
use connect_es.Universal.{MethodKind}
use connect_es.RequestHeader.{
  header_content_type, header_unary_encoding, header_stream_encoding, header_grpc_encoding,
  if_unary,
}
use connect_es.TrailerStatus.{
  header_grpc_status, header_grpc_message, Protobuf, uri_error, validate_trailer,
}

-- The error for an encoding that is not accepted.
pub unsupported : Text → Headers → ConnectError
unfolding new_error
unsupported encoding headers =
    new_error (codes "unsupported response encoding \"" ++ (encoding ++ codes "\""))
      invalid_argument headers

-- `acceptCompression.find((c) => c.name === encoding)`, or the error.
abbrev pub found_or_error : Option Compression → Text → Headers → Result (Option Compression)
found_or_error (some c) encoding headers = ok (some c)
found_or_error none encoding headers = err (connect_error (unsupported encoding headers))

-- The compression that a response says it has; the same in all protocols.
unfoldable pub response_compression :
    List Compression → Option Text → Headers → Result (Option Compression)
unfolding find_by_name unsupported
response_compression accept none headers = ok none
response_compression accept (some encoding) headers =
    if text_eq (to_lower encoding) (codes "identity")
    then ok none
    else found_or_error (find_by_name encoding accept) encoding headers

unfoldable pub http_error : ℕ → Text → Headers → ConnectError
unfolding new_error code_from_http_status
http_error status message headers = new_error message (code_from_http_status status) headers

abbrev pub is_json : Option ParsedType → Bool
is_json none = false
is_json (some t) = not t.binary

abbrev pub is_unary : MethodKind → Bool
is_unary kind = if_unary kind true false

abbrev pub http_message : ℕ → Text
http_message status = codes "HTTP " ++ show_nat status

-- protocol-connect: `validateResponse`; the field `unaryError`, if there is one.
unfoldable pub validate_response : MethodKind → ℕ → Headers → Result (Option ConnectError)
unfolding http_error parse_content_type get
validate_response kind status headers =
    if status == 200
    then ok none
    else let e = http_error status (http_message status) headers in
      if is_unary kind && is_json (parse_content_type (get header_content_type headers))
      then ok (some e)
      else err (connect_error e)

-- protocol-connect: `validateResponseWithCompression`
unfoldable pub validate_response_with_compression :
    MethodKind → List Compression → ℕ → Headers → Result (Option Compression × Option ConnectError)
unfolding response_compression validate_response
validate_response_with_compression kind accept status headers =
    response_compression accept
      (get (if_unary kind header_unary_encoding header_stream_encoding) headers) headers
    >>= λ compression.
        map_result (λ unary_error. (compression, unary_error))
          (validate_response kind status headers)

module _ (p : Protobuf) where
  -- The check for an error status, and the field `foundStatus`.
  unfoldable pub found_status : Headers → Result Bool
  unfolding validate_trailer has
  found_status headers = validate_trailer p headers >> ok (has header_grpc_status headers)

  -- protocol-grpc: `validateResponse`
  unfoldable pub validate_grpc_response : ℕ → Headers → Result Bool
  unfolding found_status
  validate_grpc_response status headers =
      if status == 200
      then found_status headers
      else err (
          connect_error
            (new_error (http_message status) (grpc_code_from_http_status status) headers))

  abbrev pub with_response_compression :
      List Compression → Headers → Bool → Result (Bool × Option Compression)
  unfolding response_compression
  with_response_compression accept headers found =
      map_result (λ c. (found, c))
        (response_compression accept (get header_grpc_encoding headers) headers)

  -- protocol-grpc: `validateResponseWithCompression`
  unfoldable pub validate_grpc_response_with_compression :
      List Compression → ℕ → Headers → Result (Bool × Option Compression)
  unfolding validate_grpc_response with_response_compression
  validate_grpc_response_with_compression accept status headers =
      validate_grpc_response status headers >>= with_response_compression accept headers

  -- protocol-grpc-web: `validateResponse`
  unfoldable pub validate_grpc_web_response : ℕ → Headers → Result Bool
  unfolding found_status
  validate_grpc_web_response status headers =
      if leb 200 status && ltb status 300
      then found_status headers
      else uri_error
          (decode_uri_component (or_else (get header_grpc_message headers) (http_message status)))
        >>= λ message.
            err (connect_error (new_error message (grpc_code_from_http_status status) headers))

  -- protocol-grpc-web: `validateResponseWithCompression`
  unfoldable pub validate_grpc_web_response_with_compression :
      List Compression → ℕ → Headers → Result (Bool × Option Compression)
  unfolding validate_grpc_web_response with_response_compression
  validate_grpc_web_response_with_compression accept status headers =
      validate_grpc_web_response status headers >>= with_response_compression accept headers
