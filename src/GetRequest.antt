-- ===== src/GetRequest.antt =====
-- packages/connect/src/protocol-connect/get-request.ts: a unary request in the query of its address.
use connect_es.Prelude.{
  ℕ, Bool, true, false, Option, none, some, List, [], ◌++◌, map, ◌==◌, if◌then◌else◌,
}
use connect_es.Prelude.Text.{Text, codes, text_eq}
use connect_es.Prelude.Text.Utf8.{decode}
use connect_es.Prelude.Text.Uri.{encode_uri_component}
use connect_es.Headers.{Headers, get, delete}
use connect_es.BinaryHeader.{strip_padding}
use connect_es.ConnectError.{Result, ok, map_result, ◌>>=◌}
use connect_es.ContentType.{strip}
use connect_es.RequestHeader.{
  header_content_type, header_protocol_version, header_unary_encoding, header_unary_accept_encoding,
  protocol_version,
}
use connect_es.TrailerStatus.{uri_error}

abbrev pub header_unary_content_length : Text
header_unary_content_length = codes "Content-Length"

-- `contentTypePrefix`
abbrev content_type_prefix : Text
content_type_prefix = codes "application/"

-- `.replace(/\+/g, "-").replace(/\//g, "_")`
abbrev url_safe : ℕ → ℕ
url_safe c = if c == b'+' then b'-' else if c == b'/' then b'_' else c

-- `encodeURIComponent`, which throws.
abbrev escaped : Text → Result Text
escaped s = uri_error (encode_uri_component s)

-- `encodeMessageForUrl`
unfoldable pub encode_message_for_url : (List ℕ → Text) → List ℕ → Bool → Result Text
unfolding strip_padding encode_uri_component decode
encode_message_for_url enc message true = ok (strip_padding (map url_safe (enc message)))
encode_message_for_url enc message false = escaped (decode message)

-- `&encoding=…`, if the content type has the prefix.
encoding_param : Option Text → Result Text
unfolding encode_uri_component
encoding_param none = ok []
encoding_param (some content_type) = elim (strip content_type_prefix content_type) [
  | none ↦ ok []
  | some t ↦ map_result (λ e. codes "&encoding=" ++ e) (escaped t)
]

-- A compression that is named and is not the identity.
abbrev pub named_compression : Option Text → Option Text
named_compression none = none
named_compression (some c) = if text_eq c (codes "identity") then none else some c

compression_param : Option Text → Result Text
unfolding encode_uri_component
compression_param none = ok []
compression_param (some c) = map_result (λ e. codes "&compression=" ++ e) (escaped c)

-- Base64 is forced for compressed payloads.
abbrev with_base64 : Option Text → Bool → Bool
with_base64 none use_base64 = use_base64
with_base64 (some c) use_base64 = true

-- The query.
unfoldable pub get_query : (List ℕ → Text) → Headers → List ℕ → Bool → Result Text
unfolding encode_message_for_url encoding_param compression_param get
get_query enc header message use_base64 =
    let compression = named_compression (get header_unary_encoding header) in
    let base64 = with_base64 compression use_base64 in
    encoding_param (get header_content_type header) >>= λ encoding.
    compression_param compression >>= λ compressed.
    map_result
      (λ m.
        codes "?connect=v"
        ++ (protocol_version
            ++ (encoding
                ++ (compressed
                    ++ ((if base64 then codes "&base64=1" else []) ++ (codes "&message=" ++ m))))))
      (encode_message_for_url enc message base64)

-- The headers that are not used for unary GET requests are omitted.
unfoldable pub get_header : Headers → Headers
unfolding delete
get_header header = delete header_unary_accept_encoding (
    delete header_unary_encoding (
      delete header_unary_content_length
        (delete header_content_type (delete header_protocol_version header))))
