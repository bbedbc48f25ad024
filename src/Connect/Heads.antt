-- ===== src/Connect/Heads.antt =====
-- What both sides of a streaming call over the Connect protocol have agreed on when they have read the
-- heads of its request and its response.
use connect_es.Prelude.{
  ℕ, ◌≡◌, refl, ap, ◌∙◌, Bool, true, false, Option, none, some, List, ◌++◌, if◌then◌else◌,
}
use connect_es.Prelude.Text.{codes}
use connect_es.Headers.{Headers, get}
use connect_es.Compression.{Compression}
use connect_es.Timeout.{Timeout, print_timeout, parse_timeout}
use connect_es.ContentType.{parse_content_type}
use connect_es.ConnectError.{ConnectError, Result, ok, ◌>>◌, ◌>>=◌}
use connect_es.Universal.{MethodKind, unary, server_streaming, client_streaming, bidi_streaming}
use connect_es.RequestHeader.{
  header_content_type, header_timeout, header_protocol_version, header_stream_encoding,
  header_stream_accept_encoding, protocol_version, if_unary, map_option, name_of, accepted_names,
  request_header_with_compression,
}
use connect_es.RequestHeader.Reading.{IsVisibleOption, AreVisible}
use connect_es.RequestHeader.Connect.{request_header_read}
use connect_es.ValidateResponse.{
  response_compression, validate_response, validate_response_with_compression,
}
use connect_es.Version.{checked_version, require_protocol_version_header}
use connect_es.Handler.{HandlerOptions, prelude}
use connect_es.Grpc.Negotiated.{Knows, response_compression-Knows}

-- A method that is not unary.
abbrev pub IsStreaming : MethodKind → Type 0
IsStreaming kind = if_unary kind false true ≡ true

-- What the handler reads from the headers of the transport.
pub stream_header_read :
    (kind : MethodKind) (accept : List Compression) (send : Option Compression)
    → IsStreaming kind
    → AreVisible accept
    → IsVisibleOption (map_option name_of send)
    → (binary : Bool) (timeout_ms : Option ℕ) (user : Headers) → get header_timeout user ≡ none
    → get header_stream_encoding user ≡ none
    → get header_stream_accept_encoding user ≡ none
    → let h = request_header_with_compression kind binary timeout_ms user accept send in
      (parse_content_type (get header_content_type h)
        ≡ some (record { stream = true; binary = binary }))
      × (get header_protocol_version h ≡ some protocol_version)
      × (get header_timeout h ≡ map_option print_timeout timeout_ms)
      × (get header_stream_encoding h ≡ map_option name_of send)
      × (get header_stream_accept_encoding h ≡ accepted_names accept)
stream_header_read unary accept send streaming accepts sends = absurd cc
stream_header_read server_streaming accept send streaming accepts sends =
    request_header_read accept send accepts sends server_streaming
stream_header_read client_streaming accept send streaming accepts sends =
    request_header_read accept send accepts sends client_streaming
stream_header_read bidi_streaming accept send streaming accepts sends =
    request_header_read accept send accepts sends bidi_streaming

abbrev validated : Option Compression → Result (Option Compression × Option ConnectError)
validated c = ok (c, none)

-- The compression of the response, as the transport finds it.
compression_found :
    (accept : List Compression) (c : Option Compression) (h : Headers)
    → get header_stream_encoding h ≡ map_option name_of c
    → Knows accept c
    → (response_compression accept (get header_stream_encoding h) h >>= validated) ≡ validated c
compression_found accept c h encoding known =
    ap (λ o. response_compression accept o h >>= validated) encoding
    ∙ ap (λ r. r >>= validated) (response_compression-Knows accept c h known)

-- The head of the response, as the transport checks it.
pub stream_head :
    (kind : MethodKind) (accept : List Compression) (c : Option Compression) (h : Headers)
    → IsStreaming kind
    → get header_stream_encoding h ≡ map_option name_of c
    → Knows accept c
    → validate_response_with_compression kind accept 200 h ≡ ok (c, none)
unfolding validate_response_with_compression validate_response
stream_head unary accept c h streaming encoding known = absurd cc
stream_head server_streaming accept c h streaming encoding known =
    compression_found accept c h encoding known
stream_head client_streaming accept c h streaming encoding known =
    compression_found accept c h encoding known
stream_head bidi_streaming accept c h streaming encoding known =
    compression_found accept c h encoding known

pub prelude_lem :
    (required : Bool) (h : Headers)
    → get header_protocol_version h ≡ some protocol_version
    → ((if required then require_protocol_version_header h else ok tt) >> prelude none none)
      ≡ ok none
unfolding require_protocol_version_header
prelude_lem false h version = refl
prelude_lem true h version =
    ap
      (λ o.
        checked_version (codes "header: set " ++ header_protocol_version) header_protocol_version
          protocol_version o
        >> prelude none none)
      version

abbrev pub timeout_of : HandlerOptions → Option ℕ → Timeout
timeout_of server timeout_ms =
    parse_timeout (map_option print_timeout timeout_ms) server.max_timeout_ms
