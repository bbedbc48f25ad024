-- ===== src/RequestHeader.antt =====
-- The headers of a request: request-header.ts of packages/connect/src/protocol-connect, protocol-grpc
-- and protocol-grpc-web. The headers that the user provides are those of a `Headers` object.
pub mod Reading
pub mod Grpc
pub mod Connect
use connect_es.Prelude.{ℕ, Bool, Option, none, some, List, [], ◌∷◌, if◌then◌else◌}
use connect_es.Prelude.Text.{Text, codes}
use connect_es.Headers.{Headers, set}
use connect_es.Compression.{Compression, acceptable}
use connect_es.ContentType.{
  content_type_unary_proto, content_type_unary_json, content_type_stream_proto,
  content_type_stream_json, grpc_proto, grpc_json, grpc_web_proto, grpc_web_json,
}
use connect_es.Timeout.{print_timeout, print_grpc_timeout}
use connect_es.Universal.{MethodKind, unary}

abbrev pub header_content_type : Text
header_content_type = codes "Content-Type"

abbrev pub header_user_agent : Text
header_user_agent = codes "User-Agent"

abbrev pub user_agent : Text
user_agent = codes "CONNECT_ES_USER_AGENT"

-- The headers of the Connect protocol.
abbrev pub header_timeout : Text
header_timeout = codes "Connect-Timeout-Ms"

abbrev pub header_protocol_version : Text
header_protocol_version = codes "Connect-Protocol-Version"

abbrev pub header_unary_encoding : Text
header_unary_encoding = codes "Content-Encoding"

abbrev pub header_stream_encoding : Text
header_stream_encoding = codes "Connect-Content-Encoding"

abbrev pub header_unary_accept_encoding : Text
header_unary_accept_encoding = codes "Accept-Encoding"

abbrev pub header_stream_accept_encoding : Text
header_stream_accept_encoding = codes "Connect-Accept-Encoding"

-- `protocolVersion`
abbrev pub protocol_version : Text
protocol_version = codes "1"

-- The headers of gRPC.
abbrev pub header_grpc_timeout : Text
header_grpc_timeout = codes "Grpc-Timeout"

abbrev pub header_grpc_encoding : Text
header_grpc_encoding = codes "Grpc-Encoding"

abbrev pub header_grpc_accept_encoding : Text
header_grpc_accept_encoding = codes "Grpc-Accept-Encoding"

abbrev pub if_unary {ℓ} : {A : Type ℓ} → MethodKind → A → A → A
if_unary unary a b = a
if_unary _ a b = b

unfoldable pub set_if : Text → Option Text → Headers → Headers
unfolding set
set_if name none h = h
set_if name (some value) h = set name value h

abbrev pub map_option {ℓ κ} : {A : Type ℓ} {B : Type κ} → (A → B) → Option A → Option B
map_option f none = none
map_option f (some a) = some (f a)

-- `if (sendCompression != null)`, `if (acceptCompression.length > 0)`
abbrev pub name_of : Compression → Text
name_of c = c.name

abbrev pub accepted_names : List Compression → Option Text
accepted_names [] = none
accepted_names (c ∷ cs) = some (acceptable (c ∷ cs))

pub with_compression : Text → Text → List Compression → Option Compression → Headers → Headers
unfolding set_if acceptable
with_compression encoding accept_encoding accept send h =
    set_if accept_encoding (accepted_names accept) (set_if encoding (map_option name_of send) h)

abbrev pub connect_content_type : MethodKind → Bool → Text
connect_content_type kind binary =
    if_unary kind (if binary then content_type_unary_proto else content_type_unary_json)
      (if binary then content_type_stream_proto else content_type_stream_json)

-- protocol-connect: `requestHeader`
unfoldable pub request_header : MethodKind → Bool → Option ℕ → Headers → Headers
unfolding set_if set print_timeout
request_header kind binary timeout_ms user = set header_user_agent user_agent (
    set header_protocol_version protocol_version (
      set header_content_type (connect_content_type kind binary)
        (set_if header_timeout (map_option print_timeout timeout_ms) user)))

-- protocol-connect: `requestHeaderWithCompression`
unfoldable pub request_header_with_compression :
    MethodKind → Bool → Option ℕ → Headers → List Compression → Option Compression → Headers
unfolding request_header with_compression
request_header_with_compression kind binary timeout_ms user accept send =
    with_compression (if_unary kind header_unary_encoding header_stream_encoding)
      (if_unary kind header_unary_accept_encoding header_stream_accept_encoding) accept send
      (request_header kind binary timeout_ms user)

abbrev pub grpc_content_type : Bool → Text
grpc_content_type binary = if binary then grpc_proto else grpc_json

-- protocol-grpc: `requestHeader`
unfoldable pub grpc_request_header : Bool → Option ℕ → Headers → Headers
unfolding set_if set print_grpc_timeout
grpc_request_header binary timeout_ms user = set (codes "Te") (codes "trailers") (
    set_if header_grpc_timeout (map_option print_grpc_timeout timeout_ms)
      (set header_user_agent user_agent (set header_content_type (grpc_content_type binary) user)))

-- protocol-grpc: `requestHeaderWithCompression`
unfoldable pub grpc_request_header_with_compression :
    Bool → Option ℕ → Headers → List Compression → Option Compression → Headers
unfolding grpc_request_header with_compression
grpc_request_header_with_compression binary timeout_ms user accept send =
    with_compression header_grpc_encoding header_grpc_accept_encoding accept send
      (grpc_request_header binary timeout_ms user)

abbrev pub grpc_web_content_type : Bool → Text
grpc_web_content_type binary = if binary then grpc_web_proto else grpc_web_json

-- protocol-grpc-web: `requestHeader`
unfoldable pub grpc_web_request_header : Bool → Option ℕ → Headers → Headers
unfolding set_if set print_grpc_timeout
grpc_web_request_header binary timeout_ms user =
    set_if header_grpc_timeout (map_option print_grpc_timeout timeout_ms) (
      set header_user_agent user_agent (
        set (codes "X-User-Agent") user_agent (
          set (codes "X-Grpc-Web") (codes "1")
            (set header_content_type (grpc_web_content_type binary) user))))

-- protocol-grpc-web: `requestHeaderWithCompression`
unfoldable pub grpc_web_request_header_with_compression :
    Bool → Option ℕ → Headers → List Compression → Option Compression → Headers
unfolding grpc_web_request_header with_compression
grpc_web_request_header_with_compression binary timeout_ms user accept send =
    with_compression header_grpc_encoding header_grpc_accept_encoding accept send
      (grpc_web_request_header binary timeout_ms user)
