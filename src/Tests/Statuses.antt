-- ===== src/Tests/Statuses.antt =====
-- The status in trailers and the headers of requests at concrete inputs.
use connect_es.Prelude.{◌≡◌, refl, subst, true, false, none, some, [], ◌∷◌, arith}
use connect_es.Prelude.Text.{codes}
use connect_es.Code.{not_found}
use connect_es.Headers.{Headers, get}
use connect_es.Compression.{Compression}
use connect_es.ConnectError.{Message, outgoing, ConnectError, new_error_with, ok}
use connect_es.ContentType.{parse_content_type, parse_grpc_type}
use connect_es.Timeout.{print_timeout, print_grpc_timeout}
use connect_es.TrailerStatus.{set_trailer_status, find_trailer_error}
use connect_es.TrailerStatus.RoundTrip.{find_trailer_error-set_trailer_status}
use connect_es.TrailerStatus.Sendable.{IsSendable, arrived}
use connect_es.RequestHeader.{
  header_content_type, header_timeout, header_protocol_version, header_unary_encoding,
  header_unary_accept_encoding, protocol_version, header_grpc_timeout, header_grpc_encoding,
  header_grpc_accept_encoding, request_header_with_compression,
  grpc_request_header_with_compression,
}
use connect_es.RequestHeader.Grpc.{grpc_request_header_read}
use connect_es.RequestHeader.Connect.{request_header_read}
use connect_es.Universal.{unary}
use connect_es.Tests.Codec.{codec, codec-IsFaithful}

abbrev pub detail : Message
detail = record { type_name = codes "echo.Detail"; binary = 8 ∷ 3 ∷ [] }

-- An error with a message that is not ASCII, and a detail.
abbrev pub missing : ConnectError
missing = record (new_error_with (codes "kein Schlüssel") not_found none none none) {
  details = outgoing detail ∷ [];
}

pub missing-IsSendable : IsSendable missing
unfolding new_error_with
missing-IsSendable = record { member = tt; scalars = ground arith; typed = ground arith }

find_trailer_error-set_trailer_status_example :
    (h : Headers) × (set_trailer_status codec [] (some missing) ≡ ok h)
    × (find_trailer_error codec h ≡ ok (arrived h (some missing)))
unfolding get
find_trailer_error-set_trailer_status_example =
    find_trailer_error-set_trailer_status codec codec-IsFaithful [] (some missing) refl
      (λ e same. subst IsSendable (cc) missing-IsSendable)

abbrev gzip : Compression
gzip = record { name = codes "gzip"; compress = λ b. ok b; decompress = λ b max. ok b }

abbrev user : Headers
user = (codes "x-id", codes "7") ∷ []

grpc_request_header_read_example :
    let h = grpc_request_header_with_compression true (some 500) user (gzip ∷ []) (some gzip) in
    (parse_grpc_type (get header_content_type h) ≡ some true)
    × (get header_grpc_timeout h ≡ some (print_grpc_timeout 500))
    × (get header_grpc_encoding h ≡ some (codes "gzip"))
    × (get header_grpc_accept_encoding h ≡ some (codes "gzip"))
unfolding get grpc_request_header_with_compression print_grpc_timeout parse_grpc_type
grpc_request_header_read_example =
    grpc_request_header_read (gzip ∷ []) (some gzip) (ground arith, tt) (ground arith) true
      (some 500) user

request_header_read_example :
    let h = request_header_with_compression unary false (some 500) user (gzip ∷ []) (some gzip) in
    (parse_content_type (get header_content_type h)
      ≡ some (record { stream = false; binary = false }))
    × (get header_protocol_version h ≡ some protocol_version)
    × (get header_timeout h ≡ some (print_timeout 500))
    × (get header_unary_encoding h ≡ some (codes "gzip"))
    × (get header_unary_accept_encoding h ≡ some (codes "gzip"))
unfolding get request_header_with_compression print_timeout parse_content_type
request_header_read_example =
    request_header_read (gzip ∷ []) (some gzip) (ground arith, tt) (ground arith) unary false
      (some 500) user refl refl refl
