-- ===== src/TrailerStatus.antt =====
-- The status of a call in gRPC trailers: packages/connect/src/protocol-grpc/trailer-status.ts and
-- validate-trailer.ts.
pub mod Sendable
pub mod RoundTrip
use connect_es.Prelude.{
  ℕ, Bool, false, Option, none, some, List, [], ◌∷◌, ◌++◌, map, ◌==◌, if◌then◌else◌, or_else, find?,
  any,
}
use connect_es.Prelude.Text.{Text, codes, text_eq, show_nat}
use connect_es.Prelude.Text.Uri.{encode_uri_component, decode_uri_component}
use connect_es.Code.{Code, internal, foreign, members, enum_number}
use connect_es.Headers.{Headers, get, set}
use connect_es.BinaryHeader.{message_value, encode_binary_header, decode_binary_header}
use connect_es.ConnectError.{
  Message, Detail, outgoing, incoming, js_error, ConnectError, connect_error, thrown,
  new_error_with, Result, ok, err, map_result, ◌>>=◌,
}
use connect_es.AsyncIterable.ReadAll.{parse_int}

abbrev pub header_grpc_status : Text
header_grpc_status = codes "Grpc-Status"

abbrev pub header_grpc_message : Text
header_grpc_message = codes "Grpc-Message"

abbrev pub header_status_details : Text
header_status_details = codes "Grpc-Status-Details-Bin"

-- `grpcStatusOk`
abbrev pub grpc_status_ok : Text
grpc_status_ok = codes "0"

-- `google.protobuf.Any`
pub record AnyMessage : Type 0 where
  pub type_url : Text
  pub value : List ℕ

-- `google.rpc.Status`; the code is `none` for zero.
pub record Status : Type 0 where
  pub code : Option Code
  pub message : Text
  pub details : List AnyMessage

-- What @bufbuild/protobuf does: base64, the binary form of a status, and `Any.pack`.
pub record Protobuf : Type 0 where
  pub enc : List ℕ → Text
  pub dec : Text → Result (List ℕ)
  pub to_binary : Status → Result (List ℕ)
  pub from_binary : List ℕ → Result Status
  pub pack : Message → AnyMessage

abbrev pub type_url : Text → Text
type_url type = codes "type.googleapis.com/" ++ type

-- `code.toString(10)`
abbrev number_text : Option ℕ → Code → Text
number_text (some n) code = show_nat n
number_text none (foreign t) = t
number_text none code = []

pub code_text : Code → Text
code_text code = number_text (enum_number code) code

abbrev pub uri_error {ℓ} : {A : Type ℓ} → Option A → Result A
uri_error none = err (thrown (js_error (codes "URIError") (codes "URI malformed")))
uri_error (some a) = ok a

-- `typeUrl.substring(typeUrl.lastIndexOf("/") + 1)`
pub after_slash : Text → Text → Text
after_slash type [] = type
after_slash type (c ∷ s) = after_slash (if c == b'/' then s else type) s

-- The details of a status.
pub received : AnyMessage → Detail
unfolding after_slash
received any = incoming (after_slash any.type_url any.type_url) any.value none

-- A member of the enum by its number.
abbrev has_number : ℕ → Option ℕ → Bool
has_number n none = false
has_number n (some m) = n == m

abbrev pub code_of_number : ℕ → Option Code
code_of_number n = find? (λ c. has_number n (enum_number c)) members

abbrev pub code_of : Option ℕ → Option Code
code_of none = none
code_of (some n) = code_of_number n

module _ (p : Protobuf) where
  pub packed : Detail → AnyMessage
  packed (outgoing m) = p.pack m
  packed (incoming type value debug) = record { type_url = type_url type; value = value }

  pub status_of : ConnectError → Status
  unfolding packed
  status_of e = record {
    code = some e.code;
    message = e.raw_message;
    details = map packed e.details;
  }

  set_details : ConnectError → List Detail → Headers → Result Headers
  unfolding status_of encode_binary_header set
  set_details e [] target = ok target
  set_details e (d ∷ ds) target =
      map_result (λ v. set header_status_details v target)
        (encode_binary_header p.enc (message_value (p.to_binary (status_of e))))

  -- `setTrailerStatus`, with what it throws if the message or the status cannot be encoded.
  unfoldable pub set_trailer_status : Headers → Option ConnectError → Result Headers
  unfolding set_details set encode_uri_component code_text
  set_trailer_status target none = ok (set header_grpc_status grpc_status_ok target)
  set_trailer_status target (some e) = uri_error (encode_uri_component e.raw_message) >>= λ m.
      set_details e e.details
        (set header_grpc_message m (set header_grpc_status (code_text e.code) target))

  -- What `setTrailerStatus` has set where it throws.
  abbrev message_left : Option Text → Headers → Headers
  unfolding set
  message_left none h = h
  message_left (some m) h = set header_grpc_message m h

  unfoldable pub trailer_left : Headers → ConnectError → Headers
  unfolding message_left encode_uri_component code_text
  trailer_left target e =
      message_left (encode_uri_component e.raw_message)
        (set header_grpc_status (code_text e.code) target)

  -- The branch on the details.
  status_error : Headers → Status → Option ConnectError
  unfolding new_error_with received
  status_error headers status = elim status.code [
    | none ↦ none
    | some code ↦ some (record (new_error_with status.message code (some headers) none none) {
      details = map received status.details;
    })
  ]

  -- The branch on the status.
  grpc_error : Headers → Text → Option Text → Option Code → Result (Option ConnectError)
  unfolding new_error_with decode_uri_component
  grpc_error headers status grpc_message none = ok (
      some (
        new_error_with (codes "invalid grpc-status: " ++ status) internal (some headers) none none))
  grpc_error headers status grpc_message (some code) =
      map_result (λ m. some (new_error_with m code (some headers) none none))
        (uri_error (decode_uri_component (or_else grpc_message [])))

  from_status : Headers → Option Text → Option Text → Result (Option ConnectError)
  unfolding grpc_error parse_int
  from_status headers none grpc_message = ok none
  from_status headers (some status) grpc_message =
      if text_eq status grpc_status_ok
      then ok none
      else grpc_error headers status grpc_message (code_of (parse_int status))

  from_details : Headers → Option Text → Result (Option ConnectError)
  unfolding from_status status_error decode_binary_header get
  from_details headers none =
      from_status headers (get header_grpc_status headers) (get header_grpc_message headers)
  from_details headers (some value) =
      map_result (status_error headers) (decode_binary_header p.dec p.from_binary value)

  -- `findTrailerError`
  unfoldable pub find_trailer_error : Headers → Result (Option ConnectError)
  unfolding from_details get
  find_trailer_error headers = from_details headers (get header_status_details headers)

  abbrev pub throw_found : Option ConnectError → Result (Unit {0})
  throw_found none = ok tt
  throw_found (some e) = err (connect_error e)

  -- `validateTrailer`
  unfoldable pub validate_trailer : Headers → Result (Unit {0})
  unfolding find_trailer_error
  validate_trailer trailer = find_trailer_error trailer >>= throw_found
