-- ===== src/RequestHeader/Grpc.antt =====
-- What a server of gRPC reads from the headers of a request.
use connect_es.Prelude.{ℕ, ◌≡◌, refl, ap, ◌∙◌, Bool, true, false, Option, some, List, if_false}
use connect_es.Prelude.Text.{Text, codes, text_eq, to_lower}
use connect_es.Headers.{Headers, normalize_value, get, set}
use connect_es.Headers.Laws.{get-set}
use connect_es.Compression.{Compression}
use connect_es.ContentType.{parse_grpc_type}
use connect_es.Timeout.{print_grpc_timeout}
use connect_es.RequestHeader.{
  header_content_type, header_user_agent, user_agent, header_grpc_timeout, header_grpc_encoding,
  header_grpc_accept_encoding, map_option, name_of, accepted_names, grpc_content_type,
  grpc_request_header, grpc_request_header_with_compression,
}
use connect_es.RequestHeader.Reading.{
  IsVisibleOption, or_option, get-set_if_self, get-set_if_other, AreVisible,
  print_grpc_timeout-IsVisible, get-with_compression_encoding, get-with_compression_accepted,
  get-with_compression_other,
}

grpc_type_of :
    (binary : Bool)
    → parse_grpc_type (some (normalize_value (grpc_content_type binary))) ≡ some binary
unfolding parse_grpc_type
grpc_type_of true = refl
grpc_type_of false = refl

-- The headers of gRPC, without compressions.
grpc_type-read :
    (binary : Bool) (timeout_ms : Option ℕ) (user : Headers)
    → parse_grpc_type (get header_content_type (grpc_request_header binary timeout_ms user))
      ≡ some binary
unfolding grpc_request_header parse_grpc_type
grpc_type-read binary timeout_ms user =
    let agent =
      set header_user_agent user_agent (set header_content_type (grpc_content_type binary) user) in
    let typed = set header_content_type (grpc_content_type binary) user in
    ap parse_grpc_type (
      get-set (codes "Te") header_content_type (codes "trailers") _
      ∙ get-set_if_other header_grpc_timeout header_content_type _ agent refl
      ∙ get-set header_user_agent header_content_type user_agent typed
      ∙ get-set header_content_type header_content_type (grpc_content_type binary) user)
    ∙ grpc_type_of binary

grpc_timeout-read :
    (binary : Bool) (timeout_ms : Option ℕ) (user : Headers)
    → get header_grpc_timeout (grpc_request_header binary timeout_ms user)
      ≡ or_option (map_option print_grpc_timeout timeout_ms) (get header_grpc_timeout user)
unfolding grpc_request_header
grpc_timeout-read binary timeout_ms user =
    get-set (codes "Te") header_grpc_timeout (codes "trailers") _
    ∙ get-set_if_self header_grpc_timeout _ _ (print_grpc_timeout-IsVisible timeout_ms)
    ∙ ap (or_option (map_option print_grpc_timeout timeout_ms)) (
        get-set header_user_agent header_grpc_timeout user_agent _
        ∙ get-set header_content_type header_grpc_timeout (grpc_content_type binary) user)

grpc_other-read :
    (name : Text) (binary : Bool) (timeout_ms : Option ℕ) (user : Headers)
    → text_eq (to_lower (codes "Te")) (to_lower name) ≡ false
    → text_eq (to_lower header_grpc_timeout) (to_lower name) ≡ false
    → text_eq (to_lower header_user_agent) (to_lower name) ≡ false
    → text_eq (to_lower header_content_type) (to_lower name) ≡ false
    → get name (grpc_request_header binary timeout_ms user) ≡ get name user
unfolding grpc_request_header
grpc_other-read name binary timeout_ms user a b c d =
    get-set (codes "Te") name (codes "trailers") _
    ∙ if_false _ _ a
    ∙ get-set_if_other header_grpc_timeout name _ _ b
    ∙ get-set header_user_agent name user_agent _
    ∙ if_false _ _ c
    ∙ get-set header_content_type name (grpc_content_type binary) user
    ∙ if_false _ _ d

module _ (accept : List Compression) (send : Option Compression) (accepts : AreVisible accept)
    (sends : IsVisibleOption (map_option name_of send)) where
  -- A server of gRPC reads from the headers of a request the format of the messages, and, where the
  -- client sets them, the timeout, the compression of the request and the compressions that the client
  -- accepts; otherwise these are as the user has set them. The names of compressions hold no white
  -- space.
  pub grpc_request_header_read :
      (binary : Bool) (timeout_ms : Option ℕ) (user : Headers)
      → let h = grpc_request_header_with_compression binary timeout_ms user accept send in
        (parse_grpc_type (get header_content_type h) ≡ some binary)
        × (get header_grpc_timeout h
            ≡ or_option (map_option print_grpc_timeout timeout_ms) (get header_grpc_timeout user))
        × (get header_grpc_encoding h
            ≡ or_option (map_option name_of send) (get header_grpc_encoding user))
        × (get header_grpc_accept_encoding h
            ≡ or_option (accepted_names accept) (get header_grpc_accept_encoding user))
  unfolding grpc_request_header_with_compression
  grpc_request_header_read binary timeout_ms user =
      let g = grpc_request_header binary timeout_ms user in
      let enc = header_grpc_encoding in
      let acc = header_grpc_accept_encoding in
      (
        ap parse_grpc_type (
              get-with_compression_other accept send accepts sends enc acc header_content_type g
                refl refl)
            ∙ grpc_type-read binary timeout_ms user,
        get-with_compression_other accept send accepts sends enc acc header_grpc_timeout g refl refl
            ∙ grpc_timeout-read binary timeout_ms user,
        get-with_compression_encoding accept send accepts sends enc acc g refl
            ∙ ap (or_option (map_option name_of send))
                (grpc_other-read header_grpc_encoding binary timeout_ms user refl refl refl refl),
        get-with_compression_accepted accept send accepts sends enc acc g refl
            ∙ ap (or_option (accepted_names accept)) (
                grpc_other-read header_grpc_accept_encoding binary timeout_ms user refl refl refl
                  refl),
      )
