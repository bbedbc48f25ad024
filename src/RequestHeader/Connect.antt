-- ===== src/RequestHeader/Connect.antt =====
-- What a server of the Connect protocol reads from the headers of a request.
use connect_es.Prelude.{
  ℕ, ◌≡◌, refl, ap, ◌∙◌, Bool, true, false, Option, none, some, List, if_false,
}
use connect_es.Prelude.Text.{Text, text_eq, to_lower}
use connect_es.Headers.{Headers, normalize_value, get, set}
use connect_es.Headers.Laws.{get-set}
use connect_es.Compression.{Compression}
use connect_es.ContentType.{parse_content_type}
use connect_es.Timeout.{print_timeout}
use connect_es.Universal.{MethodKind, unary, server_streaming, client_streaming, bidi_streaming}
use connect_es.RequestHeader.{
  header_content_type, header_user_agent, user_agent, header_timeout, header_protocol_version,
  header_unary_encoding, header_stream_encoding, header_unary_accept_encoding,
  header_stream_accept_encoding, protocol_version, if_unary, set_if, map_option, name_of,
  accepted_names, connect_content_type, request_header, request_header_with_compression,
}
use connect_es.RequestHeader.Reading.{
  IsVisibleOption, or_option, get-set_if_self, get-set_if_other, AreVisible,
  print_timeout-IsVisible, or_none, get-with_compression_encoding, get-with_compression_accepted,
  get-with_compression_other,
}

-- The headers of the Connect protocol, without compressions.
abbrev is_stream : MethodKind → Bool
is_stream kind = if_unary kind false true

connect_type_of :
    (kind : MethodKind) (binary : Bool)
    → parse_content_type (some (normalize_value (connect_content_type kind binary)))
      ≡ some (record { stream = is_stream kind; binary = binary })
unfolding parse_content_type
connect_type_of unary true = refl
connect_type_of unary false = refl
connect_type_of server_streaming true = refl
connect_type_of server_streaming false = refl
connect_type_of client_streaming true = refl
connect_type_of client_streaming false = refl
connect_type_of bidi_streaming true = refl
connect_type_of bidi_streaming false = refl

connect_type-read :
    (kind : MethodKind) (binary : Bool) (timeout_ms : Option ℕ) (user : Headers)
    → parse_content_type (get header_content_type (request_header kind binary timeout_ms user))
      ≡ some (record { stream = is_stream kind; binary = binary })
unfolding request_header
connect_type-read kind binary timeout_ms user =
    let timed = set_if header_timeout (map_option print_timeout timeout_ms) user in
    let typed = set header_content_type (connect_content_type kind binary) timed in
    ap parse_content_type (
      get-set header_user_agent header_content_type user_agent
        (set header_protocol_version protocol_version typed)
      ∙ get-set header_protocol_version header_content_type protocol_version typed
      ∙ get-set header_content_type header_content_type (connect_content_type kind binary) timed)
    ∙ connect_type_of kind binary

connect_version-read :
    (kind : MethodKind) (binary : Bool) (timeout_ms : Option ℕ) (user : Headers)
    → get header_protocol_version (request_header kind binary timeout_ms user)
      ≡ some protocol_version
unfolding request_header
connect_version-read kind binary timeout_ms user =
    let timed = set_if header_timeout (map_option print_timeout timeout_ms) user in
    let typed = set header_content_type (connect_content_type kind binary) timed in
    get-set header_user_agent header_protocol_version user_agent
      (set header_protocol_version protocol_version typed)
    ∙ get-set header_protocol_version header_protocol_version protocol_version typed

connect_other-read :
    (name : Text) (kind : MethodKind) (binary : Bool) (timeout_ms : Option ℕ) (user : Headers)
    → text_eq (to_lower header_user_agent) (to_lower name) ≡ false
    → text_eq (to_lower header_protocol_version) (to_lower name) ≡ false
    → text_eq (to_lower header_content_type) (to_lower name) ≡ false
    → get name (request_header kind binary timeout_ms user)
      ≡ get name (set_if header_timeout (map_option print_timeout timeout_ms) user)
unfolding request_header
connect_other-read name kind binary timeout_ms user a b c =
    let timed = set_if header_timeout (map_option print_timeout timeout_ms) user in
    let typed = set header_content_type (connect_content_type kind binary) timed in
    get-set header_user_agent name user_agent (set header_protocol_version protocol_version typed)
    ∙ if_false _ _ a
    ∙ get-set header_protocol_version name protocol_version typed
    ∙ if_false _ _ b
    ∙ get-set header_content_type name (connect_content_type kind binary) timed
    ∙ if_false _ _ c

-- The names of the headers for compressions are no names of other headers.
abbrev Apart : Text → Text → Type 0
Apart a b = text_eq (to_lower a) (to_lower b) ≡ false

record AreNames (enc acc : Text) : Type 0 where
  acc_enc : Apart acc enc
  enc_acc : Apart enc acc
  enc_type : Apart enc header_content_type
  acc_type : Apart acc header_content_type
  enc_version : Apart enc header_protocol_version
  acc_version : Apart acc header_protocol_version
  enc_timeout : Apart enc header_timeout
  acc_timeout : Apart acc header_timeout
  agent_enc : Apart header_user_agent enc
  version_enc : Apart header_protocol_version enc
  type_enc : Apart header_content_type enc
  timeout_enc : Apart header_timeout enc
  agent_acc : Apart header_user_agent acc
  version_acc : Apart header_protocol_version acc
  type_acc : Apart header_content_type acc
  timeout_acc : Apart header_timeout acc

unary_names : AreNames header_unary_encoding header_unary_accept_encoding
unary_names = record {
  acc_enc = refl;
  enc_acc = refl;
  enc_type = refl;
  acc_type = refl;
  enc_version = refl;
  acc_version = refl;
  enc_timeout = refl;
  acc_timeout = refl;
  agent_enc = refl;
  version_enc = refl;
  type_enc = refl;
  timeout_enc = refl;
  agent_acc = refl;
  version_acc = refl;
  type_acc = refl;
  timeout_acc = refl;
}

stream_names : AreNames header_stream_encoding header_stream_accept_encoding
stream_names = record {
  acc_enc = refl;
  enc_acc = refl;
  enc_type = refl;
  acc_type = refl;
  enc_version = refl;
  acc_version = refl;
  enc_timeout = refl;
  acc_timeout = refl;
  agent_enc = refl;
  version_enc = refl;
  type_enc = refl;
  timeout_enc = refl;
  agent_acc = refl;
  version_acc = refl;
  type_acc = refl;
  timeout_acc = refl;
}

names_of :
    (kind : MethodKind)
    → AreNames
        (if_unary kind header_unary_encoding header_stream_encoding)
        (if_unary kind header_unary_accept_encoding header_stream_accept_encoding)
names_of unary = unary_names
names_of _ = stream_names

module _ (accept : List Compression) (send : Option Compression) (accepts : AreVisible accept)
    (sends : IsVisibleOption (map_option name_of send)) where
  -- A server of the Connect protocol reads from the headers of a request whether it is a stream and the
  -- format of the messages, the version of the protocol, and the timeout, the compression of the request
  -- and the compressions that the client accepts where the client sets them. The headers that the user
  -- provides have none of the three; the names of compressions hold no white space.
  pub request_header_read :
      (kind : MethodKind) (binary : Bool) (timeout_ms : Option ℕ) (user : Headers)
      → get header_timeout user ≡ none
      → get (if_unary kind header_unary_encoding header_stream_encoding) user ≡ none
      → get (if_unary kind header_unary_accept_encoding header_stream_accept_encoding) user ≡ none
      → let enc = if_unary kind header_unary_encoding header_stream_encoding in
        let acc = if_unary kind header_unary_accept_encoding header_stream_accept_encoding in
        let h = request_header_with_compression kind binary timeout_ms user accept send in
        (parse_content_type (get header_content_type h)
          ≡ some (record { stream = if_unary kind false true; binary = binary }))
        × (get header_protocol_version h ≡ some protocol_version)
        × (get header_timeout h ≡ map_option print_timeout timeout_ms)
        × (get enc h ≡ map_option name_of send)
        × (get acc h ≡ accepted_names accept)
  unfolding request_header_with_compression
  request_header_read kind binary timeout_ms user t e a =
      let enc = if_unary kind header_unary_encoding header_stream_encoding in
      let acc = if_unary kind header_unary_accept_encoding header_stream_accept_encoding in
      let g = request_header kind binary timeout_ms user in
      let printed = map_option print_timeout timeout_ms in
      let n = names_of kind in
      (
        ap parse_content_type (
              get-with_compression_other accept send accepts sends enc acc header_content_type g
                n.enc_type n.acc_type)
            ∙ connect_type-read kind binary timeout_ms user,
        get-with_compression_other accept send accepts sends enc acc header_protocol_version g
              n.enc_version n.acc_version
            ∙ connect_version-read kind binary timeout_ms user,
        get-with_compression_other accept send accepts sends enc acc header_timeout g n.enc_timeout
              n.acc_timeout
            ∙ connect_other-read header_timeout kind binary timeout_ms user refl refl refl
            ∙ get-set_if_self header_timeout printed user (print_timeout-IsVisible timeout_ms)
            ∙ ap (or_option printed) t
            ∙ or_none printed,
        get-with_compression_encoding accept send accepts sends enc acc g n.acc_enc
            ∙ ap (or_option (map_option name_of send)) (
                connect_other-read enc kind binary timeout_ms user n.agent_enc n.version_enc
                  n.type_enc
                ∙ get-set_if_other header_timeout enc printed user n.timeout_enc
                ∙ e)
            ∙ or_none _,
        get-with_compression_accepted accept send accepts sends enc acc g n.enc_acc
            ∙ ap (or_option (accepted_names accept)) (
                connect_other-read acc kind binary timeout_ms user n.agent_acc n.version_acc
                  n.type_acc
                ∙ get-set_if_other header_timeout acc printed user n.timeout_acc
                ∙ a)
            ∙ or_none _,
      )
