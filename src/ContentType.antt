-- ===== src/ContentType.antt =====
-- The content types of the three protocols: content-type.ts of packages/connect/src/protocol-connect,
-- protocol-grpc and protocol-grpc-web. A regular expression is a function on the text in lower case,
-- since all of them ignore case.
pub mod Laws
pub mod Matcher
use connect_es.Prelude.{Bool, true, false, ◌||◌, Option, none, some, [], ◌∷◌, ◌==◌, if◌then◌else◌}
use connect_es.Prelude.Text.{Text, codes, text_eq, to_lower}

-- What follows a prefix.
abbrev pub strip : Text → Text → Option Text
strip [] s = some s
strip (c ∷ p) [] = none
strip (c ∷ p) (d ∷ s) = if c == d then strip p s else none

-- `(?:; ?charset=utf-?8)?$`
abbrev pub is_charset : Text → Bool
is_charset s =
    text_eq s []
    || (text_eq s (codes ";charset=utf8")
        || (text_eq s (codes ";charset=utf-8")
            || (text_eq s (codes "; charset=utf8") || text_eq s (codes "; charset=utf-8"))))

abbrev json_at : Option Text → Option Bool
json_at none = none
json_at (some s) = if is_charset s then some false else none

-- `(?:(json)(?:; ?charset=utf-?8)?|(proto))$`, and whether it is the binary format.
unfoldable pub format : Text → Option Bool
format s = if text_eq s (codes "proto") then some true else json_at (strip (codes "json") s)

abbrev pub then_format : Option Text → Option Bool
unfolding format
then_format none = none
then_format (some s) = format s

-- What `parseContentType` of the Connect protocol returns.
pub record ParsedType : Type 0 where
  pub stream : Bool
  pub binary : Bool

abbrev pub typed : Bool → Option Bool → Option ParsedType
typed stream none = none
typed stream (some binary) = some (record { stream = stream; binary = binary })

connect_type : Option Text → Option ParsedType
unfolding format
connect_type none = none
connect_type (some s) = elim (strip (codes "connect+") s) [
  | none ↦ typed false (format s)
  | some t ↦ typed true (format t)
]

-- `contentType?.match(…)`: `none` is `null`.
abbrev pub lowered : Option Text → Option Text
lowered none = none
lowered (some s) = some (to_lower s)

abbrev pub strip_from : Text → Option Text → Option Text
strip_from p none = none
strip_from p (some s) = strip p s

-- protocol-connect: `parseContentType`, with `contentTypeRegExp`.
unfoldable pub parse_content_type : Option Text → Option ParsedType
unfolding connect_type
parse_content_type content_type =
    connect_type (strip_from (codes "application/") (lowered content_type))

abbrev pub is_some : Option Bool → Bool
is_some none = false
is_some (some b) = true

-- protocol-connect: `contentTypeUnaryRegExp`
unfoldable pub content_type_unary : Text → Bool
unfolding then_format
content_type_unary s = is_some (then_format (strip (codes "application/") (to_lower s)))

-- `\+?`
abbrev pub optional_plus : Option Text → Option Text
optional_plus none = none
optional_plus (some []) = some []
optional_plus (some (c ∷ s)) = if c == b'+' then some s else some (c ∷ s)

-- protocol-connect: `contentTypeStreamRegExp`
unfoldable pub content_type_stream : Text → Bool
unfolding then_format
content_type_stream s =
    is_some (then_format (optional_plus (strip (codes "application/connect") (to_lower s))))

abbrev pub content_type_unary_proto : Text
content_type_unary_proto = codes "application/proto"

abbrev pub content_type_unary_json : Text
content_type_unary_json = codes "application/json"

abbrev pub content_type_stream_proto : Text
content_type_stream_proto = codes "application/connect+proto"

abbrev pub content_type_stream_json : Text
content_type_stream_json = codes "application/connect+json"

-- protocol-connect: `parseEncodingQuery`
unfoldable pub parse_encoding_query : Option Text → Option ParsedType
parse_encoding_query none = none
parse_encoding_query (some encoding) =
    if text_eq encoding (codes "proto")
    then some (record { stream = false; binary = true })
    else if text_eq encoding (codes "json")
    then some (record { stream = false; binary = false })
    else none

-- `(?:\+(?:(json)(?:; ?charset=utf-?8)?|proto))?$`
pub plus_format : Text → Option Bool
unfolding format
plus_format [] = some true
plus_format (c ∷ s) = if c == b'+' then format s else none

grpc_type : Option Text → Option Bool
unfolding plus_format
grpc_type none = none
grpc_type (some s) = plus_format s

-- protocol-grpc: `parseContentType`, with `contentTypeRegExp`: the field `binary`.
unfoldable pub parse_grpc_type : Option Text → Option Bool
unfolding grpc_type
parse_grpc_type content_type =
    grpc_type (strip_from (codes "application/grpc") (lowered content_type))

abbrev pub grpc_proto : Text
grpc_proto = codes "application/grpc+proto"

abbrev pub grpc_json : Text
grpc_json = codes "application/grpc+json"

pub record WebType : Type 0 where
  pub text : Bool
  pub binary : Bool

abbrev pub web : Bool → Option Bool → Option WebType
web text none = none
web text (some binary) = some (record { text = text; binary = binary })

web_type : Option Text → Option WebType
unfolding plus_format
web_type none = none
web_type (some s) = elim (strip (codes "-text") s) [
  | none ↦ web false (plus_format s)
  | some t ↦ web true (plus_format t)
]

-- protocol-grpc-web: `parseContentType`, with `contentTypeRegExp`.
unfoldable pub parse_grpc_web_type : Option Text → Option WebType
unfolding web_type
parse_grpc_web_type content_type =
    web_type (strip_from (codes "application/grpc-web") (lowered content_type))

abbrev pub grpc_web_proto : Text
grpc_web_proto = codes "application/grpc-web+proto"

abbrev pub grpc_web_json : Text
grpc_web_json = codes "application/grpc-web+json"
