-- ===== src/Version.antt =====
-- packages/connect/src/protocol-connect/version.ts and query-params.ts
use connect_es.Prelude.{Option, none, some, ◌++◌, if◌then◌else◌}
use connect_es.Prelude.Text.{Text, codes, text_eq}
use connect_es.Code.{invalid_argument}
use connect_es.Headers.{Headers, get}
use connect_es.ConnectError.{Result, ok, raise}
use connect_es.RequestHeader.{header_protocol_version, protocol_version}

abbrev pub param_connect_version : Text
param_connect_version = codes "connect"

abbrev pub param_encoding : Text
param_encoding = codes "encoding"

abbrev pub param_compression : Text
param_compression = codes "compression"

abbrev pub param_base64 : Text
param_base64 = codes "base64"

abbrev pub param_message : Text
param_message = codes "message"

abbrev quoted : Text → Text
quoted s = codes "\"" ++ (s ++ codes "\"")

-- The test of `v`, with the two messages up to the texts in quotes.
pub checked_version : Text → Text → Text → Option Text → Result (Unit {0})
unfolding raise
checked_version missing wrong version none =
    raise (codes "missing required " ++ (missing ++ (codes " to " ++ quoted version)))
      invalid_argument
checked_version missing wrong version (some v) =
    if text_eq v version
    then ok tt
    else raise (wrong ++ (codes " must be " ++ (quoted version ++ (codes ": got " ++ quoted v))))
        invalid_argument

-- `requireProtocolVersionHeader`
unfoldable pub require_protocol_version_header : Headers → Result (Unit {0})
unfolding checked_version get
require_protocol_version_header h =
    checked_version (codes "header: set " ++ header_protocol_version) header_protocol_version
      protocol_version (get header_protocol_version h)

-- `requireProtocolVersionParam`, with the parameters of the query.
unfoldable pub require_protocol_version_param : (Text → Option Text) → Result (Unit {0})
unfolding checked_version
require_protocol_version_param params =
    checked_version (codes "parameter: set " ++ param_connect_version) param_connect_version
      (codes "v" ++ protocol_version) (params param_connect_version)
