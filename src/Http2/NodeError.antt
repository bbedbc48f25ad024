-- ===== src/Http2/NodeError.antt =====
-- packages/connect-node/src/node-error.ts: the errors of node, as Connect errors.
pub mod Chain
use connect_es.Prelude.{
  ℕ, ◌+◌, Bool, false, Option, none, some, List, [], ◌∷◌, ◌++◌, ltb, ◌==◌, if◌then◌else◌, or_else,
  any,
}
use connect_es.Prelude.Text.{Text, codes, text_eq}
use connect_es.Code.{
  Code, canceled, permission_denied, resource_exhausted, aborted, internal, unavailable,
}
use connect_es.ConnectError.{ConnectError, Reason, connect_error, thrown, new_error, from}

-- The enum `H2Code`.
abbrev pub h2_codes : List (ℕ × Text)
h2_codes =
    (0x1, codes "PROTOCOL_ERROR")
    ∷ (0x2, codes "INTERNAL_ERROR")
    ∷ (0x3, codes "FLOW_CONTROL_ERROR")
    ∷ (0x4, codes "SETTINGS_TIMEOUT")
    ∷ (0x5, codes "STREAM_CLOSED")
    ∷ (0x6, codes "FRAME_SIZE_ERROR")
    ∷ (0x7, codes "REFUSED_STREAM")
    ∷ (0x8, codes "CANCEL")
    ∷ (0x9, codes "COMPRESSION_ERROR")
    ∷ (0xa, codes "CONNECT_ERROR")
    ∷ (0xb, codes "ENHANCE_YOUR_CALM")
    ∷ (0xc, codes "INADEQUATE_SECURITY")
    ∷ (0xd, codes "HTTP_1_1_REQUIRED")
    ∷ []

-- `H2Code[n]`
h2_code_name : ℕ → List (ℕ × Text) → Option Text
h2_code_name n [] = none
h2_code_name n ((code, name) ∷ rest) =
    let others = h2_code_name n rest in if code == n then some name else others

among : ℕ → List ℕ → Bool
among n ns = any (◌==◌ n) ns

-- The code that the switch gives to an HTTP/2 error code.
unfoldable pub h2_reset_code : ℕ → Option Code
unfolding among
h2_reset_code n =
    if among n (0x1 ∷ 0x2 ∷ 0x3 ∷ 0x4 ∷ 0x6 ∷ 0x9 ∷ 0xa ∷ [])
    then some internal
    else if n == 0x7
    then some unavailable
    else if n == 0x8
    then some canceled
    else if n == 0xb
    then some resource_exhausted
    else if n == 0xc
    then some permission_denied
    else if n == 0xd
    then some permission_denied
    else none

-- `toString(16)` of the codes of `H2Code`, which have one digit.
hex_digit : ℕ → Text
hex_digit n = (if ltb n 10 then 48 + n else 87 + n) ∷ []

h2_message : ℕ → Text
unfolding h2_code_name hex_digit
h2_message n =
    let name = or_else (h2_code_name n h2_codes) (codes "undefined") in
    codes "http/2 stream closed with error code "
    ++ (name ++ (codes " (0x" ++ (hex_digit n ++ codes ")")))

-- `connectErrorFromH2ResetCode`; an enum name that is missing prints as "undefined".
unfoldable pub connect_error_from_h2_reset_code : ℕ → Option ConnectError
unfolding h2_message h2_reset_code
connect_error_from_h2_reset_code n = elim (h2_reset_code n) [
  | none ↦ none
  | some code ↦ some (new_error (h2_message n) code [])
]

-- The `code` properties of the errors that `unwrapNodeErrorChain` finds.
abbrev pub Chain : Type 0
Chain = List (Option Text)

abbrev has_code : List Text → Chain → Bool
has_code names chain =
    any (λ code. elim code [ none ↦ false | some c ↦ any (text_eq c) names ]) chain

-- The code that `connectErrorFromNodeReason` picks for a chain.
unfoldable pub node_code : Chain → Code
node_code chain =
    if has_code (codes "ERR_STREAM_WRITE_AFTER_END" ∷ []) chain
    then aborted
    else if has_code
        (codes "ERR_STREAM_DESTROYED" ∷ codes "ERR_HTTP2_INVALID_STREAM" ∷ codes "ECONNRESET" ∷ [])
        chain
    then aborted
    else if has_code
        (codes "ETIMEDOUT" ∷ codes "ENOTFOUND" ∷ codes "EAI_AGAIN" ∷ codes "ECONNREFUSED" ∷ [])
        chain
    then unavailable
    else internal

-- `if (ce !== reason) ce.cause = reason`
abbrev with_cause : Reason → ConnectError → ConnectError
with_cause (connect_error e) ce = ce
with_cause (thrown t) ce = record ce { cause = some t }

-- `connectErrorFromNodeReason`, for a reason and the chain of its causes.
unfoldable pub connect_error_from_node_reason : Chain → Reason → ConnectError
unfolding node_code from
connect_error_from_node_reason chain reason = with_cause reason (from reason (node_code chain))
