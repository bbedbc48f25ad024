-- ===== src/Handler.antt =====
-- What the handlers of all protocols share: the options of packages/connect/src/protocol/
-- universal-handler.ts, the context and the specification of packages/connect/src/implementation.ts, and
-- packages/connect/src/protocol/invoke-implementation.ts; and what the handlers do alike with errors.
-- Signals and deadlines are not part of it.
pub mod Invoke
use connect_es.Prelude.{ℕ, Bool, false, Option, none, some, List, [], or_else}
use connect_es.Prelude.Text.{Text, codes}
use connect_es.Headers.{Headers}
use connect_es.ConnectError.{
  ConnectError, Reason, connect_error, thrown, new_error_with, Result, ok, err, map_result,
}
use connect_es.Limits.{IoLimits, validate_read_write_max_bytes}
use connect_es.Compression.{Compression}
use connect_es.Stream.{Stream}
use connect_es.Code.{internal}

-- `UniversalHandlerOptions`, less the options of the serializations and the signal.
pub record HandlerOptions : Type 0 where
  pub accept_compression : List Compression
  pub compress_min_bytes : ℕ
  pub read_max_bytes : ℕ
  pub write_max_bytes : ℕ
  pub max_timeout_ms : ℕ
  pub require_connect_protocol_header : Bool

-- `Partial<UniversalHandlerOptions>`
pub record PartialOptions : Type 0 where
  pub accept_compression : Option (List Compression)
  pub compress_min_bytes : Option ℕ
  pub read_max_bytes : Option ℕ
  pub write_max_bytes : Option ℕ
  pub max_timeout_ms : Option ℕ
  pub require_connect_protocol_header : Option Bool

abbrev max_safe_integer : ℕ
max_safe_integer = 0x1fffffffffffff

-- `validateUniversalHandlerOptions`
unfoldable pub validate_universal_handler_options : PartialOptions → Result HandlerOptions
unfolding validate_read_write_max_bytes
validate_universal_handler_options opt =
    map_result
      (λ (l : IoLimits). record {
        accept_compression = or_else opt.accept_compression [];
        compress_min_bytes = l.compress_min_bytes;
        read_max_bytes = l.read_max_bytes;
        write_max_bytes = l.write_max_bytes;
        max_timeout_ms = or_else opt.max_timeout_ms max_safe_integer;
        require_connect_protocol_header = or_else opt.require_connect_protocol_header false;
      })
      (validate_read_write_max_bytes opt.read_max_bytes opt.write_max_bytes opt.compress_min_bytes)

-- `HandlerContext`, as far as implementations read it; the headers and the trailers of the response
-- are as the handler has made them.
pub record HandlerContext : Type 0 where
  pub request_method : Text
  pub request_header : Headers
  pub response_header : Headers
  pub response_trailer : Headers
  pub timeout_ms : Option ℕ
  pub protocol_name : Text

-- The headers when the first bytes of the body are sent, and the trailers when the body ends: an
-- implementation sets both in its context.
pub record Left : Type 0 where
  pub header : Headers
  pub trailer : Headers

abbrev pub unchanged : HandlerContext → Left
unchanged c = record { header = c.response_header; trailer = c.response_trailer }

-- What an implementation returns for a message: a message, or what it is made from.
pub data Output (O P : Type 0) : Type 0 where
  message : O → Output O P
  partial : P → Output O P

-- `normalize`, with the constructor of the message type.
abbrev pub normalize : {O P : Type 0} → (P → O) → Output O P → O
normalize new_type (message o) = o
normalize new_type (partial p) = new_type p

-- `MethodImplSpec`, by its kind: what is returned, and what is left in the context.
pub data MethodImpl (I O P : Type 0) : Type 0 where
  unary_impl : (I → HandlerContext → Result (Output O P) × Left) → MethodImpl I O P
  server_streaming_impl : (I → HandlerContext → Stream (Output O P) × Left) → MethodImpl I O P
  client_streaming_impl :
      (Stream I → HandlerContext → Result (Output O P) × Left) → MethodImpl I O P
  bidi_streaming_impl : (Stream I → HandlerContext → Stream (Output O P) × Left) → MethodImpl I O P

-- What the first transform of the request raises: the error of the compression, then that of the
-- timeout.
abbrev pub throw_if : Option ConnectError → Result (Option (List ℕ)) → Result (Option (List ℕ))
throw_if none rest = rest
throw_if (some e) rest = err (connect_error e)

abbrev pub prelude : Option ConnectError → Option ConnectError → Result (Option (List ℕ))
prelude compression_error timeout_error =
    throw_if compression_error (throw_if timeout_error (ok none))

-- The error that the trailers show for what was thrown.
unfoldable pub shown_error : Reason → ConnectError
unfolding new_error_with
shown_error (connect_error e) = e
shown_error (thrown t) = new_error_with (codes "internal error") internal none none (some t)
