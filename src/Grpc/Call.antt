-- ===== src/Grpc/Call.antt =====
-- The whole way of a streaming call over gRPC: from the transport of a client, through the client of
-- handlers in the same process, to the handler and the implementation, and back.
use connect_es.Prelude.{ℕ, Option, List}
use connect_es.Prelude.Text.{Text}
use connect_es.Headers.{Headers}
use connect_es.Compression.{Compression}
use connect_es.Serialization.{MessageType}
use connect_es.Universal.{UniversalHandler}
use connect_es.TrailerStatus.{Protobuf}
use connect_es.Handler.{HandlerOptions, MethodImpl}
use connect_es.Grpc.Transport.{TransportOptions}
use connect_es.TrailerStatus.Sendable.{IsFaithful}
use connect_es.Grpc.Negotiated.{agreed}

module _ {I O P : Type 0} (p : Protobuf) (show_ms : ℕ → Text) (input : MessageType I)
    (output : MessageType O) (new_type : P → O) (server : HandlerOptions) (impl : MethodImpl I O P)
    (client : TransportOptions) (f : IsFaithful p) (pathname : Text → Text)
    (handlers : List UniversalHandler) (handler : UniversalHandler) where
  abbrev agreed_compression : Option Compression
  agreed_compression = (agreed server client).response
