-- ===== src/Lib.antt =====
-- connect-es: the protocol core of the Connect library for TypeScript and its HTTP/2 connections.
--
-- The program sends messages between a client and a server by the Connect, gRPC and gRPC-Web
-- protocols. A message is serialized, compressed and put into an envelope (a byte of flags, four
-- bytes of length, the payload); envelopes are joined to a stream of bytes, which arrives in
-- arbitrary chunks and is split, decompressed and parsed again. Errors carry one of 16 codes, which
-- travel by name or as an HTTP status. A client on Node.js keeps one HTTP/2 connection alive.
--
-- The files, and what of packages/ they model:
--   Prelude, with Prelude/Tests, Lists and Text: Boolean tests, lists and texts, UTF-8 as `TextEncoder`
--     and `TextDecoder` have it, `encodeURIComponent`; no code of its own.
--   Json: JSON values, as far as errors hold them.
--   Headers, with Headers/Laws, Order and Visible: the `Headers` of the Fetch API, as a sorted list of fields.
--   ErrorJson, ErrorJson/Laws, ErrorJson/Defects: connect/src/protocol-connect/error-json.ts
--     (`errorFromJson`, `errorToJson`).
--   EndStream, EndStream/Laws: connect/src/protocol-connect/end-stream.ts (`endStreamFromJson`,
--     `endStreamToJson`) and `appendHeaders` of connect/src/http-headers.ts.
--   TrailerMux, TrailerMux/Fields, TrailerMux/Laws: connect/src/protocol-connect/trailer-mux.ts.
--   Code, Code/Names, Code/HttpStatus: connect/src/code.ts, protocol-connect/code-string.ts, and
--     http-status.ts of protocol-connect and protocol-grpc (`codeToString`, `codeFromString`,
--     `codeFromHttpStatus`, `codeToHttpStatus`).
--   ConnectError, ConnectError/Laws: connect/src/connect-error.ts (`ConnectError`, its constructor,
--     `from`, `findDetails`), and the results of code that throws.
--   Limits: connect/src/protocol/limit-io.ts, all functions.
--   Compression, Compression/Laws: connect/src/protocol/compression.ts (`compressionNegotiate`).
--   Timeout, Timeout/Laws: parse-timeout.ts and the timeout of request-header.ts in
--     connect/src/protocol-connect and connect/src/protocol-grpc (`parseTimeout`, `requestHeader`).
--   Envelope, Envelope/Encode, Envelope/Reader with its laws and defects:
--     connect/src/protocol/envelope.ts (`encodeEnvelope`, `encodeEnvelopes`, `envelopeCompress`,
--     `envelopeDecompress`, `createEnvelopeReadableStream`).
--   ContentType, ContentType/Laws: content-type.ts of connect/src/protocol-connect, protocol-grpc and
--     protocol-grpc-web; ContentType/Matcher and its child: `contentTypeMatcher` of
--     connect/src/protocol/content-type-matcher.ts, with its cache.
--   BinaryHeader: `encodeBinaryHeader` and `decodeBinaryHeader` of connect/src/http-headers.ts.
--   TrailerStatus and its children: connect/src/protocol-grpc/trailer-status.ts
--     (`setTrailerStatus`, `findTrailerError`) and validate-trailer.ts.
--   RequestHeader and its children: request-header.ts and headers.ts of the three protocols.
--   ValidateResponse: validate-response.ts of the three protocols.
--   Serialization, Serialization/Laws: connect/src/protocol/serialization.ts.
--   Universal, Universal/Negotiation: connect/src/protocol/universal.ts and `negotiateProtocol` of
--     universal-handler.ts. UniversalClient: universal-handler-client.ts and create-method-url.ts.
--   RunCall, RunCall/Laws: connect/src/protocol/run-call.ts.
--   Handler, Handler/Invoke: the options of universal-handler.ts, connect/src/implementation.ts,
--     connect/src/protocol/invoke-implementation.ts and normalize.ts.
--   Grpc/Transport, Grpc/Handler: transport.ts and handler-factory.ts of connect/src/protocol-grpc.
--     Grpc/Negotiated, Grpc/Status, Grpc/Served, Grpc/Stages and Grpc/Received prove the stages of
--     a call, and Grpc/Call puts them together, from the transport to the implementation and back.
--   Version: version.ts and query-params.ts of connect/src/protocol-connect; GetRequest: get-request.ts.
--   Connect: the variants for bytes in error-json.ts and end-stream.ts. Connect/UnaryBody,
--     Connect/Handler and Connect/StreamHandler: the two handlers of handler-factory.ts;
--     Connect/Transport: transport.ts; Connect/Answers, Connect/UnaryErrors and
--     Connect/UnaryMessages: what the client of a unary call reads from the answer of its handler.
--     Connect/Ends, Connect/Heads, Connect/Streamed,
--     Connect/Served and Connect/Received prove the stages of a streaming call, and Connect/Call puts
--     them together.
--   Stream: asynchronous iterables, as the values that they yield and how they end.
--   AsyncIterable and its children: the transforms of connect/src/protocol/async-iterable.ts:
--     AsyncIterable/Split for `transformSplitEnvelope`, AsyncIterable/Envelopes for serializing,
--     parsing and compressing (Plain and Ended: the way of messages without and with a message for
--     the end), AsyncIterable/ReadAll for `readAllBytes`.
--   WritableIterable and its children: `createWritableIterable` of the same file. `State` holds the
--     variables of the closure, and there is one function for each method.
--   Http2/NodeError, Http2/NodeError/Chain: connect-node/src/node-error.ts.
--   Http2/Session and its children: `ready()` of connect-node/src/http2-session-manager.ts.
--     `Session` holds the variables of the closure and the live timers; Http2/Session/Handlers has
--     one function for each method and listener, Http2/Session/Events their union as steps.
--   Http2/Manager and its children: the class `Http2SessionManager`, `connect()` and `verify()`.
--     The states of the manager are `Phase`; a state that holds a connection holds its number.
--   Tests and its children: the results at concrete inputs.
--
-- How the code is read. Asynchronous iterables are pulled by one consumer, so a stream is a list of
-- values with an end; a chunk is a list of bytes. Where several parties act, as on a queue or a
-- connection, there is a state and a step for each call and each turn of a waiting call, in any
-- order. Code that throws returns a result. Numbers are natural numbers; 32-bit shifts are written
-- out with their wrap-around. Parameters stand for serialization, compression, message types, and
-- for the flags and events of Node.js's connections.
--
-- Bounds and fuel. Splitting a buffer into envelopes has the length of the buffer as fuel, which
-- is enough since each envelope takes five bytes or more; a reader of n envelopes has n + 1 pulls as
-- fuel; printing a number n in decimal has n + 1 as fuel; the chain of the causes of an error has the
-- size of the heap and one more.
--
-- Calls. An implementation is a function of its input and its context; what it leaves in the headers
-- and the trailers of its context is part of what it returns, since the handler sends the headers with
-- the first bytes and the trailers after the last. The client of Grpc/Call and Connect/Call reaches
-- the handlers of the same process, as the tests of an application do.
--
-- Not modelled: signals that abort and deadlines; the handler, the transport and the trailers of
-- gRPC-Web; the router, and the clients over a transport, which compose the parts above; generated
-- code, the code generator, the migration tool, and the glue to web frameworks, which hold no protocol
-- logic.
pub mod Prelude
pub mod BinaryHeader
pub mod Code
pub mod ContentType
pub mod Json
pub mod ErrorJson
pub mod EndStream
pub mod Grpc
pub mod Handler
pub mod Headers
pub mod Http2
pub mod ConnectError
pub mod Limits
pub mod Compression
pub mod Envelope
pub mod RequestHeader
pub mod Serialization
pub mod Stream
pub mod Timeout
pub mod TrailerMux
pub mod TrailerStatus
pub mod Universal
pub mod UniversalClient
pub mod RunCall
pub mod AsyncIterable
pub mod Tests
pub mod ValidateResponse
pub mod Version
pub mod GetRequest
pub mod Connect
pub mod WritableIterable
