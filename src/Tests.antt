-- ===== src/Tests.antt =====
-- The theorems applied to concrete inputs.
mod Codes
mod Envelopes
mod Queues
mod Connections
mod Negotiation
mod Trailers
mod Errors
mod Codec
mod ContentTypes
mod Statuses
mod Calls
mod Unary
mod Streams
