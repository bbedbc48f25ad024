-- ===== src/Http2.antt =====
-- The HTTP/2 client connections of packages/connect-node/src: the errors of node
-- (node-error.ts), one connection and its keep-alive, and their manager
-- (http2-session-manager.ts).
pub mod NodeError
pub mod Session
pub mod Manager
