-- ===== src/Server.antt =====
-- src/kkmha/server_*: the request cache, the handlers, and the way of a parsed request through
-- authorization to its handler.
pub mod Settings
pub mod Handler
pub mod Cache
pub mod Default
pub mod Ping
pub mod Hitman
pub mod Static
pub mod KkmOp
pub mod Core
