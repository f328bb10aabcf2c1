-- ===== src/Server.antt =====
-- memrpc/src/server/rpc_server.cpp, one module for each of its parts.
pub mod Executor
pub mod Completions
pub mod State
pub mod Writer
pub mod Requests
pub mod Dispatch
pub mod Lifecycle
mod Examples
