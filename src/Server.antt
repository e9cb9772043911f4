-- ===== src/Server.antt =====
-- The package server: errors and what a client is told of them (server/Error.go, server/Response.go),
-- the middlewares (server/Middleware.go), and the HTTP and gRPC servers (server/Server.go,
-- server/Grpc.go, server/Config.go).
pub mod Errors
pub mod Disclosure
pub mod Redaction
pub mod Violations
pub mod Building
pub mod Lifecycle
pub mod Grpc
pub mod Serving
mod Tests
