-- ===== src/Serve.antt =====
-- src/lserve.c: the HTTP server, from the bytes of a connection to the request that may reach the handler.
pub mod Buffer
pub mod Auth
pub mod Parse
pub mod Turns
pub mod Clients
