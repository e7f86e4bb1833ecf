-- ===== src/Http.antt =====
-- src/core/http.cpp and include/localsend/http.hpp: the HTTP server and client, by parts. Sockets, TLS,
-- time and randomness are parameters of the parts that use them.
pub mod Url
pub mod Stream
pub mod Chunked
pub mod Headers
pub mod Server
pub mod Client
pub mod Connection
