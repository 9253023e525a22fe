-- ===== src/Http.antt =====
-- src/http and its headers: the request parser, the response printer and the socket loop.
pub mod Stream
pub mod Request
pub mod Frame
pub mod Response
pub mod Server
