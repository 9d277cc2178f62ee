-- ===== src/Http.antt =====
-- frontend/src/http.h and http_reader.h: requests and responses of the frontend. What a peer sent is
-- the list of the bytes that are still unread.
pub mod Text
pub mod Message
pub mod Multipart
pub mod Reader
pub mod Chunked
