-- ===== src/Protocol.antt =====
-- protocol.go: frames, their header, the body codecs and the decoder; and the part of connection.go
-- that lays a frame out.
pub mod Types
pub mod Codec
pub mod Names
pub mod Validate
pub mod Decode
pub mod Frame
pub mod Accepted
pub mod Layout
pub mod RoundTrip
pub mod Accepts
pub mod Canonical
pub mod Encoded
pub mod Pieces
pub mod Reading
