-- ===== src/Protocol.antt =====
-- common/include/ramkolfx/protocol.hpp and common/src/protocol.cpp, the control protocol.
pub mod Types
pub mod Bytes
pub mod Decode
pub mod Requests
pub mod Responses
pub mod Replies
pub mod FieldRoundTrip
pub mod Framing
pub mod Request
pub mod PlainRequests
pub mod AppRequests
pub mod RequestRoundTrip
pub mod ListRoundTrip
pub mod ArrayRoundTrip
pub mod ResponseRoundTrip
pub mod CatalogRoundTrip
pub mod ReadBounds
pub mod Accepts
pub mod SocketPath
