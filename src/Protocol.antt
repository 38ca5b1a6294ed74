-- ===== src/Protocol.antt =====
-- internal/protocol: the framed wire format.
pub mod Bytes
pub mod Frame
