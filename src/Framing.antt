-- ===== src/Framing.antt =====
-- internal/framing: the S2S wire frames. A byte slice is a list of numbers below 256; a
-- `CompressionType` is the uint8 that the source declares. zstd and gzip are parameters (`Codec`).
pub mod Types
pub mod Encode
pub mod Parser
pub mod Reader
pub mod RoundTrip
mod Examples
