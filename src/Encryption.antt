-- ===== src/Encryption.antt =====
-- nats-micro/src/encryption: keys, request signatures, envelopes, encrypted headers, the builder of
-- encrypted requests, and the service's `EncryptedRequest`.
pub mod Crypto
pub mod Transcript
pub mod Envelope
pub mod Headers
pub mod Builder
pub mod Prepare
pub mod Opening
pub mod EndToEnd
pub mod Refused
pub mod Toy
mod Tests
