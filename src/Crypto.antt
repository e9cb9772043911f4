-- ===== src/Crypto.antt =====
-- Envelope encryption: crypto/service.go and crypto/adapters/local/local.go.
pub mod Cipher
pub mod Service
pub mod Local
pub mod RoundTrip
pub mod Panics
mod Tests
