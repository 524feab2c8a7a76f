-- ===== src/Bitwarden.antt =====
-- The Bitwarden provider of internal/provider: the items (bitwarden_types.go), the cryptography
-- (bitwarden_crypto.go), the client (bitwarden_client.go) and the provider (bitwarden.go).
pub mod Crypto
pub mod Items
pub mod Client
pub mod Provider
