-- ===== src/Signing.antt =====
-- internal/signing of apps/eth-signer-mcp.
pub mod Errors
pub mod Numbers
pub mod Hex
pub mod Address
pub mod Request
pub mod Validate
pub mod Zero
pub mod Keystore
pub mod Vault
pub mod Types
pub mod Build
pub mod Signer
pub mod Service
pub mod Fixtures
pub mod Sentinel
pub mod Secret
