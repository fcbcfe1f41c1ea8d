-- ===== src/Examples.antt =====
-- Concrete instances of what the program takes from elsewhere, and the theorems at concrete inputs.
pub mod Addresses
pub mod Validation
pub mod Vault
pub mod Signing
pub mod Server
pub mod Startup
pub mod Leaks
pub mod Sharing
pub mod Http
pub mod Service
pub mod Fixtures
pub mod Logging
