-- ===== src/Command.antt =====
-- The package cmd/eth-signer-mcp: the configuration, the checks of the files, and the startup.
pub mod Config
pub mod FilePerms
pub mod WindowsFilePerms
pub mod Startup
pub mod Serving
pub mod CommandLine
pub mod Program
pub mod Logging
