-- ===== src/Tests.antt =====
-- Runs at concrete inputs, and the theorems applied at inputs that meet their hypotheses.
mod Cluster
mod Queue
mod Names
mod Vaults
mod Ciphers
mod Folders
mod Requests
mod Vault
mod Sessions
mod Startup
mod Stored
