-- ===== src/Cmd.antt =====
-- The commands of infrastructure/cmd, as far as they decide and compute.
pub mod Ingestd
pub mod Batcherd
pub mod Healthcheck
pub mod Keyadmin
pub mod Loadtest
pub mod Mockdrivers
pub mod Requestd
pub mod Pages
