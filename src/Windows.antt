-- ===== src/Windows.antt =====
-- The files of internal/service that are built for Windows alone.
pub mod Credential
pub mod Rights
pub mod State
pub mod CommandLine
pub mod Elevate
pub mod Account
pub mod Handover
pub mod Platform
