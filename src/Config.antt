-- ===== src/Config.antt =====
-- internal/config/config.go: the configuration, its defaults, its checks and the template file.
pub mod Template
pub mod Address
pub mod Settings
pub mod Normalize
pub mod Validate
pub mod Load
pub mod Init
