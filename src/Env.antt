-- ===== src/Env.antt =====
-- internal/sshserver/env.go and the reading of the registry in env_windows.go: the environment
-- that a session's process is started with.
pub mod Path
pub mod Replace
pub mod Lookup
pub mod Expand
pub mod Layer
pub mod Compose
pub mod Session
