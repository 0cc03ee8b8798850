-- ===== src/Service.antt =====
-- internal/service/service.go: the daemon as a service.
pub mod WorkDir
pub mod Program
pub mod SystemdScript
pub mod Definition
pub mod State
pub mod Foreground
pub mod Log
pub mod Hints
pub mod Stubs
