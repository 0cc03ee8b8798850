-- ===== src/Host.antt =====
-- What the program takes from the operating system: paths (Go's `path/filepath`) and files.
pub mod Paths
pub mod Disk
