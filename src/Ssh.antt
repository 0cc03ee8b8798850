-- ===== src/Ssh.antt =====
-- internal/sshserver: the host key, the authentication and the server. The environment of sessions
-- (env.go) is in Env.antt.
pub mod HostKey
pub mod Auth
pub mod Session
pub mod Server
