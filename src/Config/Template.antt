-- ===== src/Config/Template.antt =====
-- `configTemplate`, the text that `WriteTemplate` writes and that is shipped as config.example.toml.
use termcp_relay.Prelude.{String, List, [], ◌∷◌, ◌++◌, Text, codes}

abbrev lines : List String
lines =
    "# termcp-relay configuration file." ∷ "#"
    ∷ "# Paths for host_key and authorized_keys are resolved relative to this file's"
    ∷ "# own directory, so co-locate the key files here. After editing, start with:" ∷ "#"
    ∷ "#   termcp-relay --config config.toml" ∷ "" ∷ "[server]"
    ∷ "# Address to listen on. \"0.0.0.0:2222\" accepts from the network;"
    ∷ "# \"127.0.0.1:2222\" is local-only." ∷ "addr = \"0.0.0.0:2222\"" ∷ ""
    ∷ "# RSA host key. Auto-generated (RSA-2048, 0600 perms) on first run if the file"
    ∷ "# is missing, then reused for a stable server fingerprint. No external tools"
    ∷ "# (ssh-keygen) required." ∷ "host_key = \"host_key.pem\"" ∷ ""
    ∷ "# Override the interactive shell, whitespace-split into argv, e.g. \"pwsh -NoLogo\"."
    ∷ "# Leave empty to auto-detect: pwsh -> powershell -> cmd on Windows; $SHELL on Unix."
    ∷ "shell = \"\"" ∷ ""
    ∷ "# Working directory for SSH sessions. If empty, falls back to the user's home"
    ∷ "# directory (like nssm / normal SSH logins). Relative paths resolve relative to"
    ∷ "# this config file." ∷ "work_dir = \"\"" ∷ ""
    ∷ "# Banner shown to the client before authentication." ∷ "banner = \"termcp-relay\"" ∷ ""
    ∷ "# Log level: debug | info | warn | error" ∷ "log_level = \"info\"" ∷ ""
    ∷ "# Permit ssh -L (direct-tcpip) local port forwarding." ∷ "allow_local_forward = true" ∷ ""
    ∷ "# Permit ssh -R (tcpip-forward) reverse port forwarding." ∷ "allow_remote_forward = true"
    ∷ "" ∷ "" ∷ "# Authentication. Configure at least one method, or set no_auth = true. Running"
    ∷ "# without auth on a non-loopback addr is refused." ∷ "[auth]"
    ∷ "# Accept every client without challenge. Refused on non-loopback binds." ∷ "no_auth = false"
    ∷ "" ∷ "# Password auth (constant-time compared). When username is empty, any username"
    ∷ "# is accepted as long as the password matches." ∷ "username = \"\"" ∷ "password = \"\"" ∷ ""
    ∷ "# Public-key auth: path to an OpenSSH authorized_keys file (one key per line)."
    ∷ "# Uncomment and point at a file to enable." ∷ "# authorized_keys = \"authorized_keys\"" ∷ []

-- Each line ends in a newline.
unlines : List String → Text
unlines [] = []
unlines (l ∷ ls) = codes l ++ (b'\n' ∷ unlines ls)

unfoldable pub config_template : Text
unfolding unlines
config_template = unlines lines
