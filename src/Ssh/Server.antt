-- ===== src/Ssh/Server.antt =====
-- internal/sshserver/server.go: the server's handlers, and its starting and stopping. The SSH
-- library, the network and the random numbers are arguments. The mutex makes each call of `Start`
-- and `Stop` one step; the goroutine that serves is the library's.
pub mod Admission
pub mod Life
use termcp_relay.Prelude.{
  ℕ, Bool, true, false, not, ◌&&◌, List, [], ◌∷◌, ◌++◌, Option, none, some, if◌then◌else◌, Text,
  is_nil, Result, ok, err,
}
use termcp_relay.Strings.{is_blank, trim_space}
use termcp_relay.Host.Paths.{Paths}
use termcp_relay.Host.Disk.{Disk}
use termcp_relay.Ssh.Auth.{Auth, password_ok, public_key_ok}
use termcp_relay.Ssh.HostKey.{KeyError, load_or_create_host_key}

pub record Options : Type 0 where
  pub addr : Text
  pub host_key_path : Text
  pub auth : Option Auth
  pub shell_override : Text
  pub work_dir : Text
  pub banner : Text
  pub allow_local_fwd : Bool
  pub allow_remote_fwd : Bool

-- The fields of the library's `ssh.Server` that the program sets, a handler that is nil as `none`.
-- A password is offered with a user's name; a forward names the user, a host and a port.
pub record Handlers : Type 0 where
  pub password_handler : Option (Text → Text → Bool)
  pub public_key_handler : Option (Text → Bool)
  pub local_port_forwarding : Text → Text → ℕ → Bool
  pub reverse_port_forwarding : Text → Text → ℕ → Bool
  pub banner : Text

pub record Server (Signer : Type 0) : Type 0 where
  pub opts : Options
  pub shell_override : Text
  pub work_dir : Text
  pub auth : Auth
  pub handlers : Handlers
  pub host_keys : List Signer
  pub listener : Option Text
  pub started : Bool

pub data NewError : Type 0 where
  addr_required allocate_pty : NewError

pub data StartError : Type 0 where
  already_started : StartError
  host_key : KeyError → StartError
  listen : StartError

abbrev pub open_auth : Auth
open_auth = record { no_auth = true; username = []; password = []; authorized_keys = [] }

abbrev pub auth_of : Options → Auth
auth_of opts = elim opts.auth [ none ↦ open_auth | some a ↦ a ]

-- The handlers that `New` installs.
unfoldable pub handlers_of : Options → Handlers
unfolding is_blank
handlers_of opts =
    let a = auth_of opts in
    record {
      password_handler =
          if not a.no_auth && not (is_nil a.password) then some (password_ok a) else none;
      public_key_handler =
          if not a.no_auth && not (is_nil a.authorized_keys) then some (public_key_ok a) else none;
      local_port_forwarding = λ user host port. opts.allow_local_fwd;
      reverse_port_forwarding = λ user host port. opts.allow_remote_fwd;
      banner = if is_blank opts.banner then [] else opts.banner;
    }

module _ {Signer : Type 0} where
  -- `New`; the flag is whether `SetOption` succeeds.
  unfoldable pub new : Options → Bool → Result NewError (Server Signer)
  unfolding handlers_of is_blank trim_space
  new opts set_option =
      if is_blank opts.addr
      then err addr_required
      else if not set_option
      then err allocate_pty
      else ok (record {
        opts = record opts { auth = some (auth_of opts) };
        shell_override = trim_space opts.shell_override;
        work_dir = trim_space opts.work_dir;
        auth = auth_of opts;
        handlers = handlers_of opts;
        host_keys = [];
        listener = none;
        started = false;
      })

  -- The end of `Start`, with the host key at hand: `bound` is the address that `net.Listen` bound.
  unfoldable pub listen_with :
      Server Signer → Option Text → Result KeyError Signer → Option StartError × Server Signer
  listen_with s bound (err e) = (some (host_key e), s)
  listen_with s none (ok signer) =
      (some listen, record s { host_keys = s.host_keys ++ (signer ∷ []) })
  listen_with s (some addr) (ok signer) = (
    none,
    record s { host_keys = s.host_keys ++ (signer ∷ []); listener = some addr; started = true },
  )

  module _ (paths : Paths) (parse_private_key : Text → Option Signer) where
    -- `Start`: the error, if any, the server and the disk.
    unfoldable pub start :
        Server Signer
        → Disk
        → Option Text
        → Option Text
        → (Option StartError × Server Signer) × Disk
    unfolding listen_with
    start s d random bound =
        if s.started
        then ((some already_started, s), d)
        else let (key, d') =
            load_or_create_host_key paths parse_private_key d s.opts.host_key_path random in
          (listen_with s bound key, d')

  -- `Addr`
  unfoldable pub addr_of : Server Signer → Text
  addr_of s = elim s.listener [ none ↦ s.opts.addr | some addr ↦ addr ]

  -- `Stop`: whether an error is reported, and the server. `closed` is whether the library's `Close`
  -- succeeds. The listener is closed and the field keeps it.
  unfoldable pub stop : Server Signer → Bool → Bool × Server Signer
  stop s closed = if not s.started then (false, s) else (not closed, record s { started = false })
