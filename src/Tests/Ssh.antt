-- ===== src/Tests/Ssh.antt =====
-- A server, its keys and its clients. A key of the host is a text with a mark in front, and an
-- authorized key one letter.
use termcp_relay.Prelude.{
  ◌≡◌, ◌≢◌, refl, ◌↔◌, ◌⊎◌, ℕ, Bool, true, false, not, [], ◌∷◌, Option, none, some, ok, Result,
  arith, Text, codes, is_nil, keep,
}
use termcp_relay.Strings.{ascii, is_blank, fields}
use termcp_relay.Host.Paths.{rooted}
use termcp_relay.Host.Disk.{Disk, read_file, content, write_file, mkdir_all}
use termcp_relay.Config.Init.{make_parent}
use termcp_relay.Ssh.Auth.{Auth, password_ok, load_authorized_keys, keys_of}
use termcp_relay.Ssh.Auth.Laws.{
  Unusable, password_ok_iff, load_authorized_keys_lem, Consumes, Parses, keys_of-Parses,
}
use termcp_relay.Ssh.HostKey.{load_or_create_host_key, create_host_key, generate_host_key_pem}
use termcp_relay.Ssh.HostKey.Stable.{load_or_create_host_key_stable}
use termcp_relay.Ssh.Server.{Options, Server, NewError, handlers_of, new, start, stop}
use termcp_relay.Ssh.Server.Admission.{Credential, plain_library, is_admitted, new_admits}
use termcp_relay.Ssh.Server.Life.{
  IsConsistent, SameSettings, Reach, here, next, starts, stops, new-Reach,
}
use termcp_relay.Ssh.Session.{linux, Shells, session_command}
use termcp_relay.Ssh.Session.Laws.{session_command_lem}
use termcp_relay.Env.Replace.{is_entry_of, new_entry}

abbrev ann : Auth
ann = record {
  no_auth = false;
  username = codes "ann";
  password = codes "pw";
  authorized_keys = codes "k" ∷ [];
}

password_ok_iff_example : (password_ok ann (codes "ann") (codes "pw") ≡ true) ↔ (
    (is_nil ann.password ≡ false)
    × ((is_nil ann.username ≡ true) ⊎ (codes "ann" ≡ ann.username))
    × (codes "pw" ≡ ann.password))
password_ok_iff_example = password_ok_iff ann (codes "ann") (codes "pw")

abbrev one_letter : Text → Option (Text × Text)
one_letter [] = none
one_letter (c ∷ s) = some (c ∷ [], s)

one_letter-Consumes : Consumes one_letter
one_letter-Consumes [] found rest e = cc
one_letter-Consumes (c ∷ s) found rest e = ground arith

keys_of-Parses_example : Parses one_letter (codes "ab") (keys_of one_letter (codes "ab"))
keys_of-Parses_example = keys_of-Parses one_letter one_letter-Consumes (codes "ab")

abbrev nowhere : Text → Bool
nowhere path = false

abbrev key_disk : Disk
key_disk = record {
  files = (codes "/keys", record { content = codes "ab"; mode = 0o600 }) ∷ [];
  refuses_read = nowhere;
  refuses_write = nowhere;
  refuses_mkdir = nowhere;
}

load_authorized_keys_lem_example :
    let (e, a') = load_authorized_keys one_letter key_disk ann (codes "/keys") in
    ((is_blank (codes "/keys") ≡ true) × (e ≡ none) × (a' ≡ ann))
    ⊎ ((is_blank (codes "/keys") ≡ false)
        × Unusable one_letter (read_file key_disk (codes "/keys"))
        × (e ≢ none)
        × (a' ≡ ann))
    ⊎ ((raw : Text) × (read_file key_disk (codes "/keys") ≡ content raw)
        × (e ≡ none)
        × (is_nil a'.authorized_keys ≡ false)
        × (a' ≡ record ann { authorized_keys = keys_of one_letter raw }))
load_authorized_keys_lem_example = load_authorized_keys_lem one_letter key_disk ann (codes "/keys")

abbrev parse_marked : Text → Option Text
parse_marked [] = none
parse_marked (c ∷ s) = some s

abbrev pem : Option Text
pem = some (codes "!s")

abbrev disk_with_key : Disk
disk_with_key = (write_file key_disk (codes "/host") (codes "!s") 0o600).1

load_or_create_host_key_stable_example :
    load_or_create_host_key rooted parse_marked disk_with_key (codes "/host") (some (codes "!t"))
    ≡ (ok (codes "s"), disk_with_key)
unfolding load_or_create_host_key read_file create_host_key generate_host_key_pem make_parent
    mkdir_all write_file
load_or_create_host_key_stable_example =
    load_or_create_host_key_stable rooted parse_marked key_disk disk_with_key (codes "/host") pem
      (some (codes "!t")) (codes "s") refl

abbrev options : Options
options = record {
  addr = codes ":22";
  host_key_path = codes "/host";
  auth = some ann;
  shell_override = [];
  work_dir = [];
  banner = [];
  allow_local_fwd = true;
  allow_remote_fwd = false;
}

abbrev fresh_server : Server Text
fresh_server = record {
  opts = options;
  shell_override = [];
  work_dir = [];
  auth = ann;
  handlers = handlers_of options;
  host_keys = [];
  listener = none;
  started = false;
}

new_run : ◌≡◌ {A = Result NewError (Server Text)} (new options true) (ok fresh_server)
unfolding new
new_run = refl

new_admits_example :
    ((c : Credential) → plain_library.admits fresh_server.handlers c ≡ is_admitted ann c)
    × ((user host : Text) (port : ℕ)
        → (fresh_server.handlers.local_port_forwarding user host port ≡ true)
          × (fresh_server.handlers.reverse_port_forwarding user host port ≡ false))
unfolding new
new_admits_example = new_admits plain_library options true fresh_server refl

abbrev started_server : Server Text
started_server =
    (start rooted parse_marked fresh_server disk_with_key none (some (codes "[::]:22"))).0.1

start_run : started_server.started ≡ true
unfolding start load_or_create_host_key read_file write_file
start_run = refl

abbrev run_once : Reach rooted parse_marked fresh_server (stop started_server true).1
run_once =
    next (next here (starts fresh_server disk_with_key none (some (codes "[::]:22"))))
      (stops started_server true)

new-Reach_example :
    IsConsistent (stop started_server true).1
    × SameSettings fresh_server (stop started_server true).1
unfolding new
new-Reach_example =
    new-Reach rooted parse_marked options true fresh_server (stop started_server true).1 refl
      run_once

abbrev pub machine : Shells
machine = record {
  os = linux;
  look_path = λ name. some name;
  shell_variable = codes "/bin/zsh -l";
  stat_ok = nowhere;
}

session_command_run :
    (session_command machine [] [] [] (codes "TERM=dumb" ∷ []) (some (codes "xterm"))).args
    ≡ codes "/bin/zsh" ∷ codes "-l" ∷ []
unfolding session_command is_blank fields
session_command_run = refl

session_command_lem_example :
    let block = codes "TERM=dumb" ∷ codes "A=1" ∷ [] in
    let c = session_command machine [] [] [] block (some (codes "xterm")) in
    (is_nil c.args ≡ false)
    × (true ≡ false → c.args ≡ [])
    × (keep (λ kv. not (is_entry_of (codes "TERM") kv)) c.env
        ≡ keep (λ kv. not (is_entry_of (codes "TERM") kv)) block)
    × ((t : Text)
        → some (codes "xterm") ≡ some t
        → keep (is_entry_of (codes "TERM")) c.env ≡ new_entry (codes "TERM") t ∷ [])
    × (c.setsid ≡ true)
session_command_lem_example =
    session_command_lem machine [] [] [] (codes "TERM=dumb" ∷ codes "A=1" ∷ [])
      (some (codes "xterm"))
