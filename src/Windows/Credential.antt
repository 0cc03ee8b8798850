-- ===== src/Windows/Credential.antt =====
-- `writeCredentialFile` and `readCredentialFile` of internal/service/account_windows.go: a password
-- goes from one process to the next through a file.
pub mod Laws
use termcp_relay.Prelude.{
  ℕ, Bool, true, false, not, ◌||◌, [], Option, none, some, if◌then◌else◌, Text,
}
use termcp_relay.Dict.{insert}
use termcp_relay.Host.Disk.{
  Disk, File, FileResult, content, failed, read_file, write_file, remove_file,
}

-- The answers of the system: the name of the new file that `os.CreateTemp` makes, whether the bits
-- can be set and the password be written, whether the file can be removed (after a failure to write
-- it is still open), and what is in it after such a failure.
pub record Handoff : Type 0 where
  pub temp : Option Text
  pub chmod_ok : Bool
  pub write_ok : Bool
  pub remove_ok : Bool
  pub left : Text

-- `os.CreateTemp`: a new file that its owner alone can read.
unfoldable pub create_temp : Disk → Text → Text → Disk
create_temp d path text = record d {
  files = insert path (record { content = text; mode = 0o600 }) d.files;
}

-- The part of `writeCredentialFile` that has the new file.
unfoldable pub fill : Disk → Handoff → Text → Text → Option Text × Disk
unfolding create_temp
fill d h password path =
    if not h.chmod_ok || not h.write_ok
    then (
      none,
      if h.remove_ok
          then remove_file (create_temp d path h.left) path
          else create_temp d path h.left,
    )
    else (some path, create_temp d path password)

unfoldable pub write_credential_file : Disk → Handoff → Text → Option Text × Disk
unfolding fill
write_credential_file d h password = elim h.temp [
  | none ↦ (none, d)
  | some path ↦ fill d h password path
]

unfoldable pub password_read : FileResult → Option Text
password_read (failed e) = none
password_read (content text) = some text

-- `readCredentialFile`: the file is gone in any case.
unfoldable pub read_credential_file : Disk → Text → Option Text × Disk
unfolding password_read
read_credential_file d path = (password_read (read_file d path), remove_file d path)
