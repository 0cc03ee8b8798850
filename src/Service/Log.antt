-- ===== src/Service/Log.antt =====
-- `newLogHandler`: the least level that is logged, and the file that the log is added to.
pub mod Laws
use termcp_relay.Prelude.{
  ℕ, Bool, true, false, [], Option, none, some, if◌then◌else◌, Text, codes, ◌=t=◌, Result, ok, err,
}
use termcp_relay.Strings.{trim_space, is_blank}
use termcp_relay.Host.Disk.{Disk, FileError, open_append}

pub data Level : Type 0 where
  debug info warn error : Level

-- The switch on the level.
unfoldable pub min_level : Text → Level
unfolding ◌=t=◌ trim_space
min_level level =
    let name = trim_space level in
    if name =t= codes "debug"
    then debug
    else if name =t= codes "warn"
    then warn
    else if name =t= codes "error"
    then error
    else info

-- A handler writes to the file, if there is one, and to standard error.
pub record Handler : Type 0 where
  pub min : Level
  pub file : Option Text

unfoldable pub with_file : Level → Text → Option FileError × Disk → Result FileError Handler × Disk
with_file level file (some e, d) = (err e, d)
with_file level file (none, d) = (ok (record { min = level; file = some file }), d)

-- `newLogHandler`
unfoldable pub new_log_handler : Disk → Text → Text → Result FileError Handler × Disk
unfolding min_level with_file is_blank open_append
new_log_handler d level file =
    if is_blank file
    then (ok (record { min = min_level level; file = none }), d)
    else with_file (min_level level) file (open_append d file 0o600)
