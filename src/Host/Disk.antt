-- ===== src/Host/Disk.antt =====
-- Files, as far as the program reads and writes them: contents with permission bits, and the
-- operations that the system refuses.
use termcp_relay.Prelude.{ℕ, Bool, [], Option, none, some, if◌then◌else◌, Text, is_some}
use termcp_relay.Dict.{Dict, lookup, insert, remove}

pub record File : Type 0 where
  pub content : Text
  pub mode : ℕ

-- A write that is refused leaves the file as it was; what a full disk cuts off is not modelled.
pub record Disk : Type 0 where
  pub files : Dict File
  pub refuses_read : Text → Bool
  pub refuses_write : Text → Bool
  pub refuses_mkdir : Text → Bool

-- What a system call reports, as far as the program tells errors apart.
pub data FileError : Type 0 where
  not_exist : FileError
  exist : FileError
  refused : FileError

pub data FileResult : Type 0 where
  content : Text → FileResult
  failed : FileError → FileResult

-- `os.ReadFile`
unfoldable pub read_file : Disk → Text → FileResult
unfolding lookup
read_file d path =
    if d.refuses_read path
    then failed refused
    else elim (lookup path d.files) [ none ↦ failed not_exist | some f ↦ content f.content ]

-- `os.Stat`: whether it reports no error.
unfoldable pub stat_ok : Disk → Text → Bool
unfolding lookup
stat_ok d path = is_some (lookup path d.files)

-- `os.WriteFile`: an existing file keeps its permission bits.
unfoldable pub write_file : Disk → Text → Text → ℕ → Option FileError × Disk
unfolding lookup insert
write_file d path text mode = if d.refuses_write path then (some refused, d) else (
  none,
  record d {
    files =
        insert path
          (elim (lookup path d.files) [
            | none ↦ record { content = text; mode = mode }
            | some f ↦ record f { content = text }
          ])
          d.files;
  },
)

-- `os.OpenFile` with O_CREATE, O_EXCL and O_WRONLY.
unfoldable pub create_file : Disk → Text → ℕ → Option FileError × Disk
unfolding lookup insert
create_file d path mode = elim (lookup path d.files) [
  | some f ↦ (some exist, d)
  | none ↦
      if d.refuses_write path
      then (some refused, d)
      else (none, record d { files = insert path (record { content = []; mode = mode }) d.files })
]

-- `WriteString` to an open file that is empty. `cut_off` is what has reached the file when the write
-- fails, and `none` when it does not fail.
unfoldable pub write_string : Disk → Option Text → Text → Text → Option FileError × Disk
unfolding lookup insert
write_string d cut_off path text =
    let reached : Text = elim cut_off [ none ↦ text | some left ↦ left ] in
    (
      elim cut_off [ none ↦ none | some left ↦ some refused ],
      record d {
        files = elim (lookup path d.files) [
          | none ↦ d.files
          | some f ↦ insert path (record f { content = reached }) d.files
        ];
      },
    )

-- `os.MkdirAll`; directories hold no data of the program.
unfoldable pub mkdir_all : Disk → Text → Option FileError
mkdir_all d path = if d.refuses_mkdir path then some refused else none

-- `os.Remove`, whose error the program does not look at.
unfoldable pub remove_file : Disk → Text → Disk
remove_file d path = record d { files = remove path d.files }

-- `os.OpenFile` with O_CREATE, O_APPEND and O_WRONLY: an existing file stays as it is.
unfoldable pub open_append : Disk → Text → ℕ → Option FileError × Disk
unfolding lookup insert
open_append d path mode = if d.refuses_write path then (some refused, d) else (
  none,
  elim (lookup path d.files) [
    | some f ↦ d
    | none ↦ record d { files = insert path (record { content = []; mode = mode }) d.files }
  ],
)
