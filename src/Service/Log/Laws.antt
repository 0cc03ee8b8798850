-- ===== src/Service/Log/Laws.antt =====
-- A log is added to a file that may exist.
use termcp_relay.Prelude.{
  ◌≡◌, refl, ◌∙◌, true, [], Option, none, some, Text, codes, ◌=t=◌, arith, text_iff, Bool-cases,
  Option-cases, inl, inr,
}
use termcp_relay.Strings.{is_blank, trim_space}
use termcp_relay.Dict.{lookup, lookup-insert, member}
use termcp_relay.Host.Disk.{Disk, File, FileError, open_append}
use termcp_relay.Config.Validate.{log_levels}
use termcp_relay.Service.Log.{
  Level, debug, info, warn, error, min_level, with_file, new_log_handler,
}

open_append_keeps :
    (d : Disk) (path : Text) (mode : _) (other : Text) (f : File)
    → lookup other d.files ≡ some f
    → lookup other (open_append d path mode).1.files ≡ some f
unfolding open_append
open_append_keeps d path mode other f e = elim (Bool-cases (d.refuses_write path)) [
  | inl shut ↦ rw shut e
  | inr open_to ↦ rw open_to (elim (Option-cases (lookup path d.files)) [
    | inl new ↦
        let opened : File = record { content = []; mode = mode } in
        rw new
          (lookup-insert path other opened d.files ∙ ground (arith, e, new, text_iff path other))
    | inr (g, old) ↦ rw old e
  ])
]

with_file-disk :
    (level : Level) (file : Text) (r : Option FileError × Disk) → (with_file level file r).1 ≡ r.1
unfolding with_file
with_file-disk level file (some e, d) = refl
with_file-disk level file (none, d) = refl

-- `newLogHandler` leaves every file that exists as it is, the log file included.
pub new_log_handler_keeps :
    (d : Disk) (level file other : Text) (f : File)
    → lookup other d.files ≡ some f
    → lookup other (new_log_handler d level file).1.files ≡ some f
unfolding new_log_handler
new_log_handler_keeps d level file other f e = elim (Bool-cases (is_blank file)) [
  | inl none_given ↦ rw none_given e
  | inr given ↦
      rw (given, with_file-disk (min_level level) file (open_append d file 0o600))
        (open_append_keeps d file 0o600 other f e)
]

abbrev level_name : Level → Text
level_name debug = codes "debug"
level_name info = codes "info"
level_name warn = codes "warn"
level_name error = codes "error"

-- A level that `Validate` accepts is the least that is logged.
pub min_level_of_accepted :
    (level : Text) → member level log_levels ≡ true → level_name (min_level level) ≡ level
unfolding min_level member ◌=t=◌ trim_space
min_level_of_accepted level known = elim (Bool-cases (level =t= codes "debug")) [
  | inl h ↦ rw ((text_iff level (codes "debug")).0 h) refl
  | inr no_debug ↦ elim (Bool-cases (level =t= codes "info")) [
    | inl h ↦ rw ((text_iff level (codes "info")).0 h) refl
    | inr no_info ↦ elim (Bool-cases (level =t= codes "warn")) [
      | inl h ↦ rw ((text_iff level (codes "warn")).0 h) refl
      | inr no_warn ↦ elim (Bool-cases (level =t= codes "error")) [
        | inl h ↦ rw ((text_iff level (codes "error")).0 h) refl
        | inr no_error ↦ absurd (ground (arith, known))
      ]
    ]
  ]
]
