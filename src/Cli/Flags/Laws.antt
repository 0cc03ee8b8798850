-- ===== src/Cli/Flags/Laws.antt =====
-- The flags of `childArgs` are read back as the options that they were made of.
use termcp_relay.Prelude.{
  ◌≡◌, refl, ap, sym, ◌∙◌, Bool, true, false, not, ◌&&◌, List, [], ◌∷◌, ◌++◌, none, if◌then◌else◌,
  Text, codes, ◌=t=◌, is_nil, text_iff, ok, arith,
}
use mathlib.Core.List.{append-nil}
use termcp_relay.Dict.{Dict, insert, get_text, lookup}
use termcp_relay.Flags.{parse_flags, token, parse_from, show_bool}
use termcp_relay.Flags.Laws.{
  get_text-insert, get_text-given, unless_nil, given, parse_from-textual, parse_from-value_flag,
  parse_from-boolean,
}
use termcp_relay.Cli.Options.{Options, default_name}
use termcp_relay.Cli.Args.{value_flag, child_flags}
use termcp_relay.Cli.Flags.{Flags, read_flags, parse_service, service_flags, service_defaults}

-- The name that is passed on.
abbrev passed_name : Text → Text
passed_name name = if not (is_nil name) && not (name =t= default_name) then name else []

name_part :
    (name : Text)
    → (if not (is_nil name) && not (name =t= default_name) then codes "--name" ∷ name ∷ [] else [])
      ≡ value_flag (codes "--name") (passed_name name)
name_part name = ground arith

abbrev system_flag : Bool → List Text
system_flag system = if system then codes "--system" ∷ [] else []

abbrev set_system : Bool → Dict Text → Dict Text
set_system system values =
    if system then insert (codes "system") (show_bool true) values else values

parse_from-system :
    (system : Bool) (values : Dict Text) (rest : List Text)
    → parse_from service_flags values none (system_flag system ++ rest)
      ≡ parse_from service_flags (set_system system values) none rest
unfolding token service_flags
parse_from-system true values rest =
    parse_from-boolean service_flags values (codes "system") rest refl refl
parse_from-system false values rest = refl

-- The values after the flags of `childArgs`.
abbrev child_values : Options → Dict Text
child_values o = given (codes "name") (passed_name o.name) (
    given (codes "user") o.user_name (
      set_system o.system (
        given (codes "log-level") o.log_level (
          given (codes "work-dir") o.work_dir (
            given (codes "log-file") o.log_file
              (insert (codes "config") o.config_path service_defaults))))))

parse_from-name :
    (name : Text) (values : Dict Text)
    → parse_from service_flags values none (
        if not (is_nil name) && not (name =t= default_name) then codes "--name" ∷ name ∷ [] else [])
      ≡ ok (given (codes "name") (passed_name name) values, [])
unfolding token service_flags parse_from
parse_from-name name values =
    ap (parse_from service_flags values none)
      (name_part name ∙ sym (append-nil (value_flag (codes "--name") (passed_name name))))
    ∙ parse_from-value_flag service_flags values (codes "name") [] refl refl (passed_name name)

parse_from-child_flags :
    (o : Options)
    → parse_from service_flags service_defaults none (child_flags o) ≡ ok (child_values o, [])
unfolding child_flags token service_flags
parse_from-child_flags o =
    parse_from-textual service_flags service_defaults (codes "config") _ refl refl o.config_path
    ∙ parse_from-value_flag service_flags _ (codes "log-file") _ refl refl o.log_file
    ∙ parse_from-value_flag service_flags _ (codes "work-dir") _ refl refl o.work_dir
    ∙ parse_from-value_flag service_flags _ (codes "log-level") _ refl refl o.log_level
    ∙ parse_from-system o.system _ _
    ∙ parse_from-value_flag service_flags _ (codes "user") _ refl refl o.user_name
    ∙ parse_from-name o.name _

get_text-set_system :
    (k : Text) (system : Bool) (values : Dict Text)
    → get_text k (set_system system values)
      ≡ (if codes "system" =t= k && system then show_bool true else get_text k values)
get_text-set_system k true values =
    get_text-insert k (codes "system") (show_bool true) values ∙ ground arith
get_text-set_system k false values = ground arith

-- What the elevated process is to read.
abbrev pub flags_of : Options → Flags
flags_of o = record {
  config = o.config_path;
  log_file = o.log_file;
  log_level = o.log_level;
  work_dir = o.work_dir;
  user = o.user_name;
  system = o.system;
  name = if is_nil o.name then default_name else o.name;
}

ruleset reads = (get_text-given, get_text-set_system, get_text-insert, unless_nil)

read_config : (o : Options) → get_text (codes "config") (child_values o) ≡ o.config_path
unfolding ◌=t=◌ lookup
read_config o = simp reads

read_log_file : (o : Options) → get_text (codes "log-file") (child_values o) ≡ o.log_file
unfolding ◌=t=◌ lookup
read_log_file o = simp reads

read_log_level : (o : Options) → get_text (codes "log-level") (child_values o) ≡ o.log_level
unfolding ◌=t=◌ lookup
read_log_level o = simp reads

read_work_dir : (o : Options) → get_text (codes "work-dir") (child_values o) ≡ o.work_dir
unfolding ◌=t=◌ lookup
read_work_dir o = simp reads

read_user : (o : Options) → get_text (codes "user") (child_values o) ≡ o.user_name
unfolding ◌=t=◌ lookup
read_user o = simp reads

read_system :
    (o : Options) → (get_text (codes "system") (child_values o) =t= show_bool true) ≡ o.system
unfolding ◌=t=◌ lookup
read_system o = simp reads (ground arith)

effective_name :
    (name : Text)
    → (if is_nil (passed_name name) then default_name else passed_name name)
      ≡ (if is_nil name then default_name else name)
effective_name name = ground (arith, text_iff name default_name)

read_name :
    (o : Options)
    → get_text (codes "name") (child_values o) ≡ (if is_nil o.name then default_name else o.name)
unfolding ◌=t=◌ lookup
read_name o = simp reads (effective_name o.name)

-- The elevated process reads from the arguments of `childArgs` the options that they were made of;
-- a name that is empty is the default name.
pub parse_service-child_flags : (o : Options) → parse_service (child_flags o) ≡ ok (flags_of o)
unfolding parse_service parse_flags read_flags
parse_service-child_flags o =
    rw
      (
        parse_from-child_flags o,
        read_config o,
        read_log_file o,
        read_log_level o,
        read_work_dir o,
        read_user o,
        read_system o,
        read_name o,
      )
      refl
