-- ===== src/Ssh/Session/Laws.antt =====
-- The command of a session can always be taken apart into a program and its arguments.
use termcp_relay.Prelude.{
  ◌≡◌, refl, ap, ◌∙◌, inl, inr, Bool, true, false, not, ◌&&◌, ◌||◌, List, [], ◌∷◌, Option, none,
  some, arith, if◌then◌else◌, Text, codes, is_nil, is_some, Option-cases, keep,
}
use termcp_relay.Strings.{Unicode, trim_space, fields, fields_nonempty, is_blank-trim_space}
use termcp_relay.Env.Replace.{replace_env, is_entry_of, new_entry}
use termcp_relay.Env.Replace.Laws.{replace_env_entries}
use termcp_relay.Ssh.Session.{
  Os, windows, Shells, or_one, detect_shell, default_shell_args, session_command, Command,
  on_terminal, set_pty_sys_proc_attr,
}

or_one_nonempty : (o : Option Text) (path : Text) → is_nil (or_one o path) ≡ false
or_one_nonempty none path = refl
or_one_nonempty (some found) path = refl

unix_shell_nonempty :
    (m : Shells) (fallback : List Text)
    → is_nil fallback ≡ false
    → let sh = trim_space m.shell_variable in
      is_nil (if not (is_nil sh) && is_some (m.look_path sh) then fields sh else fallback) ≡ false
unix_shell_nonempty m fallback h =
    let sh = trim_space m.shell_variable in
    ground (arith, h, fields_nonempty sh, is_blank-trim_space m.shell_variable)

detect_shell_nonempty : (m : Shells) (os : Os) → is_nil (detect_shell m os) ≡ false
unfolding detect_shell
detect_shell_nonempty m windows = or_one_nonempty _ (codes "cmd.exe")
detect_shell_nonempty m _ = unix_shell_nonempty m _ (or_one_nonempty _ (codes "/bin/sh"))

default_shell_args_nonempty :
    (m : Shells) (shell_override : Text) → is_nil (default_shell_args m shell_override) ≡ false
unfolding default_shell_args
default_shell_args_nonempty m shell_override =
    ground (arith, fields_nonempty shell_override, detect_shell_nonempty m m.os)

-- The systems on which a process can be put into a session of its own.
abbrev pub detaches : Os → Bool
detaches windows = false
detaches _ = true

abbrev pub or_term : ⦃u : Unicode⦄ → Option Text → List Text → List Text
or_term none env = env
or_term (some t) env = replace_env env (codes "TERM") t

pub on_terminal_lem :
    ⦃u : Unicode⦄ (os : Os) (term : Option Text) (c : Command)
    → let c' = on_terminal os term c in
      (c'.args ≡ c.args)
      × (c'.env ≡ or_term term c.env)
      × (c'.setsid ≡ (c.setsid || is_some term && detaches os))
unfolding on_terminal set_pty_sys_proc_attr
on_terminal_lem os none c = (refl, refl, ground arith)
on_terminal_lem windows (some t) c = (refl, refl, ground arith)
on_terminal_lem _ (some t) c = (refl, refl, ground arith)

-- The command of a session, the client's or the default shell, is never empty, so that it can be
-- taken apart into a program and its arguments. Its environment is the block of the session, but
-- for TERM, which has exactly one entry, the terminal's type, if there is a terminal. The process is
-- put into a session of its own if there is a terminal, but not on Windows.
pub session_command_lem :
    ⦃u : Unicode⦄ (m : Shells) (shell_override work_dir : Text) (command block : List Text)
    (term : Option Text)
    → let c = session_command m shell_override work_dir command block term in
      (is_nil c.args ≡ false)
      × (is_nil command ≡ false → c.args ≡ command)
      × (keep (λ kv. not (is_entry_of (codes "TERM") kv)) c.env
          ≡ keep (λ kv. not (is_entry_of (codes "TERM") kv)) block)
      × ((t : Text)
          → term ≡ some t
          → keep (is_entry_of (codes "TERM")) c.env ≡ new_entry (codes "TERM") t ∷ [])
      × (c.setsid ≡ (is_some term && detaches m.os))
unfolding session_command
session_command_lem m shell_override work_dir command block term =
    let (args, env, setsid) = on_terminal_lem m.os term _ in
    (
      ap is_nil args ∙ ground (arith, default_shell_args_nonempty m shell_override),
      (λ given. args ∙ rw given refl),
      (ap (keep (λ kv. not (is_entry_of (codes "TERM") kv))) env ∙ elim (Option-cases term) [
        | inl gone ↦ rw gone refl
        | inr (t, given) ↦ rw given ((replace_env_entries block (codes "TERM") t).0)
      ]),
      (λ t h.
          ap (keep (is_entry_of (codes "TERM"))) env
          ∙ rw h ((replace_env_entries block (codes "TERM") t).1)),
      setsid,
    )
