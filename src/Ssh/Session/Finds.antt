-- ===== src/Ssh/Session/Finds.antt =====
-- What the process of a session on Windows finds in its environment, from the registry to the terminal.
use termcp_relay.Prelude.{
  ◌≡◌, refl, ap, ◌∙◌, ℕ, List, Option, none, some, Text, codes, ◌=t=◌, if◌then◌else◌, arith,
}
use termcp_relay.Strings.{Unicode, to_upper}
use termcp_relay.Env.Compose.State.{IsName, env_get}
use termcp_relay.Env.Compose.Laws.{session_value}
use termcp_relay.Env.Replace.Get.{env_get-replace_env}
use termcp_relay.Env.Session.{RegistryKey, session_env}
use termcp_relay.Env.Session.Laws.{HasPlainNames}
use termcp_relay.Env.Session.Layers.{Layers, session_env_lem}
use termcp_relay.Ssh.Session.{Shells, session_command}
use termcp_relay.Ssh.Session.Laws.{or_term, on_terminal_lem}

term-IsName : IsName (codes "TERM")
term-IsName = record {
  full = refl;
  single = (
    (λ e. ground arith),
    ((λ e. ground arith), ((λ e. ground arith), ((λ e. ground arith), tt))),
  );
}

module _ ⦃u : Unicode⦄ where
  -- The type of the terminal, if there is one, hides what else there is for TERM.
  abbrev pub over_term : Option Text → Text → Option Text → Option Text
  over_term none name found = found
  over_term (some t) name found =
      if to_upper (codes "TERM") =t= to_upper name then some t else found

  env_get-or_term :
      (term : Option Text) (block : List Text) (name : Text)
      → env_get name (or_term term block) ≡ over_term term name (env_get name block)
  env_get-or_term none block name = refl
  env_get-or_term (some t) block name = env_get-replace_env block (codes "TERM") t name term-IsName

  -- On Windows there are layers of the registry over the inherited block, as `Layers` describes them,
  -- such that the process of a session finds, for each name, the terminal's type if the name is TERM and
  -- there is a terminal, and otherwise what `session_value` takes from the layers, whether or not the
  -- registry can be read. No name in the registry holds an equals sign.
  pub session_command_finds :
      (m : Shells) (shell_override work_dir : Text) (command : List Text) (term : Option Text)
      (separator : ℕ) (base : List Text) (local_machine current_user : Option RegistryKey)
      → HasPlainNames local_machine
      → HasPlainNames current_user
      → (l : Layers base local_machine current_user) × ((name : Text)
          → let block = session_env separator base local_machine current_user in
            env_get name (session_command m shell_override work_dir command block term).env
            ≡ over_term term name (session_value separator base l.machine l.user name))
  unfolding session_command
  session_command_finds m shell_override work_dir command term separator base local_machine
        current_user hm hu =
      let block = session_env separator base local_machine current_user in
      let (l, finds) = session_env_lem separator base local_machine current_user hm hu in
      (
        l,
        λ name.
            ap (env_get name) ((on_terminal_lem m.os term _).1)
            ∙ env_get-or_term term block name
            ∙ ap (over_term term name) (finds name).0,
      )
