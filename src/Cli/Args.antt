-- ===== src/Cli/Args.antt =====
-- The command line that the elevated process is given, and the hidden flags in it.
pub mod Hidden
use termcp_relay.Prelude.{
  Bool, true, false, not, ◌&&◌, ◌||◌, List, [], ◌∷◌, ◌++◌, if◌then◌else◌, Text, codes, is_nil,
  ◌=t=◌, any,
}
use termcp_relay.Cli.Options.{Options, default_name}

abbrev pub elevated_output_flag : Text
elevated_output_flag = codes "--elevated-output"

abbrev pub credential_flag : Text
credential_flag = codes "--elevated-credential"

-- `hasFlag`
unfoldable pub has_flag : List Text → Text → Bool
unfolding ◌=t=◌
has_flag args name = any (λ a. a =t= name) args

-- `takeCredentialArg`, from `path` on: the arguments that are left, and the last path named.
unfoldable pub take_credential : Text → List Text → List Text × Text
unfolding ◌=t=◌
take_credential path [] = ([], path)
take_credential path (a ∷ []) = (a ∷ [], path)
take_credential path (a ∷ b ∷ rest) =
    let taken = take_credential b rest in
    let kept = take_credential path (b ∷ rest) in
    if a =t= credential_flag then taken else (a ∷ kept.0, kept.1)

abbrev pub take_credential_arg : List Text → List Text × Text
take_credential_arg = take_credential []

-- `redirectElevatedOutput`: the arguments that are left, and the files to which standard output and
-- standard error are redirected, in turn, where they can be opened.
unfoldable pub redirect_elevated_output : List Text → List Text × List Text
unfolding ◌=t=◌
redirect_elevated_output [] = ([], [])
redirect_elevated_output (a ∷ []) = (a ∷ [], [])
redirect_elevated_output (a ∷ b ∷ rest) =
    let taken = redirect_elevated_output rest in
    let kept = redirect_elevated_output (b ∷ rest) in
    if a =t= elevated_output_flag then (taken.0, b ∷ taken.1) else (a ∷ kept.0, kept.1)

-- `if value != "" { args = append(args, flag, value) }`
abbrev pub value_flag : Text → Text → List Text
value_flag flag value = if is_nil value then [] else flag ∷ value ∷ []

-- The flags of `childArgs`.
unfoldable pub child_flags : Options → List Text
unfolding ◌=t=◌
child_flags o =
    codes "--config"
    ∷ o.config_path
    ∷ (value_flag (codes "--log-file") o.log_file
        ++ (value_flag (codes "--work-dir") o.work_dir
            ++ (value_flag (codes "--log-level") o.log_level
                ++ ((if o.system then codes "--system" ∷ [] else [])
                    ++ (value_flag (codes "--user") o.user_name
                        ++ (if not (is_nil o.name) && not (o.name =t= default_name)
                            then codes "--name" ∷ o.name ∷ []
                            else []))))))

-- `childArgs`
unfoldable pub child_args : Text → Options → List Text
unfolding child_flags
child_args action o = codes "service" ∷ action ∷ child_flags o
