-- ===== src/Cli/Args/Hidden.antt =====
-- The hidden flags are taken off the elevated process's arguments again.
use termcp_relay.Prelude.{◌≡◌, refl, false, List, [], ◌∷◌, ◌++◌, arith, Text, ◌=t=◌, All}
use termcp_relay.Cli.Args.{
  elevated_output_flag, credential_flag, take_credential, redirect_elevated_output,
}

-- No argument is spelled like the flag.
abbrev pub Avoids : Text → List Text → Type 0
Avoids flag = All (λ a. a =t= flag ≡ false)

pub take_credential-append :
    (path file : Text) (args : List Text)
    → Avoids credential_flag args
    → take_credential path (args ++ (credential_flag ∷ file ∷ [])) ≡ (args, file)
unfolding take_credential
take_credential-append path file [] h = refl
take_credential-append path file (a ∷ []) h = ground (arith, h.0)
take_credential-append path file (a ∷ b ∷ args) h =
    ground (arith, h.0, take_credential-append path file (b ∷ args) h.1)

pub take_credential_lem :
    (path : Text) (args : List Text)
    → Avoids credential_flag args
    → take_credential path args ≡ (args, path)
unfolding take_credential
take_credential_lem path [] h = refl
take_credential_lem path (a ∷ []) h = refl
take_credential_lem path (a ∷ b ∷ args) h =
    ground (arith, h.0, take_credential_lem path (b ∷ args) h.1)

pub redirect-append :
    (file : Text) (args : List Text)
    → Avoids elevated_output_flag args
    → redirect_elevated_output (args ++ (elevated_output_flag ∷ file ∷ [])) ≡ (args, file ∷ [])
unfolding redirect_elevated_output
redirect-append file [] h = refl
redirect-append file (a ∷ []) h = ground (arith, h.0)
redirect-append file (a ∷ b ∷ args) h = ground (arith, h.0, redirect-append file (b ∷ args) h.1)
