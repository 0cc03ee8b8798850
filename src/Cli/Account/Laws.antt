-- ===== src/Cli/Account/Laws.antt =====
-- A password that the service manager is given has passed the check of the logon.
use termcp_relay.Prelude.{
  ◌≡◌, ◌⊎◌, refl, sym, ap, ◌∙◌, ℕ, zero, suc, inl, inr, true, false, not, ◌&&◌, ◌||◌, [], some,
  Text, codes, is_nil, ok, of_option-eq-ok, >>=-eq-ok, ok_injective, Option-cases, Bool-cases,
  arith, subst, ◌↔◌,
}
use termcp_relay.Strings.{Unicode, equal_fold, trim_space}
use termcp_relay.Cli.Options.{Options}
use termcp_relay.Cli.Account.{
  Accounts, prompt_loop, prompt_verified_password, builtin_service_account, is_local_system,
  with_password, by_token, choose_account, from_file, resolve_account,
}

-- The password entered at attempt `i`, of the account `user`, lets it log on.
abbrev pub IsGood : Accounts → Text → ℕ → Text → Type 0
IsGood m user i pw = (m.prompt_password user i ≡ some pw) × (m.verify_logon user pw ≡ true)

-- The password entered at attempt `i` does not.
abbrev pub IsBad : Accounts → Text → ℕ → Type 0
IsBad m user i =
    (pw : Text) × (m.prompt_password user i ≡ some pw) × (m.verify_logon user pw ≡ false)

-- The first password that lets the account log on is entered within `left` attempts from `i`.
pub data Enters (m : Accounts) (user pw : Text) : ℕ → ℕ → Type 0 where
  now : {left i : ℕ} → IsGood m user i pw → Enters m user pw (suc left) i
  later :
      {left i : ℕ} → IsBad m user i → Enters m user pw left (suc i) → Enters m user pw (suc left) i

prompt_loop_sound :
    (m : Accounts) (user pw : Text) (left i : ℕ)
    → prompt_loop m user left i ≡ some pw
    → Enters m user pw left i
unfolding prompt_loop
prompt_loop_sound m user pw zero i h = cc
prompt_loop_sound m user pw (suc left) i h = elim (Option-cases (m.prompt_password user i)) [
  | inl gone ↦ absurd (ground arith)
  | inr (entered, e) ↦ elim (Bool-cases (m.verify_logon user entered)) [
    | inl good ↦
        let same : entered ≡ pw = ground arith in now (subst (IsGood m user i) same (e, good))
    | inr bad ↦ later (entered, e, bad) (prompt_loop_sound m user pw left (suc i) (ground arith))
  ]
]

prompt_loop_complete :
    (m : Accounts) (user pw : Text) (left i : ℕ)
    → Enters m user pw left i
    → prompt_loop m user left i ≡ some pw
unfolding prompt_loop
prompt_loop_complete m user pw zero i x = elim x [ ]
prompt_loop_complete m user pw (suc left) i (now (entered, good)) = ground (arith, entered, good)
prompt_loop_complete m user pw (suc left) i (later (bad, entered, refused) rest) =
    ground (arith, entered, refused, prompt_loop_complete m user pw left (suc i) rest)

-- `promptVerifiedPassword` returns a password exactly when it is the first one, of at most three
-- entered in turn, with which the account can log on; each one before it was entered and refused.
pub prompt_verified_password_lem :
    (m : Accounts) (user pw : Text)
    → (prompt_verified_password m user ≡ some pw) ↔ Enters m user pw 3 1
unfolding prompt_verified_password
prompt_verified_password_lem m user pw =
    (prompt_loop_sound m user pw 3 1, prompt_loop_complete m user pw 3 1)

module _ ⦃u : Unicode⦄ (m : Accounts) where
  -- An account with which the service can be registered.
  pub data IsSettled (o : Options) : Type 0 where
    local_system : o.user_name ≡ [] → o.password ≡ [] → IsSettled o
    builtin :
        builtin_service_account (trim_space o.user_name) ≡ true → o.password ≡ [] → IsSettled o
    named :
        Enters m (trim_space o.user_name) o.password 3 1 → o.needs_credential ≡ true → IsSettled o
    current :
        m.current_user_token ≡ some o.user_name
        → Enters m o.user_name o.password 3 1
        → o.needs_credential ≡ true
        → IsSettled o

  -- The password is the one in the file, and it is not handed on.
  abbrev pub FromFile : Text → Options → Options → Type 0
  FromFile cred_path o o' =
      (pw : Text) × (m.read_credential_file cred_path ≡ some pw)
      × (o' ≡ record o { password = pw; needs_credential = false })

  from_file_lem :
      (o o' : Options) (cred_path : Text)
      → from_file m cred_path o ≡ ok o'
      → FromFile cred_path o o'
  unfolding from_file
  from_file_lem o o' cred_path h =
      let (pw, found, last) = >>=-eq-ok _ _ h in
      (pw, of_option-eq-ok _ (m.read_credential_file cred_path) found, sym (ok_injective _ _ last))

  with_password_lem :
      (user : Text) (o o' : Options)
      → with_password m user o ≡ ok o'
      → Enters m user o'.password 3 1 × (o'.needs_credential ≡ true) × (o'.user_name ≡ o.user_name)
  unfolding with_password
  with_password_lem user o o' h =
      let (pw, entered, last) = >>=-eq-ok _ _ h in
      let same = ok_injective _ _ last in
      let found = of_option-eq-ok _ (prompt_verified_password m user) entered in
      (
        subst (λ o. Enters m user o.password 3 1) same
            ((prompt_verified_password_lem m user pw).0 found),
        sym (ap (λ o. o.needs_credential) same),
        sym (ap (λ o. o.user_name) same),
      )

  by_token_lem : (o o' : Options) → by_token m o ≡ ok o' → IsSettled o'
  unfolding by_token
  by_token_lem o o' h =
      let (token, known, rest) = >>=-eq-ok _ _ h in
      let (entered, needs, name) = with_password_lem token _ o' rest in
      current (of_option-eq-ok _ m.current_user_token known ∙ ap some (sym name))
        (subst (λ n. Enters m n o'.password 3 1) (sym name) entered) needs

  choose_account_lem :
      (o o' : Options) → choose_account m (trim_space o.user_name) o ≡ ok o' → IsSettled o'
  unfolding choose_account
  choose_account_lem o o' h =
      let user = trim_space o.user_name in
      elim (Bool-cases (is_nil user || o.system || builtin_service_account user)) [
        | inl plain ↦
            elim (Bool-cases (builtin_service_account user && not (is_local_system user))) [
              | inl b ↦
                  let same : record o { password = [] } ≡ o' = ground (arith) in
                  subst IsSettled same (builtin (ground (arith)) refl)
              | inr b ↦
                  let same : record o { user_name = []; password = [] } ≡ o' = ground (arith) in
                  subst IsSettled same (local_system refl refl)
            ]
        | inr other ↦ elim (Bool-cases (equal_fold user (codes "current"))) [
          | inl c ↦ by_token_lem o o' (ground (arith))
          | inr n ↦
              let (entered, needs, name) = with_password_lem user o o' (ground (arith)) in
              named (subst (λ n. Enters m (trim_space n) o'.password 3 1) (sym name) entered) needs
        ]
      ]

  -- On Windows the account that is resolved keeps its options but for the password of the file, if
  -- there is such a file, which is not checked again; without one it is LocalSystem or another
  -- built-in account, with no password, or else one for which a password was entered within three
  -- attempts that lets it log on; then the elevated process is given that password.
  pub resolve_account_lem :
      (o o' : Options) (cred_path : Text)
      → m.on_windows ≡ true
      → resolve_account m o cred_path ≡ ok o'
      → ((is_nil cred_path ≡ true) × IsSettled o')
        ⊎ ((is_nil cred_path ≡ false) × FromFile cred_path o o')
  unfolding resolve_account
  resolve_account_lem o o' cred_path h r = elim (Bool-cases (is_nil cred_path)) [
    | inl alone ↦ inl (alone, choose_account_lem o o' (ground arith))
    | inr given ↦ inr (given, from_file_lem o o' cred_path (ground arith))
  ]
