-- ===== src/Windows/Account/Laws.antt =====
-- A password that is piped to the program arrives, and so does the account of its process.
use termcp_relay.Prelude.{
  ◌≡◌, ◌≢◌, refl, sym, ap, ◌∙◌, true, false, [], ◌∷◌, ◌++◌, none, some, if◌then◌else◌, codes, Text,
  is_nil, ◌=t=◌, text_iff, arith, All, All-append,
}
use mathlib.Core.List.{append_assoc}
use termcp_relay.Strings.{cut, cut-append, IsTrimmed}
use termcp_relay.Windows.Rights.{split_account}
use termcp_relay.Windows.Rights.Laws.{LacksBackslash, alone, within, split_account_lem}
use termcp_relay.Windows.Account.{
  Console, trim_line_end, read_line, piped_password, prompt_password, current_user_token,
}

-- No character of the text ends a line.
abbrev pub OneLine : Text → Type 0
OneLine = All (λ c. (c ≢ b'\n') × (c ≢ b'\r'))

-- How the input goes on behind the password: a line end of Unix or of Windows, or not at all.
pub data Ending : Type 0 where
  newline return_newline : Text → Ending
  end_of_file : Ending

abbrev pub ended : Ending → Text
ended (newline rest) = b'\n' ∷ rest
ended (return_newline rest) = b'\r' ∷ b'\n' ∷ rest
ended end_of_file = []

-- The part of the line behind the password.
abbrev line_end : Ending → Text
line_end (newline rest) = b'\n' ∷ []
line_end (return_newline rest) = b'\r' ∷ b'\n' ∷ []
line_end end_of_file = []

trim_line_end-append : (pw : Text) (e : Ending) → OneLine pw → trim_line_end (pw ++ line_end e) ≡ pw
unfolding trim_line_end
trim_line_end-append [] (newline rest) plain = refl
trim_line_end-append [] (return_newline rest) plain = refl
trim_line_end-append [] end_of_file plain = refl
trim_line_end-append (c ∷ pw) e plain =
    rw (trim_line_end-append pw e plain.1) (ground (arith, plain.0))

no_newline : (pw : Text) → OneLine pw → All (λ c. c ≢ b'\n') pw
no_newline [] plain = tt
no_newline (c ∷ pw) plain = (plain.0.0, no_newline pw plain.1)

cut_of_OneLine : (pw : Text) → OneLine pw → cut b'\n' (pw ++ []) ≡ none
unfolding cut
cut_of_OneLine [] plain = refl
cut_of_OneLine (c ∷ pw) plain = rw (cut_of_OneLine pw plain.1) (ground (arith, plain.0.0))

cut_return :
    (pw rest : Text)
    → OneLine pw
    → cut b'\n' (pw ++ (b'\r' ∷ b'\n' ∷ rest)) ≡ some (pw ++ (b'\r' ∷ []), rest)
cut_return pw rest plain =
    ap (cut b'\n') (sym (append_assoc pw (b'\r' ∷ []) (b'\n' ∷ rest)))
    ∙ cut-append b'\n' (pw ++ (b'\r' ∷ [])) rest (
        All-append (λ c. c ≢ b'\n') pw (b'\r' ∷ []) (no_newline pw plain) ((λ e. ground arith), tt))

read_line-append :
    (pw : Text) (e : Ending) (c : Console)
    → OneLine pw
    → c.stdin.text ≡ pw ++ ended e
    → c.stdin.breaks ≡ false
    → read_line c.stdin (cut b'\n' c.stdin.text) ≡ some (pw ++ line_end e)
unfolding read_line
read_line-append pw (newline rest) c plain input whole =
    rw (input, cut-append b'\n' pw rest (no_newline pw plain)) refl
read_line-append pw (return_newline rest) c plain input whole =
    rw (input, cut_return pw rest plain) (ap some (append_assoc pw (b'\r' ∷ []) (b'\n' ∷ [])))
read_line-append pw end_of_file c plain input whole =
    rw (input, cut_of_OneLine pw plain, whole) refl

-- A password of one line that is redirected to the program is read as it is, with whatever line end,
-- or none, behind it.
pub prompt_password_piped :
    (c : Console) (pw : Text) (e : Ending)
    → c.is_redirected ≡ true
    → c.stdin.breaks ≡ false
    → OneLine pw
    → c.stdin.text ≡ pw ++ ended e
    → prompt_password c ≡ some pw
unfolding prompt_password piped_password
prompt_password_piped c pw e redirected whole plain input =
    rw (redirected, read_line-append pw e c plain input whole, trim_line_end-append pw e plain) refl

by_domain :
    (domain account name : Text)
    → (if is_nil domain then account else domain ++ (b'\\' ∷ account)) ≡ name
    → LacksBackslash account
    → IsTrimmed name
    → domain ≢ codes "."
    → split_account name ≡ (domain, account)
by_domain [] account name made lacks trimmed named =
    split_account_lem name account alone lacks (trimmed ∙ sym made)
by_domain (c ∷ domain) account name made lacks trimmed named =
    let other : (c ∷ domain) =t= codes "." ≡ false =
      ground (arith, named, text_iff (c ∷ domain) (codes ".")) in
    split_account_lem name account (within (c ∷ domain)) lacks (trimmed ∙ sym made) ∙ rw other refl

some_injective : (a b : Text) → some a ≡ some b → a ≡ b
some_injective a b e = cc

-- The name that `currentUserToken` makes of a domain and an account is taken apart into the two
-- again by `splitAccount`, by which the password is checked and the right is granted. The account has
-- no backslash, and the domain is not `.`.
pub split_account-current_user_token :
    (domain account name : Text)
    → current_user_token (some (domain, account)) ≡ some name
    → LacksBackslash account
    → IsTrimmed name
    → domain ≢ codes "."
    → split_account name ≡ (domain, account)
unfolding current_user_token
split_account-current_user_token domain account name made lacks trimmed named =
    by_domain domain account name (some_injective _ name made) lacks trimmed named
