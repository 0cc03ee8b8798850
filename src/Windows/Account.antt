-- ===== src/Windows/Account.antt =====
-- `promptPassword` and `currentUserToken` of internal/service/account_windows.go.
pub mod Laws
use termcp_relay.Prelude.{
  ℕ, Bool, true, false, not, ◌&&◌, ◌||◌, List, [], ◌∷◌, ◌++◌, Option, none, some, if◌then◌else◌,
  Text, codes, is_nil, ◌==◌,
}
use termcp_relay.Strings.{cut}

-- What is read from standard input: its text, and whether reading stops with an error that is not
-- the end of the file before a line ends.
pub record Input : Type 0 where
  pub text : Text
  pub breaks : Bool

-- The answers of the system. A terminal gives the text that is typed at a prompt, unless that fails.
pub record Console : Type 0 where
  pub is_redirected : Bool
  pub stdin : Input
  pub conin_opens : Bool
  pub conin_is_terminal : Bool
  pub stdin_is_terminal : Bool
  pub read_from_conin : Option Text
  pub read_from_stdin : Option Text

-- `strings.TrimRight(line, "\r\n")`
unfoldable pub trim_line_end : Text → Text
trim_line_end [] = []
trim_line_end (c ∷ s) =
    let rest = trim_line_end s in if is_nil rest && (c == b'\r' || c == b'\n') then [] else c ∷ rest

-- `ReadString('\n')`, with the line end, of which there is none at the end of the file.
unfoldable pub read_line : Input → Option (Text × Text) → Option Text
read_line input (some (line, rest)) = some (line ++ (b'\n' ∷ []))
read_line input none = if input.breaks then none else some input.text

unfoldable pub piped_password : Option Text → Option Text
unfolding trim_line_end
piped_password none = none
piped_password (some line) = some (trim_line_end line)

-- `promptPassword`
unfoldable pub prompt_password : Console → Option Text
unfolding piped_password read_line cut
prompt_password c =
    if c.is_redirected
    then piped_password (read_line c.stdin (cut b'\n' c.stdin.text))
    else if c.conin_opens && c.conin_is_terminal
    then c.read_from_conin
    else if not c.stdin_is_terminal
    then none
    else c.read_from_stdin

-- `currentUserToken`, with the domain and the account that the token of the process stands for.
unfoldable pub current_user_token : Option (Text × Text) → Option Text
current_user_token none = none
current_user_token (some (domain, account)) =
    some (if is_nil domain then account else domain ++ (b'\\' ∷ account))
