-- ===== src/Ssh/Auth.antt =====
-- internal/sshserver/auth.go: which clients are let in. A parameter of the section stands for
-- `gossh.ParseAuthorizedKey` with the key marshalled: the first key of a text and the rest behind
-- it, or `none` where it finds no key.
pub mod Laws
use termcp_relay.Prelude.{
  ℕ, zero, suc, ◌+◌, Bool, true, false, not, ◌&&◌, ◌||◌, Option, none, some, List, [], ◌∷◌, ◌==◌,
  if◌then◌else◌, Text, ◌=t=◌, length, is_nil,
}
use termcp_relay.Strings.{is_blank}
use termcp_relay.Host.Disk.{Disk, FileError, FileResult, content, failed, read_file}

-- The mutex guards `authorized_keys`; the model has one thread of control here.
pub record Auth : Type 0 where
  pub no_auth : Bool
  pub username : Text
  pub password : Text
  pub authorized_keys : List Text

pub data LoadError : Type 0 where
  unreadable : FileError → LoadError
  no_keys : LoadError

-- `subtle.ConstantTimeCompare`: 1 for equal texts, and 0 for others.
unfoldable pub constant_time_compare : Text → Text → ℕ
unfolding ◌=t=◌
constant_time_compare x y = if x =t= y then 1 else 0

-- `PasswordOK`
unfoldable pub password_ok : Auth → Text → Text → Bool
password_ok a user password =
    if is_nil a.password
    then false
    else if not (is_nil a.username)
        && (not (length user == length a.username)
            || not (constant_time_compare user a.username == 1))
    then false
    else if not (length password == length a.password)
    then false
    else constant_time_compare password a.password == 1

-- The loop of `PublicKeyOK`.
pub keys_loop : List Text → Text → Bool
keys_loop [] offered = false
keys_loop (k ∷ keys) offered =
    let rest = keys_loop keys offered in
    if length k == length offered && constant_time_compare k offered == 1 then true else rest

-- `PublicKeyOK`, of the marshalled form of the offered key.
unfoldable pub public_key_ok : Auth → Text → Bool
unfolding keys_loop
public_key_ok a offered =
    if is_nil a.authorized_keys then false else keys_loop a.authorized_keys offered

module _ (parse_authorized_key : Text → Option (Text × Text)) where
  -- The loop of `LoadAuthorizedKeys`. The rounds are one more than the text is long; `none` means
  -- that they ran out.
  unfoldable pub parse_keys : ℕ → Text → Option (List Text)
  parse_keys zero rest = none
  parse_keys (suc rounds) rest = elim (parse_authorized_key rest) [
    | none ↦ some []
    | some (key, rest') ↦ elim (parse_keys rounds rest') [
      | none ↦ none
      | some keys ↦ some (key ∷ keys)
    ]
  ]

  -- The keys of a file; the default is never taken.
  unfoldable pub keys_of : Text → List Text
  keys_of raw = elim (parse_keys (length raw + 1) raw) [ none ↦ [] | some keys ↦ keys ]

  -- What `LoadAuthorizedKeys` does with the result of its read.
  unfoldable pub keep_keys : Auth → FileResult → Option LoadError × Auth
  keep_keys a (failed e) = (some (unreadable e), a)
  keep_keys a (content raw) =
      let keys = keys_of raw in
      if is_nil keys then (some no_keys, a) else (none, record a { authorized_keys = keys })

  -- `LoadAuthorizedKeys`: the error, if any, and the state after it.
  unfoldable pub load_authorized_keys : Disk → Auth → Text → Option LoadError × Auth
  unfolding keep_keys
  load_authorized_keys d a path =
      if is_blank path then (none, a) else keep_keys a (read_file d path)
