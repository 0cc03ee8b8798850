-- ===== src/Windows/Rights.antt =====
-- internal/service/logon_windows.go and lsaright_windows.go: whether an account can log on, and its
-- right to log on as a service. What the system answers stands in records.
pub mod Laws
pub mod Status
use Prim.Native.Nat.{◌%◌, ◌^◌}
use termcp_relay.Prelude.{
  ◌≡◌, ◌+◌, ℕ, Bool, true, false, not, ◌||◌, List, [], ◌∷◌, ◌++◌, Option, none, some, if◌then◌else◌,
  Text, codes, is_nil, ◌==◌, ◌=t=◌, is_some, Result, ok, err, ◌>>=◌, of_option,
}
use termcp_relay.Strings.{cut_last, trim_space, hexadecimal}
use termcp_relay.Dict.{member}

-- `splitAccount`: the domain, which is empty for the local machine, and the account.
unfoldable pub split_at_last : Text → Option (Text × Text) → Text × Text
unfolding ◌=t=◌
split_at_last user none = ([], user)
split_at_last user (some (domain, account)) = (if domain =t= codes "." then [] else domain, account)

unfoldable pub split_account : Text → Text × Text
unfolding split_at_last cut_last trim_space
split_account user = split_at_last (trim_space user) (cut_last b'\\' (trim_space user))

-- `windows.UTF16PtrFromString` takes no text with a NUL.
unfoldable pub has_nul : Text → Bool
has_nul [] = false
has_nul (c ∷ s) = c == 0 || has_nul s

pub data LogonError : Type 0 where
  empty_account nul_inside password_rejected : LogonError

-- `verifyLogon`, with the answer of LogonUserW to a domain, an account and a password.
unfoldable pub verify_logon : (Option Text → Text → Text → Bool) → Text → Text → Option LogonError
unfolding split_account has_nul
verify_logon logon_user user password =
    let domain = (split_account user).0 in
    let account = (split_account user).1 in
    if is_nil account
    then some empty_account
    else if has_nul account || has_nul domain || has_nul password
    then some nul_inside
    else if logon_user (if is_nil domain then none else some domain) account password
    then none
    else some password_rejected

abbrev pub service_logon_right : Text
service_logon_right = codes "SeServiceLogonRight"

-- The account database and the local security policy, with a store that the program changes. A
-- status is the NTSTATUS that a call returns, 0 for success. `sid_size` is the size that the first
-- call of LookupAccountName asks for, if it fails in no other way; the size that the call asks for the
-- domain's name counts its terminating null, and so is not 0, on which the code relies. What the documentation of the
-- LSA says is the law: after a right is added, it is among the rights listed.
pub record Policy : Type 1 where
  pub Store : Type 0
  pub Sid : Type 0
  pub computer_name : Text
  pub sid_size : Text → Option ℕ
  pub lookup_account : Text → Option Sid
  pub open_policy : ℕ → ℕ
  pub add_rights : Store → Sid → Text → ℕ × Store
  pub enumerate_rights : Store → Sid → ℕ × List Text
  pub enumerate_rights-add_rights :
      (s : Store) (sid : Sid) (right : Text)
      → (add_rights s sid right).0 ≡ 0
      → let answer = enumerate_rights (add_rights s sid right).1 sid in
        (answer.0 ≡ 0) × (member right answer.1 ≡ true)

pub data RightError : Type 0 where
  nul_in_name look_up_failed no_sid : RightError
  open_failed grant_failed enumerate_failed : ℕ → RightError

abbrev policy_lookup_names : ℕ
policy_lookup_names = 0x800

-- The access that adding a right takes: POLICY_CREATE_ACCOUNT, POLICY_CREATE_PRIVILEGE and
-- POLICY_LOOKUP_NAMES, which are different bits.
abbrev policy_to_grant : ℕ
policy_to_grant = 0x10 + 0x40 + 0x800

-- STATUS_OBJECT_NAME_NOT_FOUND
abbrev object_name_not_found : ℕ
object_name_not_found = 0xc0000034

-- `lsaStatus`: the text of a status, of which it looks at 32 bits.
unfoldable pub lsa_status : ℕ → Text
unfolding hexadecimal
lsa_status status =
    let low = status % 2 ^ 32 in
    if low == 0xc0000064
    then codes "STATUS_NO_SUCH_USER (0xC0000064)"
    else if low == 0xc0000022
    then codes "STATUS_ACCESS_DENIED (0xC0000022) — run as Administrator"
    else codes "NTSTATUS 0x" ++ hexadecimal low

-- The switch on the status; it looks at 32 bits.
unfoldable pub held_of : ℕ × List Text → Result RightError Bool
unfolding member
held_of answer =
    let low = answer.0 % 2 ^ 32 in
    if low == 0
    then ok (member service_logon_right answer.1)
    else if low == object_name_not_found
    then ok false
    else err (enumerate_failed answer.0)

module _ (m : Policy) where
  -- The name that `lookupAccountSID` asks for.
  abbrev qualified : Text → Text → Text
  qualified domain account = if is_nil domain then account else domain ++ (b'\\' ∷ account)

  unfoldable pub query_name : Text → Text
  unfolding split_account
  query_name name =
      let domain = (split_account name).0 in
      qualified (if is_nil domain then m.computer_name else domain) (split_account name).1

  -- The part of `lookupAccountSID` behind the first call.
  unfoldable pub sized_lookup : Text → Option ℕ → Result RightError m.Sid
  sized_lookup query none = err look_up_failed
  sized_lookup query (some size) =
      if size == 0 then err no_sid else of_option look_up_failed (m.lookup_account query)

  unfoldable pub lookup_account_sid : Text → Result RightError m.Sid
  unfolding query_name sized_lookup has_nul
  lookup_account_sid name =
      let query = query_name name in
      if has_nul query then err nul_in_name else sized_lookup query (m.sid_size query)

  -- `openLocalPolicy`
  unfoldable pub open_local_policy : ℕ → Option RightError
  open_local_policy access =
      let status = m.open_policy access in if status == 0 then none else some (open_failed status)

  -- The call that adds the right.
  unfoldable pub add_right : m.Store → m.Sid → Option RightError × m.Store
  add_right s sid =
      let answer = m.add_rights s sid service_logon_right in
      (if answer.0 == 0 then none else some (grant_failed answer.0), answer.1)

  unfoldable pub grant_to :
      m.Store → Result RightError m.Sid → Option RightError → Option RightError × m.Store
  unfolding add_right
  grant_to s (err e) opened = (some e, s)
  grant_to s (ok sid) (some e) = (some e, s)
  grant_to s (ok sid) none = add_right s sid

  -- `grantServiceLogonRight`
  unfoldable pub grant_service_logon_right : m.Store → Text → Option RightError × m.Store
  unfolding grant_to lookup_account_sid open_local_policy
  grant_service_logon_right s name =
      grant_to s (lookup_account_sid name) (open_local_policy policy_to_grant)

  unfoldable pub held_by :
      m.Store → Result RightError m.Sid → Option RightError → Result RightError Bool
  unfolding held_of
  held_by s (err e) opened = err e
  held_by s (ok sid) (some e) = err e
  held_by s (ok sid) none = held_of (m.enumerate_rights s sid)

  -- `serviceLogonRightHeld`
  unfoldable pub service_logon_right_held : m.Store → Text → Result RightError Bool
  unfolding held_by lookup_account_sid open_local_policy
  service_logon_right_held s name =
      held_by s (lookup_account_sid name) (open_local_policy policy_lookup_names)
