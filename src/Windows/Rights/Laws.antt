-- ===== src/Windows/Rights/Laws.antt =====
-- How the name of an account is taken apart, and what granting the right leads to.
use termcp_relay.Prelude.{
  ◌≡◌, ◌≢◌, refl, inl, inr, ℕ, Bool, true, List, [], ◌∷◌, ◌++◌, Option, none, some, if◌then◌else◌,
  Text, codes, ◌=t=◌, ok, err, arith, All, Result-cases,
}
use termcp_relay.Strings.{cut_last, trim_space, IsTrimmed, IsTrimmed-cons}
use termcp_relay.Dict.{member}
use termcp_relay.Windows.Rights.{
  split_at_last, split_account, verify_logon, Policy, RightError, service_logon_right, query_name,
  lookup_account_sid, add_right, grant_to, grant_service_logon_right, held_of, held_by,
  service_logon_right_held, open_local_policy,
}

-- The text holds no backslash.
abbrev pub LacksBackslash : Text → Type 0
LacksBackslash = All (λ c. c ≢ b'\\')

cut_last_of_Lacks : (s : Text) → LacksBackslash s → cut_last b'\\' s ≡ none
unfolding cut_last
cut_last_of_Lacks [] h = refl
cut_last_of_Lacks (c ∷ s) h = rw (cut_last_of_Lacks s h.1) (ground (arith, h.0))

cut_last-append : (p s : Text) → LacksBackslash s → cut_last b'\\' (p ++ (b'\\' ∷ s)) ≡ some (p, s)
unfolding cut_last
cut_last-append [] s h = rw (cut_last_of_Lacks s h) refl
cut_last-append (c ∷ p) s h = rw (cut_last-append p s h) refl

-- The ways to write an account: alone, or behind a domain.
pub data Form : Type 0 where
  alone : Form
  within : Text → Form

abbrev pub written : Form → Text → Text
written alone account = account
written (within domain) account = domain ++ (b'\\' ∷ account)

abbrev pub domain_of : Form → Text
domain_of alone = []
domain_of (within domain) = if domain =t= codes "." then [] else domain

-- `splitAccount` takes an account apart at the last backslash, where the domain `.` stands for the
-- local machine, as having no domain does.
pub split_account_lem :
    (user account : Text) (form : Form)
    → LacksBackslash account
    → trim_space user ≡ written form account
    → split_account user ≡ (domain_of form, account)
unfolding split_account split_at_last
split_account_lem user account alone lacks e = rw (e, cut_last_of_Lacks account lacks) refl
split_account_lem user account (within domain) lacks e =
    rw (e, cut_last-append domain account lacks) refl

-- `bob` and `.\bob` are the same account: both are looked up, and tried with a password, as an
-- account of the local machine.
pub query_name_local :
    (m : Policy) (account password : Text) (logon_user : Option Text → Text → Text → Bool)
    → LacksBackslash account
    → IsTrimmed account
    → (query_name m (codes ".\\" ++ account) ≡ query_name m account)
      × (verify_logon logon_user (codes ".\\" ++ account) password
          ≡ verify_logon logon_user account password)
unfolding query_name verify_logon
query_name_local m account password logon_user lacks trimmed =
    let bare = split_account_lem account account alone lacks trimmed in
    let dotted =
      split_account_lem (codes ".\\" ++ account) account (within (codes ".")) lacks
        (IsTrimmed-cons b'.' b'\\' account refl refl trimmed) in
    rw (bare, dotted) (refl, refl)

held_of_success :
    (answer : ℕ × List Text)
    → answer.0 ≡ 0
    → member service_logon_right answer.1 ≡ true
    → held_of answer ≡ ok true
unfolding held_of
held_of_success answer succeeds listed = rw (succeeds, listed) refl

add_right_held :
    (m : Policy) (s : m.Store) (sid : m.Sid)
    → (add_right m s sid).0 ≡ none
    → held_of (m.enumerate_rights (add_right m s sid).1 sid) ≡ ok true
unfolding add_right
add_right_held m s sid e =
    let added : (m.add_rights s sid service_logon_right).0 ≡ 0 = ground arith in
    let listed = m.enumerate_rights-add_rights s sid service_logon_right added in
    held_of_success _ listed.0 listed.1

granted_held :
    (m : Policy) (s : m.Store) (sid : m.Sid) (opened : Option RightError)
    → (grant_to m s (ok sid) opened).0 ≡ none
    → held_by m (grant_to m s (ok sid) opened).1 (ok sid) none ≡ ok true
unfolding grant_to held_by
granted_held m s sid none e = add_right_held m s sid e
granted_held m s sid (some x) e = absurd (ground arith)

not_granted :
    (m : Policy) (s : m.Store) (name : Text) (e : RightError)
    → lookup_account_sid m name ≡ err e
    → (grant_service_logon_right m s name).0 ≢ none
unfolding grant_service_logon_right grant_to
not_granted m s name e lost granted = ground (arith, lost)

-- After the right to log on as a service is granted to an account without an error, the account is
-- reported to hold it, provided that the policy can be read.
pub service_logon_right_held_grant :
    (m : Policy) (s : m.Store) (name : Text)
    → (grant_service_logon_right m s name).0 ≡ none
    → m.open_policy 0x800 ≡ 0
    → service_logon_right_held m (grant_service_logon_right m s name).1 name ≡ ok true
unfolding grant_service_logon_right service_logon_right_held open_local_policy
service_logon_right_held_grant m s name granted readable =
    elim (Result-cases (lookup_account_sid m name)) [
      | inl (sid, found) ↦ rw (found, readable) (granted_held m s sid _ (rw found at granted))
      | inr (e, lost) ↦ absurd (not_granted m s name e lost granted)
    ]
