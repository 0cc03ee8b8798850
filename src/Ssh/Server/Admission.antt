-- ===== src/Ssh/Server/Admission.antt =====
-- Which clients a server lets in. The SSH library asks the handlers; its behaviour is documented
-- with `ssh.Server`.
use termcp_relay.Prelude.{
  ℕ, ◌≡◌, refl, ap, ◌∙◌, Bool, true, false, not, ◌&&◌, ◌||◌, none, some, arith, Text, is_nil,
  is_some, ok, ◌=t=◌, text_iff,
}
use termcp_relay.Ssh.Auth.{Auth, password_ok, public_key_ok}
use termcp_relay.Dict.{member}
use termcp_relay.Ssh.Auth.Laws.{password_ok_iff, public_key_ok_iff}
use termcp_relay.Ssh.Server.{Options, Handlers, Server, auth_of, handlers_of, new}

-- What a client offers: nothing, a password with a user's name, or a key, marshalled.
pub data Credential : Type 0 where
  nothing : Credential
  password : Text → Text → Credential
  key : Text → Credential

-- The library's decision. With no handler at all it lets every client in without a challenge; a
-- credential is accepted by its handler and by nothing else.
pub record Library : Type 0 where
  pub admits : Handlers → Credential → Bool
  pub admits_nothing :
      (h : Handlers)
      → admits h nothing ≡ not (is_some h.password_handler || is_some h.public_key_handler)
  pub admits_password :
      (h : Handlers) (user pw : Text)
      → admits h (password user pw)
        ≡ elim h.password_handler [ none ↦ false | some accepts ↦ accepts user pw ]
  pub admits_key :
      (h : Handlers) (k : Text)
      → admits h (key k) ≡ elim h.public_key_handler [ none ↦ false | some accepts ↦ accepts k ]

-- The library, as far as these laws determine it.
abbrev pub decide : Handlers → Credential → Bool
decide h nothing = not (is_some h.password_handler || is_some h.public_key_handler)
decide h (password user pw) = elim h.password_handler [
  | none ↦ false
  | some accepts ↦ accepts user pw
]
decide h (key k) = elim h.public_key_handler [ none ↦ false | some accepts ↦ accepts k ]

abbrev pub plain_library : Library
plain_library = record {
  admits = decide;
  admits_nothing = λ h. refl;
  admits_password = λ h user pw. refl;
  admits_key = λ h k. refl;
}

-- Who is to be let in: anybody without a challenge, if authentication is off or no method is
-- configured; unless it is off, a user with the configured password, and the configured name if there
-- is one, and whoever has one of the authorized keys.
abbrev pub is_admitted : Auth → Credential → Bool
is_admitted a nothing = a.no_auth || (is_nil a.password && is_nil a.authorized_keys)
is_admitted a (password user pw) =
    not a.no_auth
    && not (is_nil a.password)
    && (is_nil a.username || user =t= a.username)
    && pw =t= a.password
is_admitted a (key k) = not a.no_auth && member k a.authorized_keys

password_ok-configured :
    (a : Auth) (user pw : Text)
    → password_ok a user pw
      ≡ (not (is_nil a.password) && (is_nil a.username || user =t= a.username) && pw =t= a.password)
password_ok-configured a user pw =
    ground (arith, password_ok_iff a user pw, text_iff user a.username, text_iff pw a.password)

password_ok_unset :
    (a : Auth) (user pw : Text) → is_nil a.password ≡ true → password_ok a user pw ≡ false
unfolding password_ok
password_ok_unset a user pw h = rw h

public_key_ok_unset :
    (a : Auth) (k : Text) → is_nil a.authorized_keys ≡ true → public_key_ok a k ≡ false
unfolding public_key_ok
public_key_ok_unset a k h = rw h

handlers_of-is_admitted :
    (library : Library) (opts : Options) (c : Credential)
    → library.admits (handlers_of opts) c ≡ is_admitted (auth_of opts) c
unfolding handlers_of
handlers_of-is_admitted library opts nothing =
    library.admits_nothing (handlers_of opts) ∙ ground arith
handlers_of-is_admitted library opts (password user pw) =
    let a = auth_of opts in
    library.admits_password (handlers_of opts) user pw
    ∙ ground (arith, password_ok_unset a user pw, password_ok-configured a user pw)
handlers_of-is_admitted library opts (key k) =
    let a = auth_of opts in
    library.admits_key (handlers_of opts) k
    ∙ ground (arith, public_key_ok_unset a k, public_key_ok_iff a k)

-- A server that `New` returns lets in exactly the clients that its authentication settings admit,
-- and forwards ports exactly as its options allow.
pub new_admits :
    {Signer : Type 0} (library : Library) (opts : Options) (set_option : Bool) (s : Server Signer)
    → new opts set_option ≡ ok s
    → ((c : Credential) → library.admits s.handlers c ≡ is_admitted (auth_of opts) c)
      × ((user host : Text) (port : ℕ)
          → (s.handlers.local_port_forwarding user host port ≡ opts.allow_local_fwd)
            × (s.handlers.reverse_port_forwarding user host port ≡ opts.allow_remote_fwd))
unfolding new
new_admits library opts set_option s h =
    let same : s.handlers ≡ handlers_of opts = ground arith in
    (
      λ c. ap (λ k. library.admits k c) same ∙ handlers_of-is_admitted library opts c,
      λ user host port. rw same (refl, refl),
    )
