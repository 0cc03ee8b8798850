-- ===== src/Ssh/Auth/Laws.antt =====
-- Who is let in, and what the loading of the key file does.
use termcp_relay.Prelude.{
  ℕ, zero, suc, ◌+◌, ◌<◌, ◌≡◌, ◌≢◌, ◌↔◌, ◌⊎◌, refl, ap, inl, inr, true, false, ◌&&◌, Option, none,
  some, List, [], ◌∷◌, arith, ◌==◌, if◌then◌else◌, Text, text_iff, length, is_nil, Bool-cases,
  Option-cases,
}
use termcp_relay.Strings.{is_blank}
use termcp_relay.Dict.{member}
use termcp_relay.Host.Disk.{Disk, FileError, FileResult, content, failed, read_file}
use termcp_relay.Ssh.Auth.{
  Auth, constant_time_compare, password_ok, public_key_ok, keys_loop, parse_keys, keys_of,
  keep_keys, load_authorized_keys,
}

compare_iff : (x y : Text) → ((constant_time_compare x y == 1) ≡ true) ↔ (x ≡ y)
unfolding constant_time_compare
compare_iff x y = ground (arith, text_iff x y)

-- The test of the lengths is implied by that of the contents.
same_iff :
    (x y : Text) → ((length x == length y && constant_time_compare x y == 1) ≡ true) ↔ (x ≡ y)
same_iff x y = (
  λ h. (compare_iff x y).0 (ground arith),
  λ e. let lengths = ap (length {A = ℕ}) e in ground (arith, lengths, (compare_iff x y).1 e),
)

-- A password is accepted exactly if one is configured, it is that one, and the user's name is the
-- configured one, or none is configured.
pub password_ok_iff :
    (a : Auth) (user password : Text)
    → (password_ok a user password ≡ true) ↔ (
        (is_nil a.password ≡ false)
        × ((is_nil a.username ≡ true) ⊎ (user ≡ a.username))
        × (password ≡ a.password))
unfolding password_ok
password_ok_iff a user password = (
  λ h. (
    ground arith,
    (elim (Bool-cases (is_nil a.username)) [
      | inl any_user ↦ inl any_user
      | inr named ↦ inr ((compare_iff user a.username).0 (ground arith))
    ]),
    (compare_iff password a.password).0 (ground arith),
  ),
  λ h. ground (arith, compare_iff user a.username, compare_iff password a.password, h.0, h.1, h.2),
)

keys_loop-member :
    (offered : Text) (keys : List Text) → keys_loop keys offered ≡ member offered keys
unfolding keys_loop member
keys_loop-member offered [] = refl
keys_loop-member offered (k ∷ keys) =
    ground (arith, keys_loop-member offered keys, same_iff k offered, text_iff offered k)

-- A key is accepted exactly if it is one of the authorized keys.
pub public_key_ok_iff :
    (a : Auth) (offered : Text) → public_key_ok a offered ≡ member offered a.authorized_keys
unfolding public_key_ok member
public_key_ok_iff a offered = public_key_ok_keys a.authorized_keys
  where
    public_key_ok_keys :
        (keys : List Text)
        → (if is_nil keys then false else keys_loop keys offered) ≡ member offered keys
    public_key_ok_keys [] = refl
    public_key_ok_keys (k ∷ keys) = keys_loop-member offered (k ∷ keys)

module _ (parse_authorized_key : Text → Option (Text × Text)) where
  -- The rest behind a key is shorter than the text that the key was read from.
  abbrev pub Consumes : Type 0
  Consumes =
      (s key rest : Text) → parse_authorized_key s ≡ some (key, rest) → length rest < length s

  -- The keys of a text, up to the first place at which no key is found.
  pub data Parses : Text → List Text → Type 0 where
    done : {s : Text} → parse_authorized_key s ≡ none → Parses s []
    key_then :
        {s key rest : Text} {keys : List Text}
        → parse_authorized_key s ≡ some (key, rest)
        → Parses rest keys
        → Parses s (key ∷ keys)

  parse_keys-Parses :
      Consumes
      → (rounds : ℕ) (s : Text) → length s < rounds
      → (keys : List Text) × (parse_keys parse_authorized_key rounds s ≡ some keys) × Parses s keys
  unfolding parse_keys
  parse_keys-Parses law zero s h = elim h [ ]
  parse_keys-Parses law (suc rounds) s h = elim (Option-cases (parse_authorized_key s)) [
    | inl gone ↦ ([], rw (gone, parse_keys), done gone)
    | inr ((key, rest), found) ↦
        let (keys, e, p) =
          parse_keys-Parses law rounds rest (omega (arith, law s key rest found)) in
        (key ∷ keys, rw (found, e, parse_keys), key_then found p)
  ]

  -- The loop ends within its rounds, and has read all the keys up to the first failure.
  pub keys_of-Parses : Consumes → (raw : Text) → Parses raw (keys_of parse_authorized_key raw)
  unfolding keys_of
  keys_of-Parses law raw =
      let (keys, e, p) = parse_keys-Parses law (length raw + 1) raw (omega arith) in
      rw (e, keys_of) p

  -- The file could not be read, or no key is found in it.
  abbrev pub Unusable : FileResult → Type 0
  Unusable r =
      ((f : FileError) × (r ≡ failed f))
      ⊎ ((raw : Text) × (r ≡ content raw) × (is_nil (keys_of parse_authorized_key raw) ≡ true))

  keep_keys_lem :
      (a : Auth) (r : FileResult)
      → let (e, a') = keep_keys parse_authorized_key a r in
        (Unusable r × (e ≢ none) × (a' ≡ a))
        ⊎ ((raw : Text) × (r ≡ content raw)
            × (e ≡ none)
            × (is_nil a'.authorized_keys ≡ false)
            × (a' ≡ record a { authorized_keys = keys_of parse_authorized_key raw }))
  unfolding keep_keys
  keep_keys_lem a (failed f) = inl (inl (f, refl), (λ h. cc), refl)
  keep_keys_lem a (content raw) = elim (Bool-cases (is_nil (keys_of parse_authorized_key raw))) [
    | inl empty ↦ rw empty (inl (inr (raw, refl, empty), (λ h. cc), refl))
    | inr full ↦ rw full (inr (raw, refl, refl, full, refl))
  ]

  -- A blank path changes nothing and is no error. An error means that the file cannot be read, or that
  -- no key is found in it, and leaves the keys as they were. Else the keys are those of the file, and no other
  -- setting changes.
  pub load_authorized_keys_lem :
      (d : Disk) (a : Auth) (path : Text)
      → let (e, a') = load_authorized_keys parse_authorized_key d a path in
        ((is_blank path ≡ true) × (e ≡ none) × (a' ≡ a))
        ⊎ ((is_blank path ≡ false) × Unusable (read_file d path) × (e ≢ none) × (a' ≡ a))
        ⊎ ((raw : Text) × (read_file d path ≡ content raw)
            × (e ≡ none)
            × (is_nil a'.authorized_keys ≡ false)
            × (a' ≡ record a { authorized_keys = keys_of parse_authorized_key raw }))
  unfolding load_authorized_keys
  load_authorized_keys_lem d a path = elim (Bool-cases (is_blank path)) [
    | inl blank ↦ rw blank (inl (refl, refl, refl))
    | inr named ↦ rw named (elim (keep_keys_lem a (read_file d path)) [
      | inl (bad, e, same) ↦ inr (inl (refl, bad, e, same))
      | inr loaded ↦ inr (inr loaded)
    ])
  ]
