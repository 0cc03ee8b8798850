-- ===== src/Ssh/HostKey.antt =====
-- internal/sshserver/hostkey.go: the host key is read from its file, or made and stored there. The
-- SSH library's `ParsePrivateKey` is a parameter, and so is the outcome of `rsa.GenerateKey`, as
-- the PEM block that encodes the key.
pub mod Stable
use termcp_relay.Prelude.{
  ℕ, ◌≡◌, refl, sym, ap, ◌∙◌, inl, inr, Bool, true, false, Option, none, some, List, [], ◌∷◌, arith,
  if◌then◌else◌, Text, text_iff, text_refl, is_nil, Result, ok, err, Bool-cases, Option-cases,
}
use termcp_relay.Dict.{lookup, insert, lookup-insert}
use termcp_relay.Host.Paths.{Paths}
use termcp_relay.Host.Disk.{
  Disk, File, FileError, not_exist, FileResult, content, failed, read_file, write_file, mkdir_all,
}
use termcp_relay.Config.Init.{make_parent}

pub data KeyError : Type 0 where
  path_empty : KeyError
  parse_failed : KeyError
  read_failed : FileError → KeyError
  generate_failed : KeyError
  mkdir_failed : FileError → KeyError
  write_failed : FileError → KeyError

module _ {Signer : Type 0} (paths : Paths) (parse_private_key : Text → Option Signer) where
  -- `generateHostKeyPEM`: the signer is parsed from the block that will be stored.
  unfoldable pub generate_host_key_pem : Option Text → Option (Signer × Text)
  generate_host_key_pem none = none
  generate_host_key_pem (some pem) = elim (parse_private_key pem) [
    | none ↦ none
    | some signer ↦ some (signer, pem)
  ]

  -- The part after the read found no file.
  unfoldable pub create_host_key : Disk → Text → Option Text → Result KeyError Signer × Disk
  create_host_key d path random = elim (generate_host_key_pem random) [
    | none ↦ (err generate_failed, d)
    | some (signer, pem) ↦ elim (make_parent paths d path) [
      | some e ↦ (err (mkdir_failed e), d)
      | none ↦
          let (e, d') = write_file d path pem 0o600 in
          elim e [ some e' ↦ (err (write_failed e'), d') | none ↦ (ok signer, d') ]
    ]
  ]

  unfoldable pub load_or_create_host_key : Disk → Text → Option Text → Result KeyError Signer × Disk
  load_or_create_host_key d path random =
      if is_nil path then (err path_empty, d) else elim (read_file d path) [
        | content raw ↦ elim (parse_private_key raw) [
          | none ↦ (err parse_failed, d)
          | some signer ↦ (ok signer, d)
        ]
        | failed not_exist ↦ create_host_key d path random
        | failed e ↦ (err (read_failed e), d)
      ]
