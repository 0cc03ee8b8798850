-- ===== src/Ssh/HostKey/Stable.antt =====
-- The host key stays the same from one run to the next.
use termcp_relay.Prelude.{
  ℕ, ◌≡◌, refl, inl, inr, false, Option, none, some, arith, Text, text_refl, is_nil, Result, ok,
  Option-cases,
}
use termcp_relay.Dict.{lookup-insert}
use termcp_relay.Host.Paths.{Paths}
use termcp_relay.Host.Disk.{
  Disk, File, not_exist, exist, refused, FileResult, content, failed, read_file, write_file,
}
use termcp_relay.Ssh.HostKey.{
  KeyError, generate_host_key_pem, create_host_key, load_or_create_host_key,
}

-- A file that did not exist reads as what was written to it.
read_file-write_file :
    (d d' : Disk) (path text : Text) (mode : ℕ)
    → read_file d path ≡ failed not_exist
    → write_file d path text mode ≡ (none, d')
    → read_file d' path ≡ content text
unfolding read_file write_file
read_file-write_file d d' path text mode missing written =
    let file : File = record { content = text; mode = mode } in
    ground (arith, lookup-insert path path file d.files, text_refl path)

module _ {Signer : Type 0} (paths : Paths) (parse_private_key : Text → Option Signer) where
  -- The file holds a key of the signer.
  record Holds (d : Disk) (path : Text) (signer : Signer) : Type 0 where
    raw : Text
    named : is_nil path ≡ false
    reads : read_file d path ≡ content raw
    parses : parse_private_key raw ≡ some signer

  load_of_Holds :
      (d : Disk) (path : Text) (random : Option Text) (signer : Signer)
      → Holds d path signer
      → load_or_create_host_key paths parse_private_key d path random ≡ (ok signer, d)
  unfolding load_or_create_host_key
  load_of_Holds d path random signer h = ground (arith, h.named, h.reads, h.parses)

  generate_parses :
      (random : Option Text) (signer : Signer) (pem : Text)
      → generate_host_key_pem paths parse_private_key random ≡ some (signer, pem)
      → parse_private_key pem ≡ some signer
  unfolding generate_host_key_pem
  generate_parses none signer pem e = cc
  generate_parses (some text) signer pem e = ground arith

  -- A key that was made has been written.
  create_written :
      (d d' : Disk) (path : Text) (random : Option Text) (signer : Signer)
      → create_host_key paths parse_private_key d path random ≡ (ok signer, d')
      → (pem : Text) × (generate_host_key_pem paths parse_private_key random ≡ some (signer, pem))
        × (write_file d path pem 0o600 ≡ (none, d'))
  unfolding create_host_key
  create_written d d' path random signer h =
      elim (Option-cases (generate_host_key_pem paths parse_private_key random)) [
        | inl gone ↦ absurd (ground arith)
        | inr ((s, pem), made) ↦ (pem, ground arith, ground arith)
      ]

  Holds-of_create :
      (d d' : Disk) (path : Text) (random : Option Text) (signer : Signer)
      → is_nil path ≡ false
      → read_file d path ≡ failed not_exist
      → create_host_key paths parse_private_key d path random ≡ (ok signer, d')
      → Holds d' path signer
  Holds-of_create d d' path random signer named missing h =
      let (pem, made, written) = create_written d d' path random signer h in
      record {
        raw = pem;
        named = named;
        reads = read_file-write_file d d' path pem 0o600 missing written;
        parses = generate_parses random signer pem made;
      }

  abbrev load : Disk → Text → Option Text → Result KeyError Signer × Disk
  load = load_or_create_host_key paths parse_private_key

  named_of_ok :
      (d d' : Disk) (path : Text) (random : Option Text) (signer : Signer)
      → load d path random ≡ (ok signer, d')
      → is_nil path ≡ false
  unfolding load_or_create_host_key
  named_of_ok d d' path random signer h = ground arith

  -- What the first run did, from what its read returned.
  Holds-of_read :
      (d d' : Disk) (path : Text) (random : Option Text) (signer : Signer) (r : FileResult)
      → is_nil path ≡ false
      → read_file d path ≡ r
      → load d path random ≡ (ok signer, d')
      → Holds d' path signer
  unfolding load_or_create_host_key
  Holds-of_read d d' path random signer (content raw) named e h = record {
    raw = raw;
    named = named;
    reads = ground arith;
    parses = ground arith;
  }
  Holds-of_read d d' path random signer (failed not_exist) named e h =
      Holds-of_create d d' path random signer named e (ground arith)
  Holds-of_read d d' path random signer (failed exist) named e h = absurd (ground arith)
  Holds-of_read d d' path random signer (failed refused) named e h = absurd (ground arith)

  -- The host key is stable: what one run returns, every later run on the disk that it left returns
  -- again, whatever its random numbers are, and leaves the disk as it is.
  pub load_or_create_host_key_stable :
      (d d' : Disk) (path : Text) (random random' : Option Text) (signer : Signer)
      → load_or_create_host_key paths parse_private_key d path random ≡ (ok signer, d')
      → load_or_create_host_key paths parse_private_key d' path random' ≡ (ok signer, d')
  load_or_create_host_key_stable d d' path random random' signer h =
      load_of_Holds d' path random' signer (
        Holds-of_read d d' path random signer (read_file d path)
          (named_of_ok d d' path random signer h) refl h)
