-- ===== src/Windows/Credential/Laws.antt =====
-- The password arrives, and no file stays.
use termcp_relay.Prelude.{◌≡◌, false, none, some, Text, text_iff, arith, Option-cases, inl, inr}
use termcp_relay.Dict.{lookup, insert, lookup-insert, lookup-remove}
use termcp_relay.Host.Disk.{Disk, File, read_file, remove_file}
use termcp_relay.Windows.Credential.{
  Handoff, create_temp, fill, write_credential_file, password_read, read_credential_file,
}

-- The files are the same.
pub record SameFiles (d d' : Disk) : Type 0 where
  pub same : (path : Text) → lookup path d'.files ≡ lookup path d.files

pub remove-create_temp :
    (d : Disk) (path text : Text)
    → lookup path d.files ≡ none
    → SameFiles d (remove_file (create_temp d path text) path)
unfolding remove_file create_temp
remove-create_temp d path text fresh = record {
  same = λ other.
      let file : File = record { content = text; mode = 0o600 } in
      ground (
        arith,
        lookup-remove path other (insert path file d.files),
        lookup-insert path other file d.files,
        text_iff path other,
      );
}

read-create_temp :
    (d : Disk) (path text : Text)
    → d.refuses_read path ≡ false
    → password_read (read_file (create_temp d path text) path) ≡ some text
unfolding create_temp password_read read_file
read-create_temp d path text readable =
    let file : File = record { content = text; mode = 0o600 } in
    ground (arith, lookup-insert path path file d.files, text_iff path path)

filled :
    (d d' : Disk) (h : Handoff) (password at path : Text)
    → fill d h password at ≡ (some path, d')
    → d' ≡ create_temp d path password
unfolding fill
filled d d' h password at path e = ground arith

pub created :
    (d d' : Disk) (h : Handoff) (password path : Text)
    → write_credential_file d h password ≡ (some path, d')
    → d' ≡ create_temp d path password
unfolding write_credential_file
created d d' h password path e = elim (Option-cases h.temp) [
  | inl gone ↦ absurd (ground arith)
  | inr (at, made) ↦ filled d d' h password at path (rw made at e)
]

-- The password that one process writes to a new file is what the next reads, and afterwards all
-- files are as they were before, provided that the file is new and can be read.
pub read_credential_file-write_credential_file :
    (d d' : Disk) (h : Handoff) (password path : Text)
    → write_credential_file d h password ≡ (some path, d')
    → lookup path d.files ≡ none
    → d.refuses_read path ≡ false
    → ((read_credential_file d' path).0 ≡ some password)
      × SameFiles d (read_credential_file d' path).1
unfolding read_credential_file
read_credential_file-write_credential_file d d' h password path e fresh readable =
    rw (created d d' h password path e)
      (read-create_temp d path password readable, remove-create_temp d path password fresh)
