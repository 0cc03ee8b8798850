-- ===== src/Windows/Handover/Declined.antt =====
-- When the prompt for more rights is declined, every file is as it was before.
use termcp_relay.Prelude.{
  not, false, subst, Bool-cases, Option-cases, ◌≡◌, ◌⊎◌, refl, sym, ap, ◌∙◌, inl, inr, Bool, true,
  ◌||◌, List, [], ◌∷◌, ◌++◌, Option, none, some, Text, codes, arith, text_iff,
}
use termcp_relay.Dict.{lookup, lookup-insert, lookup-remove}
use termcp_relay.Host.Disk.{Disk, File, remove_file}
use termcp_relay.Cli.Options.{Options}
use termcp_relay.Cli.Args.{child_args, credential_flag}
use termcp_relay.Windows.Credential.{Handoff, create_temp, fill, write_credential_file}
use termcp_relay.Windows.Credential.Laws.{SameFiles, remove-create_temp}
use termcp_relay.Windows.Elevate.{
  Shell, cancelled, params_of, shell_execute_ex, relaunch_with, relaunch_found, relaunch_elevated,
}
use termcp_relay.Windows.Handover.Laws.{launch_disk}
use termcp_relay.Windows.Handover.{
  Machine, handover_of, remove_after, relaunch_with_file, relaunch_on, maybe_elevate_on,
}

-- The prompt is declined: nothing is launched, so that nothing touches the disk.
pub record IsDeclined (m : Shell) : Type 0 where
  pub declined :
      (verb file : Text) (args : Option Text) (d : Disk)
      → m.execute verb file args d ≡ (cancelled, d)

SameFiles-refl : (d : Disk) → SameFiles d d
SameFiles-refl d = record { same = λ path. refl }

module _ (m : Shell) (quiet : IsDeclined m) where
  shell_execute_ex_quiet :
      (d : Disk) (verb file : Text) (args : List Text) → (shell_execute_ex m d verb file args).1 ≡ d
  unfolding shell_execute_ex
  shell_execute_ex_quiet d verb file args =
      ground (arith, ap (λ r. r.1) (quiet.declined verb file (params_of args) d))

  relaunch_found_quiet :
      (d : Disk) (args : List Text) (exe report : Option Text)
      → ((path : Text) → report ≡ some path → lookup path d.files ≡ none)
      → SameFiles d (relaunch_found m d args exe report).disk
  unfolding relaunch_found relaunch_with
  relaunch_found_quiet d args none report fresh = SameFiles-refl d
  relaunch_found_quiet d args (some exe) none fresh = SameFiles-refl d
  relaunch_found_quiet d args (some exe) (some path) fresh =
      rw (shell_execute_ex_quiet (create_temp d path []) (codes "runas") exe _)
        (remove-create_temp d path [] (fresh path refl))

  relaunch_elevated_quiet :
      (d : Disk) (args : List Text)
      → ((path : Text) → m.report ≡ some path → lookup path d.files ≡ none)
      → SameFiles d (relaunch_elevated m d args).disk
  unfolding relaunch_elevated
  relaunch_elevated_quiet d args fresh = relaunch_found_quiet d args m.executable m.report fresh

-- The removal of a file that was new.
remove-SameFiles :
    (d d' : Disk) (path text : Text)
    → lookup path d.files ≡ none
    → SameFiles (create_temp d path text) d'
    → SameFiles d (remove_file d' path)
unfolding remove_file create_temp
remove-SameFiles d d' path text fresh kept = record {
  same = λ other.
      let file : File = record { content = text; mode = 0o600 } in
      ground (
        arith,
        lookup-remove path other d'.files,
        lookup-insert path other file d.files,
        kept.same other,
        text_iff path other,
      );
}

-- What `writeCredentialFile` comes to: it fails, and the files are as they were, or it makes a new file.
abbrev Wrote : Disk → Option Text × Disk → Type 0
Wrote d w =
    ((w.0 ≡ none) × SameFiles d w.1)
    ⊎ ((path : Text) × (text : Text) × (lookup path d.files ≡ none)
        × (w ≡ (some path, create_temp d path text)))

fill-Wrote :
    (d : Disk) (h : Handoff) (password path : Text)
    → h.remove_ok ≡ true
    → lookup path d.files ≡ none
    → Wrote d (fill d h password path)
unfolding fill
fill-Wrote d h password path can fresh = elim (Bool-cases (not h.chmod_ok || not h.write_ok)) [
  | inl bad ↦ rw bad (rw can (inl (refl, remove-create_temp d path h.left fresh)))
  | inr good ↦ rw good (inr (path, password, fresh, refl))
]

write-Wrote :
    (d : Disk) (h : Handoff) (password : Text)
    → h.remove_ok ≡ true
    → ((path : Text) → h.temp ≡ some path → lookup path d.files ≡ none)
    → Wrote d (write_credential_file d h password)
unfolding write_credential_file
write-Wrote d h password can fresh = elim (Option-cases h.temp) [
  | inl gone ↦ rw gone (inl (refl, SameFiles-refl d))
  | inr (path, made) ↦ rw made (fill-Wrote d h password path can (fresh path made))
]

module _ (m : Machine) (d : Disk) (child : List Text) (quiet : IsDeclined m.shell) where
  abbrev Fresh : Disk → Type 0
  Fresh d' = (path : Text) → m.shell.report ≡ some path → lookup path d'.files ≡ none

  made_quiet :
      (path text : Text)
      → m.handoff.remove_ok ≡ true
      → Fresh (create_temp d path text)
      → lookup path d.files ≡ none
      → SameFiles d (relaunch_with_file m child (some path, create_temp d path text)).disk
  unfolding relaunch_with_file remove_after handover_of
  made_quiet path text can fresh new = rw can (
      remove-SameFiles d _ path text new (
        relaunch_elevated_quiet m.shell quiet (create_temp d path text)
          (child ++ (credential_flag ∷ path ∷ [])) fresh))

  relaunch_with_file_quiet :
      (w : Option Text × Disk)
      → m.handoff.remove_ok ≡ true
      → Fresh w.1
      → Wrote d w
      → SameFiles d (relaunch_with_file m child w).disk
  unfolding relaunch_with_file
  relaunch_with_file_quiet (none, d') can fresh (inl (_, kept)) = kept
  relaunch_with_file_quiet (some at, d') can fresh (inl (gone, _)) = cc
  relaunch_with_file_quiet w can fresh (inr (path, text, new, e)) =
      subst (λ w. SameFiles d (relaunch_with_file m child w).disk) (sym e)
        (made_quiet path text can (subst (λ w. Fresh w.1) e fresh) new)

-- The names that `os.CreateTemp` makes are those of no file at the time.
pub record AreNew (m : Machine) (d : Disk) (o : Options) : Type 0 where
  pub credential : (path : Text) → m.handoff.temp ≡ some path → lookup path d.files ≡ none
  pub report :
      (path : Text) → m.shell.report ≡ some path → lookup path (launch_disk m d o).files ≡ none

launches_on :
    (m : Machine) (d : Disk) (o : Options)
    → (o.needs_credential ≡ true
        → (write_credential_file d m.handoff o.password).1 ≡ launch_disk m d o)
      × (o.needs_credential ≡ false → d ≡ launch_disk m d o)
launches_on m d o = ((λ needs. rw needs refl), (λ plain. rw plain refl))

relaunch_on_quiet :
    (m : Machine) (d : Disk) (child : List Text) (o : Options)
    → IsDeclined m.shell
    → AreNew m d o
    → m.handoff.remove_ok ≡ true
    → SameFiles d (relaunch_on m d child o).disk
unfolding relaunch_on handover_of
relaunch_on_quiet m d child o quiet new can = elim (Bool-cases o.needs_credential) [
  | inl needs ↦ rw needs (
      relaunch_with_file_quiet m d child quiet (write_credential_file d m.handoff o.password) can
        (λ path e.
          ap (λ (d : Disk). lookup path d.files) ((launches_on m d o).0 needs) ∙ new.report path e)
        (write-Wrote d m.handoff o.password can new.credential))
  | inr plain ↦ rw plain (
      relaunch_elevated_quiet m.shell quiet d child (λ path e.
        ap (λ (d : Disk). lookup path d.files) ((launches_on m d o).1 plain) ∙ new.report path e))
]

either :
    (m : Machine) (d : Disk) (action : Text) (o : Options) (told : Bool)
    → let h = maybe_elevate_on m d action o told in
      (h.disk ≡ d) ⊎ (h.disk ≡ (relaunch_on m d (child_args action o) o).disk)
unfolding maybe_elevate_on
either m d action o told = ground arith

-- When the prompt is declined, every file is as it was before, the one for the password and the
-- one for the report included, given that their names were new and that the system does not refuse
-- to remove the file for the password.
pub maybe_elevate_on_declined :
    (m : Machine) (d : Disk) (action : Text) (o : Options) (told : Bool)
    → IsDeclined m.shell
    → AreNew m d o
    → m.handoff.remove_ok ≡ true
    → SameFiles d (maybe_elevate_on m d action o told).disk
maybe_elevate_on_declined m d action o told quiet new can = elim (either m d action o told) [
  | inl same ↦ subst (SameFiles d) (sym same) (SameFiles-refl d)
  | inr same ↦
      subst (SameFiles d) (sym same) (relaunch_on_quiet m d (child_args action o) o quiet new can)
]
