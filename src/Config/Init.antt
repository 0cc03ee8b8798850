-- ===== src/Config/Init.antt =====
-- `WriteTemplate`.
use termcp_relay.Prelude.{
  ◌≡◌, ◌≢◌, ◌⊎◌, inl, inr, ◌&&◌, not, Option, none, some, arith, if◌then◌else◌, Text, codes, ◌=t=◌,
  text_iff, text_refl, is_nil, refl, ◌∙◌, Bool-cases, Option-cases, [],
}
use termcp_relay.Dict.{lookup, insert, lookup-insert}
use termcp_relay.Host.Paths.{Paths}
use termcp_relay.Host.Disk.{
  Disk, File, FileError, exist, refused, create_file, write_string, mkdir_all,
}
use termcp_relay.Config.Template.{config_template}

-- What is in a file that was made although an error is reported: what had been written by then.
abbrev pub Remains : Option Text → Option File → Type 0
Remains cut_off found =
    (found ≡ none)
    ⊎ ((left : Text) × (cut_off ≡ some left)
        × (found ≡ some (record { content = left; mode = 0o600 })))

module _ (paths : Paths) where
  -- `if dir := filepath.Dir(path); dir != "" && dir != "."`
  unfoldable pub make_parent : Disk → Text → Option FileError
  make_parent d path =
      let dir = paths.dir path in
      if not (is_nil dir) && not (dir =t= codes ".") then mkdir_all d dir else none

  -- What `WriteTemplate` does with the result of its `os.OpenFile`.
  unfoldable pub fill_template :
      Option Text → Text → Option FileError × Disk → Option FileError × Disk
  unfolding write_string
  fill_template cut_off path (some e, d) = (some e, d)
  fill_template cut_off path (none, d) = write_string d cut_off path config_template

  -- The second argument is how the write of the template ends.
  unfoldable pub write_template : Disk → Option Text → Text → Option FileError × Disk
  unfolding make_parent create_file fill_template
  write_template d cut_off path = elim (make_parent d path) [
    | some e ↦ (some e, d)
    | none ↦ fill_template cut_off path (create_file d path 0o600)
  ]

  abbrev fresh : File
  fresh = record { content = []; mode = 0o600 }

  abbrev made : Disk → Text → Disk
  made d path = record d { files = insert path fresh d.files }

  create_file_cases :
      (d : Disk) (path : Text)
      → ((e : FileError) × (create_file d path 0o600 ≡ (some e, d)))
        ⊎ ((lookup path d.files ≡ none) × (create_file d path 0o600 ≡ (none, made d path)))
  unfolding create_file
  create_file_cases d path = elim (Option-cases (lookup path d.files)) [
    | inr (f, there) ↦ inl (exist, ground (arith, there))
    | inl gone ↦ elim (Bool-cases (d.refuses_write path)) [
      | inl bad ↦ inl (refused, ground (arith, gone, bad))
      | inr good ↦ inr (gone, ground (arith, gone, good))
    ]
  ]

  write_template_cases :
      (d : Disk) (cut_off : Option Text) (path : Text)
      → ((e : FileError) × (write_template d cut_off path ≡ (some e, d)))
        ⊎ ((lookup path d.files ≡ none)
            × (write_template d cut_off path
                ≡ write_string (made d path) cut_off path config_template))
  unfolding write_template fill_template
  write_template_cases d cut_off path = elim (Option-cases (make_parent d path)) [
    | inr (e, refuses) ↦ inl (e, ground (arith, refuses))
    | inl fine ↦ elim (create_file_cases d path) [
      | inl (e, fails) ↦ inl (e, ground (arith, fine, fails))
      | inr (gone, made) ↦ inr (gone, ground (arith, fine, made))
    ]
  ]

  lookup-made : (d : Disk) (path : Text) → lookup path (made d path).files ≡ some fresh
  lookup-made d path = lookup-insert path path fresh d.files ∙ rw (text_refl path) refl

  write_string_others :
      (d : Disk) (cut_off : Option Text) (path other : Text)
      → path ≢ other
      → lookup other (write_string (made d path) cut_off path config_template).1.files
        ≡ lookup other d.files
  unfolding write_string
  write_string_others d cut_off path other apart =
      let reached : Text = elim cut_off [ none ↦ config_template | some left ↦ left ] in
      ground (
        arith,
        lookup-made d path,
        lookup-insert path other (record { content = reached; mode = 0o600 }) (made d path).files,
        lookup-insert path other fresh d.files,
        text_iff path other,
      )

  write_string_whole :
      (d : Disk) (cut_off : Option Text) (path : Text)
      → (write_string (made d path) cut_off path config_template).0 ≡ none
      → lookup path (write_string (made d path) cut_off path config_template).1.files
        ≡ some (record { content = config_template; mode = 0o600 })
  unfolding write_string
  write_string_whole d (some left) path h = absurd (ground arith)
  write_string_whole d none path h =
      let whole : File = record { content = config_template; mode = 0o600 } in
      ground (
        arith,
        lookup-made d path,
        lookup-insert path path whole (made d path).files,
        text_refl path,
      )

  write_string_cut :
      (d : Disk) (cut_off : Option Text) (path : Text)
      → (write_string (made d path) cut_off path config_template).0 ≢ none
      → (left : Text) × (cut_off ≡ some left)
        × (lookup path (write_string (made d path) cut_off path config_template).1.files
            ≡ some (record { content = left; mode = 0o600 }))
  unfolding write_string
  write_string_cut d none path h = absurd (h refl)
  write_string_cut d (some left) path h = (
    left,
    refl,
    let part : File = record { content = left; mode = 0o600 } in
        ground (
          arith,
          lookup-made d path,
          lookup-insert path path part (made d path).files,
          text_refl path,
        ),
  )

  -- No other file is touched, and an existing one neither, which is an error. Without an error there
  -- was no file, and there is one with the template now that its owner alone can read. With an error
  -- a file that did not exist is not there, or holds what was written before the write failed.
  pub write_template_lem :
      (d : Disk) (cut_off : Option Text) (path : Text)
      → let (e, d') = write_template d cut_off path in
        ((other : Text) → path ≢ other → lookup other d'.files ≡ lookup other d.files)
        × ((f : File) → lookup path d.files ≡ some f → (e ≢ none) × (d' ≡ d))
        × (e ≡ none
            → (lookup path d.files ≡ none)
              × (lookup path d'.files ≡ some (record { content = config_template; mode = 0o600 })))
        × (e ≢ none → lookup path d.files ≡ none → Remains cut_off (lookup path d'.files))
  write_template_lem d cut_off path = elim (write_template_cases d cut_off path) [
    | inl (e, same) ↦
        rw same
          ((λ other apart. refl), (λ f there. ((λ h. cc), refl)), (λ h. cc), λ h gone. inl gone)
    | inr (gone, same) ↦ rw same (
      (λ other apart. write_string_others d cut_off path other apart),
      (λ f there. cc),
      (λ h. (gone, write_string_whole d cut_off path h)),
      λ h _. inr (write_string_cut d cut_off path h),
    )
  ]
