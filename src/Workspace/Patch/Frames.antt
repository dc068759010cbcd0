-- ===== src/Workspace/Patch/Frames.antt =====
-- What each step of the transaction leaves alone: every name that is none of its entry's.
use materialmind.Common.{
  ◌≡◌, ◌∙◌, ◌⊎◌, inl, inr, refl, String, Bool, true, false, Option, none, some, List, [], ◌∷◌,
  str_eq, lookup, arith,
}
use materialmind.Workspace.Disk.{
  Node, Disk, Result, ok, err, Action, ◌>>=◌, ◌>>◌, pure, attempt, find, rename, create_new, write,
}
use materialmind.Workspace.Disk.Laws.{
  Keeps, remove-Keeps, rename-Keeps, link-Keeps, create_new-Keeps, write-Keeps, bind-Keeps,
  seq-Keeps, Reads, bind-Reads, Reads-Keeps,
}
use materialmind.Workspace.Files.{
  Operation, FilePatch, Host, Snapshot, staging_name, backup_name, read_optional_edit_snapshot,
  validate_file_state, check_state, validate_patch_state, or_conflict, read_found, is_delete,
}
use materialmind.Workspace.Patch.{
  link_staged, PatchEntry, stage_patch_file, stage_entry, stage_unless, move_entry, move_if,
  install_entry, install_staged, or_empty, fill, discard, or_discard, remove_if_exists,
  remove_named, staged_mode,
}

module _ (host : Host) where
  read_found-Reads : (found : Option Node) → Reads (read_found host found)
  read_found-Reads none d = refl
  read_found-Reads (some Node.symlink) d = refl
  read_found-Reads (some Node.other) d = ground arith
  read_found-Reads (some (Node.regular content mode)) d = ground arith

  pub read_optional_edit_snapshot-Reads :
      (path : String) → Reads (read_optional_edit_snapshot host path)
  unfolding read_optional_edit_snapshot
  read_optional_edit_snapshot-Reads path =
      bind-Reads attempt (λ _. find path >>= λ node. read_found host node) (λ d. refl)
        (λ _.
          bind-Reads (find path) (λ node. read_found host node) (λ d. refl)
            (λ node. read_found-Reads node))

  check_state-Reads :
      (operation : Operation) (file : FilePatch) (current : Snapshot)
      → Reads (check_state host operation file current)
  check_state-Reads Operation.create file current d = ground arith
  check_state-Reads Operation.update file current d = ground arith
  check_state-Reads Operation.delete file current d = ground arith

  pub validate_file_state-Reads : (file : FilePatch) → Reads (validate_file_state host file)
  unfolding validate_file_state
  validate_file_state-Reads file =
      bind-Reads (or_conflict host (read_optional_edit_snapshot host file.path))
        (λ current. check_state host file.operation file current)
        (read_optional_edit_snapshot-Reads file.path)
        (λ current. check_state-Reads file.operation file current)

  pub validate_patch_state-Reads :
      (files : List FilePatch) → Reads (validate_patch_state host files)
  unfolding validate_patch_state
  validate_patch_state-Reads [] = λ d. refl
  validate_patch_state-Reads (file ∷ files) =
      bind-Reads (validate_file_state host file) (λ _. validate_patch_state host files)
        (validate_file_state-Reads file) (λ _. validate_patch_state-Reads files)

  -- The names of a file's entry are not `q`.
  abbrev pub AwayFrom : String → FilePatch → Type 0
  AwayFrom q file =
      (str_eq file.path q ≡ false)
      × (str_eq (staging_name host file) q ≡ false)
      × (str_eq (backup_name host file) q ≡ false)

  -- An entry has only names of its own file.
  abbrev pub OwnNames : PatchEntry → Type 0
  OwnNames e =
      ((e.staged_path ≡ none) ⊎ (e.staged_path ≡ some (staging_name host e.file)))
      × ((e.backup_path ≡ none) ⊎ (e.backup_path ≡ some (backup_name host e.file)))

  discard_result-Keeps :
      {A : Type 0} (q path : String) (d : Disk) (r : Result A)
      → str_eq path q ≡ false
      → lookup q (discard host path d r).0.files ≡ lookup q d.files
  discard_result-Keeps q path d (ok a) apart = refl
  discard_result-Keeps q path d (err e) apart = remove-Keeps q path apart d

  discard-Keeps :
      {A : Type 0} (q path : String) (m : Action A)
      → str_eq path q ≡ false
      → Keeps q m
      → Keeps q (or_discard host path m)
  discard-Keeps q path m apart h d = discard_result-Keeps q path ((m d).0) ((m d).1) apart ∙ h d

  module _ (q : String) (nonempty : str_eq "" q ≡ false) where
    fill-Keeps :
        (file : FilePatch) → str_eq (staging_name host file) q ≡ false → Keeps q (fill host file)
    fill-Keeps file staging =
        seq-Keeps q (write (staging_name host file) file.after (staged_mode host file))
          (attempt >> attempt)
          (write-Keeps q (staging_name host file) file.after (staged_mode host file) staging)
          (λ d. ground arith)

    pub stage_patch_file-Keeps :
        (file : FilePatch)
        → str_eq (staging_name host file) q ≡ false
        → Keeps q (stage_patch_file host file)
    unfolding stage_patch_file
    stage_patch_file-Keeps file staging =
        seq-Keeps q (create_new (staging_name host file) (staged_mode host file))
          (or_discard host (staging_name host file) (fill host file)
            >> pure (staging_name host file))
          (create_new-Keeps q (staging_name host file) (staged_mode host file) staging)
          (seq-Keeps q (or_discard host (staging_name host file) (fill host file))
            (pure (staging_name host file))
            (discard-Keeps q (staging_name host file) (fill host file) staging
              (fill-Keeps file staging))
            (λ d. refl))

    stage_unless-Keeps :
        (b : Bool) (e : PatchEntry) → AwayFrom q e.file → Keeps q (stage_unless host b e)
    stage_unless-Keeps true e away = λ d. refl
    stage_unless-Keeps false e away =
        bind-Keeps q (stage_patch_file host e.file)
          (λ staged. pure (record e { staged_path = some staged }))
          (stage_patch_file-Keeps e.file away.1) (λ staged d. refl)

    pub stage_entry-Keeps : (e : PatchEntry) → AwayFrom q e.file → Keeps q (stage_entry host e)
    stage_entry-Keeps e away = stage_unless-Keeps (is_delete e.file.operation) e away

    move_if-Keeps : (b : Bool) (e : PatchEntry) → AwayFrom q e.file → Keeps q (move_if host b e)
    move_if-Keeps false e away = λ d. refl
    move_if-Keeps true e (path, staging, backup) =
        seq-Keeps q (validate_file_state host e.file)
          (rename e.file.path (backup_name host e.file)
            >> pure
                (record e { backup_path = some (backup_name host e.file); original_moved = true }))
          (Reads-Keeps q (validate_file_state host e.file) (validate_file_state-Reads e.file))
          (seq-Keeps q (rename e.file.path (backup_name host e.file))
            (pure
              (record e { backup_path = some (backup_name host e.file); original_moved = true }))
            (rename-Keeps q e.file.path (backup_name host e.file) path backup) (λ d. refl))

    pub move_entry-Keeps : (e : PatchEntry) → AwayFrom q e.file → Keeps q (move_entry host e)
    move_entry-Keeps e away = move_if-Keeps e.file.before.exists e away

    pub name_away :
        (name : Option String) (own : String)
        → str_eq own q ≡ false
        → (name ≡ none) ⊎ (name ≡ some own)
        → str_eq (or_empty host name) q ≡ false
    name_away name own away (inl empty) = rw empty nonempty
    name_away name own away (inr is_own) = rw is_own away

    install_staged-Keeps :
        (e : PatchEntry) (operation : Operation) (staged : String)
        → str_eq e.file.path q ≡ false
        → str_eq staged q ≡ false
        → Keeps q (install_staged host e operation staged)
    install_staged-Keeps e Operation.create staged path away =
        seq-Keeps q (link_staged staged e.file.path) (pure (record e { installed = true }))
          (link-Keeps q staged e.file.path path) (λ d. refl)
    install_staged-Keeps e Operation.update staged path away =
        seq-Keeps q (rename staged e.file.path) (pure (record e { installed = true }))
          (rename-Keeps q staged e.file.path away path) (λ d. refl)
    install_staged-Keeps e Operation.delete staged path away = λ d. refl

    pub install_entry-Keeps :
        (e : PatchEntry) → AwayFrom q e.file → OwnNames e → Keeps q (install_entry host e)
    install_entry-Keeps e (path, staging, backup) (staged, moved) =
        install_staged-Keeps e e.file.operation (or_empty host e.staged_path) path
          (name_away e.staged_path (staging_name host e.file) staging staged)

    pub remove_if_exists-Keeps :
        (path : String) → str_eq path q ≡ false → Keeps q (remove_if_exists path)
    unfolding remove_if_exists
    remove_if_exists-Keeps path apart d = remove-Keeps q path apart d

    pub remove_named-Keeps :
        (name : Option String) (own : String)
        → str_eq own q ≡ false
        → (name ≡ none) ⊎ (name ≡ some own)
        → Keeps q (remove_named name)
    remove_named-Keeps name own away (inl empty) = rw empty (λ d. refl)
    remove_named-Keeps name own away (inr is_own) = rw is_own (remove_if_exists-Keeps own away)
