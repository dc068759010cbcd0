-- ===== src/Workspace/Patch/Undo.antt =====
-- What undoing and cleaning up leave alone: every name that is none of their entries'.
use materialmind.Common.{
  ◌≡◌, ◌∙◌, inl, inr, refl, String, false, List, [], ◌∷◌, str_eq, lookup, All, Bool-cases,
}
use materialmind.Workspace.Disk.{Disk, ◌>>◌}
use materialmind.Workspace.Disk.Laws.{Keeps, rename-Keeps, seq-Keeps}
use materialmind.Workspace.Files.{Host, staging_name, backup_name}
use materialmind.Workspace.Patch.{
  PatchEntry, or_empty, remove_named, undo_entry, undo_install, undo_move, undo_all, remove_staged,
  finish, clean_up, ignore,
}
use materialmind.Workspace.Patch.Frames.{
  AwayFrom, OwnNames, name_away, remove_if_exists-Keeps, remove_named-Keeps,
}

module _ (host : Host) (q : String) (nonempty : str_eq "" q ≡ false) where
  -- An entry that has nothing to do with this name.
  abbrev pub Unrelated : PatchEntry → Type 0
  Unrelated e = AwayFrom host q e.file × OwnNames host e

  undo_install-Keeps :
      (e : PatchEntry) (d : Disk)
      → Unrelated e
      → lookup q (undo_install host e d).0.files ≡ lookup q d.files
  undo_install-Keeps e d ((path, staging, backup), names) = elim (Bool-cases e.installed) [
    | inl installed ↦ rw installed (remove_if_exists-Keeps host q nonempty e.file.path path d)
    | inr kept ↦ rw kept refl
  ]

  undo_move-Keeps :
      (e : PatchEntry) (d : Disk)
      → Unrelated e
      → lookup q (undo_move host e d).0.files ≡ lookup q d.files
  undo_move-Keeps e d ((path, staging, backup), (staged, moved)) =
      elim (Bool-cases e.original_moved) [
        | inl is_moved ↦ rw is_moved (
            rename-Keeps q (or_empty host e.backup_path) e.file.path
              (name_away host q nonempty e.backup_path (backup_name host e.file) backup moved) path
              d)
        | inr kept ↦ rw kept refl
      ]

  pub undo_entry-Keeps :
      (e : PatchEntry) (d : Disk)
      → Unrelated e
      → lookup q (undo_entry host e d).0.files ≡ lookup q d.files
  unfolding undo_entry
  undo_entry-Keeps e d apart =
      undo_move-Keeps e ((undo_install host e d).0) apart ∙ undo_install-Keeps e d apart

  pub undo_all-Keeps :
      (es : List PatchEntry) (d : Disk)
      → All Unrelated es
      → lookup q (undo_all host es d).0.files ≡ lookup q d.files
  unfolding undo_all
  undo_all-Keeps [] d apart = refl
  undo_all-Keeps (e ∷ es) d (first, rest) =
      undo_entry-Keeps e ((undo_all host es d).0) first ∙ undo_all-Keeps es d rest

  -- This name is none of the temporary files' of an entry.
  abbrev pub IsTarget : PatchEntry → Type 0
  IsTarget e =
      (str_eq (staging_name host e.file) q ≡ false)
      × (str_eq (backup_name host e.file) q ≡ false)
      × OwnNames host e

  target_staged-Keeps : (e : PatchEntry) → IsTarget e → Keeps q (remove_named e.staged_path)
  target_staged-Keeps e (staging, backup, (staged, moved)) =
      remove_named-Keeps host q nonempty e.staged_path (staging_name host e.file) staging staged

  target_backup-Keeps : (e : PatchEntry) → IsTarget e → Keeps q (remove_named e.backup_path)
  target_backup-Keeps e (staging, backup, (staged, moved)) =
      remove_named-Keeps host q nonempty e.backup_path (backup_name host e.file) backup moved

  pub remove_staged-Keeps :
      (es : List PatchEntry) → All IsTarget es → Keeps q (remove_staged host es)
  unfolding remove_staged
  remove_staged-Keeps [] apart = λ d. refl
  remove_staged-Keeps (e ∷ es) (first, rest) =
      seq-Keeps q (ignore (remove_named e.staged_path)) (remove_staged host es)
        (target_staged-Keeps e first) (remove_staged-Keeps es rest)

  pub clean_up-Keeps : (es : List PatchEntry) → All IsTarget es → Keeps q (clean_up es)
  clean_up-Keeps [] apart = λ d. refl
  clean_up-Keeps (e ∷ es) (first, rest) =
      seq-Keeps q (ignore (remove_named e.staged_path))
        (ignore (remove_named e.backup_path) >> clean_up es) (target_staged-Keeps e first)
        (seq-Keeps q (ignore (remove_named e.backup_path)) (clean_up es)
          (target_backup-Keeps e first) (clean_up-Keeps es rest))

  pub finish-Keeps :
      (es : List PatchEntry) (d : Disk)
      → All IsTarget es
      → lookup q (finish host es d).0.files ≡ lookup q d.files
  unfolding finish
  finish-Keeps [] d apart = refl
  finish-Keeps (e ∷ es) d (first, rest) =
      let d' = (remove_named e.staged_path d).0 in
      finish-Keeps es ((remove_named e.backup_path d').0) rest
      ∙ target_backup-Keeps e first d'
      ∙ target_staged-Keeps e first d
