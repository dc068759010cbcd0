-- ===== src/Workspace/Patch/Moves.antt =====
-- The second loop of the transaction: the originals that are there are moved to their backups.
use mathlib.Core.Path.{subst}
use materialmind.Common.{
  ◌≡◌, ◌∙◌, inl, inr, refl, sym, ap, String, Bool, true, false, Option, none, some, lookup,
}
use materialmind.Workspace.Disk.{Disk, Node, EditError, Result, ok, err, ◌>>◌, pure, rename}
use materialmind.Workspace.Disk.Laws.{rename-Keeps, bind-ok, bind-err}
use materialmind.Workspace.Disk.Outcomes.{rename-ok, rename-err}
use materialmind.Workspace.Files.{FilePatch, Host, staging_name, backup_name, validate_file_state}
use materialmind.Workspace.Patch.{PatchEntry, move_entry, move_if}
use materialmind.Workspace.Patch.Frames.{OwnNames, move_entry-Keeps, validate_file_state-Reads}
use materialmind.Workspace.Patch.Loop.{View, Step}
use materialmind.Workspace.Patch.Ours.{
  IsNamed, entry, look, Other, IsStaged, Placed, AfterStage, AfterMove, Recoverable, staged_own,
  look_eq, Other-kept, ok_inj, look_files, IsStaged-kept,
}
use materialmind.Workspace.Patch.Stages.{not_ok}

pub move_if_names :
    (host : Host) (b : Bool) (e e' : PatchEntry) (d : Disk)
    → OwnNames host e
    → (move_if host b e d).1 ≡ ok e'
    → (e'.file ≡ e.file) × OwnNames host e'
move_if_names host false e e' d own h =
    let same : e ≡ e' = ok_inj e e' h in
    (sym (ap PatchEntry.file same), subst (OwnNames host) same own)
move_if_names host true e e' d (staged, moved) h =
    let moved_entry : PatchEntry = record e {
      backup_path = some (backup_name host e.file);
      original_moved = true;
    } in
    let (u, valid, eq) =
      bind-ok (validate_file_state host e.file)
        (λ _. rename e.file.path (backup_name host e.file) >> pure moved_entry) d e' h in
    let d1 : Disk = (validate_file_state host e.file d).0 in
    let (w, renamed, eq') =
      bind-ok (rename e.file.path (backup_name host e.file)) (λ _. pure moved_entry) d1 e'
        (sym (ap (λ (r : Disk × Result PatchEntry). r.1) eq) ∙ h) in
    let same : moved_entry ≡ e' =
      ok_inj moved_entry e' (sym (ap (λ (r : Disk × Result PatchEntry). r.1) (eq ∙ eq')) ∙ h) in
    (sym (ap PatchEntry.file same), subst (OwnNames host) same (staged, inr refl))

module _ (host : Host) (f : FilePatch) (o : Option Node) (named : IsNamed host f) where
  -- The entry after its move, if there is something to move.
  abbrev MovedAt : Bool → PatchEntry → View → Type 0
  MovedAt b e v =
      (staged : Option String) × (backup : Option String) × (e ≡ entry f staged backup b false)
      × IsStaged host f o named staged v
      × Placed host f o named b false backup v

  move_if_done :
      (b : Bool) (staged : Option String) (e' : PatchEntry) (d : Disk)
      → IsStaged host f o named staged (look host f o named d)
      → lookup f.path d.files ≡ o
      → (move_if host b (entry f staged none false false) d).1 ≡ ok e'
      → MovedAt b e' (look host f o named (move_if host b (entry f staged none false false) d).0)
  move_if_done false staged e' d is_staged target h =
      (staged, none, sym (ok_inj (entry f staged none false false) e' h), is_staged, (target, refl))
  move_if_done true staged e' d is_staged target h =
      let b : String = backup_name host f in
      let moved_entry : PatchEntry = entry f staged (some b) true false in
      let d1 : Disk = (validate_file_state host f d).0 in
      let d2 : Disk = (rename f.path b d1).0 in
      let (u, valid, eq) =
        bind-ok (validate_file_state host f) (λ _. rename f.path b >> pure moved_entry) d e' h in
      let (w, renamed, eq') =
        bind-ok (rename f.path b) (λ _. pure moved_entry) d1 e'
          (sym (ap (λ (r : Disk × Result PatchEntry). r.1) eq) ∙ h) in
      let reads = validate_file_state-Reads host f d in
      let (there, gone) = rename-ok f.path b d1 named.backup_path renamed in
      subst (λ (r : Disk × Result PatchEntry). MovedAt true e' (look host f o named r.0))
        (sym (eq ∙ eq'))
        (
          staged,
          some b,
          sym (
              ok_inj moved_entry e'
                (sym (ap (λ (r : Disk × Result PatchEntry). r.1) (eq ∙ eq')) ∙ h)),
          IsStaged-kept host f o named staged (look host f o named d) (look host f o named d2)
              (rename-Keeps (staging_name host f) f.path b named.path_staging named.backup_staging
                  d1
                ∙ ap (lookup (staging_name host f)) reads)
              is_staged,
          (gone, there ∙ ap (lookup f.path) reads ∙ target, refl),
        )

  move_if_failed :
      (b : Bool) (e : PatchEntry) (d : Disk) (c : EditError)
      → (move_if host b e d).1 ≡ err c
      → (move_if host b e d).0.files ≡ d.files
  move_if_failed false e d c h = refl
  move_if_failed true e d c h =
      let b : String = backup_name host e.file in
      let moved_entry : PatchEntry = record e { backup_path = some b; original_moved = true } in
      let d1 : Disk = (validate_file_state host e.file d).0 in
      let reads = validate_file_state-Reads host e.file d in
      elim (bind-err (validate_file_state host e.file)
        (λ _. rename e.file.path b >> pure moved_entry) d c h) [
          | inl (bad, same) ↦ ap Disk.files same ∙ reads
          | inr (u, valid, eq) ↦
              elim (bind-err (rename e.file.path b) (λ _. pure moved_entry) d1 c
                (sym (ap (λ (r : Disk × Result PatchEntry). r.1) eq) ∙ h)) [
                  | inl (bad, same) ↦
                      ap (λ (r : Disk × Result PatchEntry). r.0.files) eq
                      ∙ ap Disk.files same
                      ∙ rename-err e.file.path b d1 c bad
                      ∙ reads
                  | inr (w, renamed, eq') ↦ absurd (
                      not_ok moved_entry c
                        (sym (ap (λ (r : Disk × Result PatchEntry). r.1) (eq ∙ eq')) ∙ h))
                ]
        ]

  pub move_Step :
      Step
        (look host f o named)
        (Other host f o named)
        (AfterStage host f o named)
        (AfterMove host f o named)
        (Recoverable host f o named)
        (move_entry host)
  move_Step = record {
    keeps = λ e d (p, t, b, own).
        look_eq host f o named d (move_entry host e d).0
          (move_entry-Keeps host f.path named.path_named e p d)
          (move_entry-Keeps host (staging_name host f) named.staging_named e t d)
          (move_entry-Keeps host (backup_name host f) named.backup_named e b d);
    other = λ e e' d h is_ok.
        let (same, own) = move_if_names host e.file.before.exists e e' d h.3 is_ok in
        Other-kept host f o named e e' same own h;
    done = λ e e' d (staged, is_e, is_staged, target) h.
        subst
          (λ (x : PatchEntry).
            (move_entry host x d).1 ≡ ok e'
            → AfterMove host f o named e' (look host f o named (move_entry host x d).0))
          (sym is_e) (move_if_done f.before.exists staged e' d is_staged target) h;
    failed = λ e d c (staged, is_e, is_staged, target) h.
        let same = move_if_failed e.file.before.exists e d c h in
        subst (Recoverable host f o named e)
          (sym (look_files host f o named d (move_entry host e d).0 same))
          (
            staged,
            none,
            false,
            false,
            is_e,
            staged_own host f o named staged (look host f o named d) is_staged,
            (target, refl),
          );
    before = λ e v (staged, is_e, is_staged, target). (
      staged,
      none,
      false,
      false,
      is_e,
      staged_own host f o named staged v is_staged,
      (target, refl),
    );
    after = λ e v (staged, backup, is_e, is_staged, placed). (
      staged,
      backup,
      f.before.exists,
      false,
      is_e,
      staged_own host f o named staged v is_staged,
      placed,
    );
  }
