-- ===== src/Workspace/Patch/Install.antt =====
-- The last loop of the transaction: what is staged takes its place.
use mathlib.Core.Path.{subst}
use materialmind.Common.{
  ◌≡◌, ◌∙◌, ◌⊎◌, inl, inr, refl, sym, ap, String, Bool, true, false, Option, none, some, lookup,
  arith, if◌then◌else◌,
}
use materialmind.Workspace.Disk.{Disk, Node, EditError, Result, ok, err, pure, rename, link}
use materialmind.Workspace.Disk.Laws.{rename-Keeps, bind-ok, bind-err}
use materialmind.Workspace.Disk.Outcomes.{rename-ok, rename-err, link-ok, link-err}
use materialmind.Workspace.Files.{Operation, FilePatch, Host, staging_name, backup_name, is_delete}
use materialmind.Workspace.Patch.{
  link_staged, or_conflict_if_taken, PatchEntry, install_entry, install_staged, or_empty,
}
use materialmind.Workspace.Patch.Frames.{OwnNames, install_entry-Keeps}
use materialmind.Workspace.Patch.Loop.{View, Step}
use materialmind.Workspace.Patch.Stages.{not_ok}
use materialmind.Workspace.Patch.Ours.{
  IsNamed, new_node, entry, look, Other, IsStaged, Placed, AfterMove, AfterInstall, Recoverable,
  staged_own, look_eq, Other-kept, ok_inj, look_files,
}

-- A file is updated or deleted only if it is there, and created only if it is not.
abbrev pub needs_original : Operation → Bool
needs_original Operation.create = false
needs_original Operation.update = true
needs_original Operation.delete = true

taken-ok : (r : Result (Unit {0})) → or_conflict_if_taken r ≡ ok tt → r ≡ ok tt
taken-ok (ok done) h = refl
taken-ok (err EditError.target_exists) h = absurd (ground arith)
taken-ok (err EditError.io_error) h = absurd (ground arith)
taken-ok (err EditError.missing) h = absurd (ground arith)
taken-ok (err EditError.unreadable) h = absurd (ground arith)
taken-ok (err EditError.conflict) h = absurd (ground arith)

taken-err :
    (r : Result (Unit {0})) (c : EditError)
    → or_conflict_if_taken r ≡ err c
    → (e : EditError) × (r ≡ err e)
taken-err (ok done) c h = absurd (ground arith)
taken-err (err e) c h = (e, refl)

link_staged-err :
    (staged path : String) (d : Disk) (c : EditError)
    → (link_staged staged path d).1 ≡ err c
    → (link_staged staged path d).0.files ≡ d.files
link_staged-err staged path d c h =
    let (e, bad) = taken-err ((link staged path d).1) c h in link-err staged path d e bad

pub install_staged_names :
    (host : Host) (operation : Operation) (e e' : PatchEntry) (staged : String) (d : Disk)
    → OwnNames host e
    → (install_staged host e operation staged d).1 ≡ ok e'
    → (e'.file ≡ e.file) × OwnNames host e'
install_staged_names host Operation.create e e' staged d own h =
    let (u, linked, eq) =
      bind-ok (link_staged staged e.file.path) (λ _. pure (record e { installed = true })) d e' h in
    let same : record e { installed = true } ≡ e' =
      ok_inj (record e { installed = true }) e'
        (sym (ap (λ (r : Disk × Result PatchEntry). r.1) eq) ∙ h) in
    (sym (ap PatchEntry.file same), subst (OwnNames host) same own)
install_staged_names host Operation.update e e' staged d own h =
    let (u, renamed, eq) =
      bind-ok (rename staged e.file.path) (λ _. pure (record e { installed = true })) d e' h in
    let same : record e { installed = true } ≡ e' =
      ok_inj (record e { installed = true }) e'
        (sym (ap (λ (r : Disk × Result PatchEntry). r.1) eq) ∙ h) in
    (sym (ap PatchEntry.file same), subst (OwnNames host) same own)
install_staged_names host Operation.delete e e' staged d own h =
    let same : e ≡ e' = ok_inj e e' h in
    (sym (ap PatchEntry.file same), subst (OwnNames host) same own)

-- A failed installation has changed nothing.
install_staged_failed :
    (host : Host) (operation : Operation) (e : PatchEntry) (staged : String) (d : Disk)
    (c : EditError)
    → (install_staged host e operation staged d).1 ≡ err c
    → (install_staged host e operation staged d).0.files ≡ d.files
install_staged_failed host Operation.create e staged d c h =
    elim (bind-err (link_staged staged e.file.path) (λ _. pure (record e { installed = true })) d c
      h) [
        | inl (bad, same) ↦ ap Disk.files same ∙ link_staged-err staged e.file.path d c bad
        | inr (u, linked, eq) ↦ absurd (
            not_ok (record e { installed = true }) c
              (sym (ap (λ (r : Disk × Result PatchEntry). r.1) eq) ∙ h))
      ]
install_staged_failed host Operation.update e staged d c h =
    elim (bind-err (rename staged e.file.path) (λ _. pure (record e { installed = true })) d c h) [
      | inl (bad, same) ↦ ap Disk.files same ∙ rename-err staged e.file.path d c bad
      | inr (u, renamed, eq) ↦ absurd (
          not_ok (record e { installed = true }) c
            (sym (ap (λ (r : Disk × Result PatchEntry). r.1) eq) ∙ h))
    ]
install_staged_failed host Operation.delete e staged d c h = refl

module _ (host : Host) (f : FilePatch) (o : Option Node) (named : IsNamed host f) where
  -- The file of our entry after its installation, with an original or not.
  abbrev InstalledAt : Operation → Bool → PatchEntry → View → Type 0
  InstalledAt operation original e v =
      (staged : Option String) × (backup : Option String) × (installed : Bool) × (e
        ≡ entry f staged backup original installed)
      × ((staged ≡ none) ⊎ (staged ≡ some (staging_name host f)))
      × Placed host f o named original installed backup v
      × (v.target ≡ (if is_delete operation then none else new_node host f))

  install_created :
      (backup : Option String) (e' : PatchEntry) (d : Disk)
      → lookup (staging_name host f) d.files ≡ new_node host f
      → Placed host f o named false false backup (look host f o named d)
      → (install_staged host
          (entry f (some (staging_name host f)) backup false false)
          Operation.create
          (staging_name host f)
          d).1
        ≡ ok e'
      → InstalledAt Operation.create false e' (
          look host f o named
            (install_staged host
              (entry f (some (staging_name host f)) backup false false)
              Operation.create
              (staging_name host f)
              d).0)
  install_created backup e' d content (target, none_kept) h =
      let t : String = staging_name host f in
      let now : PatchEntry = entry f (some t) backup false true in
      let (u, linked, eq) = bind-ok (link_staged t f.path) (λ _. pure now) d e' h in
      let (free, there) = link-ok t f.path d (taken-ok ((link t f.path d).1) linked) in
      subst
        (λ (r : Disk × Result PatchEntry).
          InstalledAt Operation.create false e' (look host f o named r.0))
        (sym eq)
        (
          some t,
          backup,
          true,
          sym (ok_inj now e' (sym (ap (λ (r : Disk × Result PatchEntry). r.1) eq) ∙ h)),
          inr refl,
          (sym target ∙ free, none_kept),
          there ∙ content,
        )

  install_updated :
      (backup : Option String) (e' : PatchEntry) (d : Disk)
      → lookup (staging_name host f) d.files ≡ new_node host f
      → Placed host f o named true false backup (look host f o named d)
      → (install_staged host
          (entry f (some (staging_name host f)) backup true false)
          Operation.update
          (staging_name host f)
          d).1
        ≡ ok e'
      → InstalledAt Operation.update true e' (
          look host f o named
            (install_staged host
              (entry f (some (staging_name host f)) backup true false)
              Operation.update
              (staging_name host f)
              d).0)
  install_updated backup e' d content (target, kept, is_backup) h =
      let t : String = staging_name host f in
      let now : PatchEntry = entry f (some t) backup true true in
      let (u, renamed, eq) = bind-ok (rename t f.path) (λ _. pure now) d e' h in
      let (there, gone) = rename-ok t f.path d named.path_staging renamed in
      subst
        (λ (r : Disk × Result PatchEntry).
          InstalledAt Operation.update true e' (look host f o named r.0))
        (sym eq)
        (
          some t,
          backup,
          true,
          sym (ok_inj now e' (sym (ap (λ (r : Disk × Result PatchEntry). r.1) eq) ∙ h)),
          inr refl,
          (
            rename-Keeps (backup_name host f) t f.path named.staging_backup named.path_backup d
                ∙ kept,
            is_backup,
          ),
          there ∙ content,
        )

  install_deleted :
      (staged backup : Option String) (e' : PatchEntry) (d : Disk)
      → staged ≡ none
      → Placed host f o named true false backup (look host f o named d)
      → ok (entry f staged backup true false) ≡ ok e'
      → InstalledAt Operation.delete true e' (look host f o named d)
  install_deleted staged backup e' d empty (target, kept, is_backup) h = (
    staged,
    backup,
    false,
    sym (ok_inj (entry f staged backup true false) e' h),
    inl empty,
    (target, kept, is_backup),
    target,
  )

  -- The installation of our entry, and what it gives.
  abbrev Installs : Operation → Bool → Option String → Option String → PatchEntry → Disk → Type 0
  Installs operation original staged backup e' d =
      (install_staged host (entry f staged backup original false) operation (or_empty host staged)
          d).1
        ≡ ok e'
      → InstalledAt operation original e' (
          look host f o named
            (install_staged host (entry f staged backup original false) operation
              (or_empty host staged) d).0)

  install_kept :
      (operation : Operation) (original : Bool) (backup : Option String) (e' : PatchEntry)
      (d : Disk)
      → is_delete operation ≡ false
      → original ≡ needs_original operation
      → lookup (staging_name host f) d.files ≡ new_node host f
      → Placed host f o named original false backup (look host f o named d)
      → Installs operation original (some (staging_name host f)) backup e' d
  install_kept Operation.create false backup e' d kept wf content placed =
      install_created backup e' d content placed
  install_kept Operation.create true backup e' d kept wf content placed = absurd (ground arith)
  install_kept Operation.update true backup e' d kept wf content placed =
      install_updated backup e' d content placed
  install_kept Operation.update false backup e' d kept wf content placed = absurd (ground arith)
  install_kept Operation.delete original backup e' d kept wf content placed = absurd (ground arith)

  install_gone :
      (operation : Operation) (original : Bool) (staged backup : Option String) (e' : PatchEntry)
      (d : Disk)
      → is_delete operation ≡ true
      → original ≡ needs_original operation
      → staged ≡ none
      → Placed host f o named original false backup (look host f o named d)
      → Installs operation original staged backup e' d
  install_gone Operation.delete true staged backup e' d deleted wf empty placed =
      install_deleted staged backup e' d empty placed
  install_gone Operation.delete false staged backup e' d deleted wf empty placed =
      absurd (ground arith)
  install_gone Operation.create original staged backup e' d deleted wf empty placed =
      absurd (ground arith)
  install_gone Operation.update original staged backup e' d deleted wf empty placed =
      absurd (ground arith)

  install_at :
      (staged backup : Option String) (e' : PatchEntry) (d : Disk)
      → f.before.exists ≡ needs_original f.operation
      → IsStaged host f o named staged (look host f o named d)
      → Placed host f o named f.before.exists false backup (look host f o named d)
      → Installs f.operation f.before.exists staged backup e' d
  install_at staged backup e' d wf (inl (deleted, empty)) placed =
      install_gone f.operation f.before.exists staged backup e' d deleted wf empty placed
  install_at staged backup e' d wf (inr (kept, is_own, content)) placed =
      subst (λ (s : Option String). Installs f.operation f.before.exists s backup e' d) (sym is_own)
        (install_kept f.operation f.before.exists backup e' d kept wf content placed)

  pub install_Step :
      f.before.exists ≡ needs_original f.operation
      → Step
          (look host f o named)
          (Other host f o named)
          (AfterMove host f o named)
          (AfterInstall host f o named)
          (Recoverable host f o named)
          (install_entry host)
  install_Step wf = record {
    keeps = λ e d (p, t, b, own).
        look_eq host f o named d (install_entry host e d).0
          (install_entry-Keeps host f.path named.path_named e p own d)
          (install_entry-Keeps host (staging_name host f) named.staging_named e t own d)
          (install_entry-Keeps host (backup_name host f) named.backup_named e b own d);
    other = λ e e' d h is_ok.
        let (same, own) =
          install_staged_names host e.file.operation e e' (or_empty host e.staged_path) d h.3
            is_ok in
        Other-kept host f o named e e' same own h;
    done = λ e e' d (staged, backup, is_e, is_staged, placed) h.
        subst
          (λ (x : PatchEntry).
            (install_entry host x d).1 ≡ ok e'
            → AfterInstall host f o named e' (look host f o named (install_entry host x d).0))
          (sym is_e) (install_at staged backup e' d wf is_staged placed) h;
    failed = λ e d c (staged, backup, is_e, is_staged, placed) h.
        let same =
          install_staged_failed host e.file.operation e (or_empty host e.staged_path) d c h in
        subst (Recoverable host f o named e)
          (sym (look_files host f o named d (install_entry host e d).0 same))
          (
            staged,
            backup,
            f.before.exists,
            false,
            is_e,
            staged_own host f o named staged (look host f o named d) is_staged,
            placed,
          );
    before = λ e v (staged, backup, is_e, is_staged, placed). (
      staged,
      backup,
      f.before.exists,
      false,
      is_e,
      staged_own host f o named staged v is_staged,
      placed,
    );
    after = λ e v (staged, backup, installed, is_e, own, placed, target).
        (staged, backup, f.before.exists, installed, is_e, own, placed);
  }
