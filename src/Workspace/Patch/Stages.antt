-- ===== src/Workspace/Patch/Stages.antt =====
-- The first loop of the transaction: what is new is staged beside its place.
use mathlib.Core.Path.{subst}
use materialmind.Common.{
  ◌≡◌, ◌∙◌, inl, inr, refl, sym, ap, Bool, true, false, Option, none, some, lookup, arith,
}
use materialmind.Workspace.Disk.{Disk, Node, EditError, Result, ok, err, pure}
use materialmind.Workspace.Disk.Laws.{Keeps, bind-Keeps, bind-ok}
use materialmind.Workspace.Files.{FilePatch, Host, staging_name, backup_name, is_delete}
use materialmind.Workspace.Patch.{
  PatchEntry, new_entry, stage_entry, stage_unless, stage_patch_file,
}
use materialmind.Workspace.Patch.Frames.{OwnNames, stage_patch_file-Keeps, stage_entry-Keeps}
use materialmind.Workspace.Patch.Loop.{Step}
use materialmind.Workspace.Patch.Ours.{
  Unmoved, IsNamed, entry, look, Other, AtStart, AfterStage, staged_own, look_eq, Other-kept,
  stage_patch_file-ok, ok_inj,
}

-- A staged entry keeps its file, and its names are its own.
pub stage_unless_names :
    (host : Host) (b : Bool) (e e' : PatchEntry) (d : Disk)
    → OwnNames host e
    → (stage_unless host b e d).1 ≡ ok e'
    → (e'.file ≡ e.file) × OwnNames host e'
stage_unless_names host true e e' d own h =
    let same : e ≡ e' = ok_inj e e' h in
    (sym (ap PatchEntry.file same), subst (OwnNames host) same own)
stage_unless_names host false e e' d (staged, moved) h =
    let (s, hs, eq) =
      bind-ok (stage_patch_file host e.file) (λ s. pure (record e { staged_path = some s })) d e'
        h in
    let same : record e { staged_path = some s } ≡ e' =
      ok_inj (record e { staged_path = some s }) e'
        (sym (ap (λ (r : Disk × Result PatchEntry). r.1) eq) ∙ h) in
    (
      sym (ap PatchEntry.file same),
      subst (OwnNames host) same
          (inr (ap some ((stage_patch_file-ok host e.file d s hs).0)), moved),
    )

pub not_ok : {A : Type 0} (a : A) (e : EditError) → ok a ≡ err e → ⊥
not_ok a e h = ground arith

module _ (host : Host) (f : FilePatch) (o : Option Node) (named : IsNamed host f) where
  stage_unless_target : (b : Bool) → Keeps f.path (stage_unless host b (new_entry f))
  stage_unless_target true = λ d. refl
  stage_unless_target false =
      bind-Keeps f.path (stage_patch_file host f)
        (λ s. pure (record (new_entry f) { staged_path = some s }))
        (stage_patch_file-Keeps host f.path named.path_named f named.staging_path) (λ s d. refl)

  stage_unless_done :
      (b : Bool) (e' : PatchEntry) (d : Disk)
      → is_delete f.operation ≡ b
      → lookup f.path d.files ≡ o
      → (stage_unless host b (new_entry f) d).1 ≡ ok e'
      → AfterStage host f o named e' (look host f o named (stage_unless host b (new_entry f) d).0)
  stage_unless_done true e' d is_b target h =
      (none, sym (ok_inj (new_entry f) e' h), inl (is_b, refl), target)
  stage_unless_done false e' d is_b target h =
      let (s, hs, eq) =
        bind-ok (stage_patch_file host f)
          (λ s. pure (record (new_entry f) { staged_path = some s })) d e' h in
      let (is_name, content) = stage_patch_file-ok host f d s hs in
      (
        some s,
        sym (
            ok_inj (entry f (some s) none false false) e'
              (sym (ap (λ (r : Disk × Result PatchEntry). r.1) eq) ∙ h)),
        inr (
          is_b,
          ap some is_name,
          ap (λ (r : Disk × Result PatchEntry). lookup (staging_name host f) r.0.files) eq
              ∙ content,
        ),
        stage_unless_target false d ∙ target,
      )

  pub stage_Step :
      Step
        (look host f o named)
        (Other host f o named)
        (AtStart host f o named)
        (AfterStage host f o named)
        (Unmoved host f o named)
        (stage_entry host)
  stage_Step = record {
    keeps = λ e d (p, t, b, own).
        look_eq host f o named d (stage_entry host e d).0
          (stage_entry-Keeps host f.path named.path_named e p d)
          (stage_entry-Keeps host (staging_name host f) named.staging_named e t d)
          (stage_entry-Keeps host (backup_name host f) named.backup_named e b d);
    other = λ e e' d h is_ok.
        let (same, own) = stage_unless_names host (is_delete e.file.operation) e e' d h.3 is_ok in
        Other-kept host f o named e e' same own h;
    done = λ e e' d (is_new, target) h.
        subst
          (λ (x : PatchEntry).
            (stage_entry host x d).1 ≡ ok e'
            → AfterStage host f o named e' (look host f o named (stage_entry host x d).0))
          (sym is_new) (stage_unless_done (is_delete f.operation) e' d refl target) h;
    failed = λ e d c (is_new, target) h.
        subst
          (λ (x : PatchEntry).
            Unmoved host f o named x (look host f o named (stage_entry host x d).0))
          (sym is_new)
          (none, refl, inl refl, stage_unless_target (is_delete f.operation) d ∙ target);
    before = λ e v (is_new, target). (none, is_new, inl refl, target);
    after = λ e v (staged, is_e, is_staged, target).
        (staged, is_e, staged_own host f o named staged v is_staged, target);
  }
