-- ===== src/Workspace/Patch/Atomic.antt =====
-- A patch as a whole: every file is changed, or every file is as it was.
use materialmind.Common.{
  ◌≡◌, ◌∙◌, inl, inr, refl, sym, Bool, true, false, Option, none, some, List, [], ◌∷◌, lookup,
  if◌then◌else◌, map,
}
use mathlib.Core.Path.{subst}
use materialmind.Workspace.Disk.{Disk, Node, EditError, Result, ok, err}
use materialmind.Workspace.Files.{FilePatch, Host, is_delete, validate_patch_state}
use materialmind.Workspace.Patch.{
  PatchEntry, Progress, PatchOutcome, new_entry, each, stage_entry, move_entry, install_entry,
  rolled_back, rollback_patch, clean_up, finish, finished, after_install, after_move,
  after_validate, after_stage, apply_patch_proposal, undo_all, remove_staged,
}
use materialmind.Workspace.Patch.Frames.{validate_patch_state-Reads}
use materialmind.Workspace.Patch.Undo.{remove_staged-Keeps, clean_up-Keeps, finish-Keeps}
use materialmind.Workspace.Patch.Loop.{View, Held, Held-map, each-Passes}
use materialmind.Workspace.Patch.Ours.{
  IsNamed, new_node, look, Other, AtStart, AfterStage, AfterMove, AfterInstall, Unmoved,
  Recoverable, staged_own, look_files,
}
use materialmind.Workspace.Patch.Stages.{stage_Step}
use materialmind.Workspace.Patch.Moves.{move_Step}
use materialmind.Workspace.Patch.Install.{needs_original, install_Step}
use materialmind.Workspace.Patch.Rollback.{undo_all_ours, Held-targets}

-- What stands under the path of a file after a transaction that found `before` there.
abbrev pub Settled : Host → FilePatch → Option Node → PatchOutcome → Option Node → Type 0
Settled host f before PatchOutcome.applied after =
    after ≡ (if is_delete f.operation then none else new_node host f)
Settled host f before PatchOutcome.leftovers after =
    after ≡ (if is_delete f.operation then none else new_node host f)
Settled host f before (PatchOutcome.refused cause) after = after ≡ before
Settled host f before (PatchOutcome.rollback_failed cause) after = Unit

module _ (host : Host) (f : FilePatch) (o : Option Node) (named : IsNamed host f)
    (original : f.before.exists ≡ needs_original f.operation) where
  abbrev Good : Disk × PatchOutcome → Type 0
  Good (d, outcome) = Settled host f o outcome (lookup f.path d.files)

  abbrev HeldAs : (PatchEntry → View → Type 0) → List PatchEntry → Disk → Type 0
  HeldAs P es d = Held (Other host f o named) P es (look host f o named d)

  Held-target :
      (P : PatchEntry → View → Type 0) (x : Option Node) (es : List PatchEntry) (v : View)
      → ((e : PatchEntry) → P e v → v.target ≡ x)
      → Held (Other host f o named) P es v
      → v.target ≡ x
  Held-target P x [] v h held = absurd held
  Held-target P x (e ∷ es) v h (inl (ours, others)) = h e ours
  Held-target P x (e ∷ es) v h (inr (other, held)) = Held-target P x es v h held

  rolled_back-Good :
      (cause : EditError) (failed : Bool) (after : Option Node)
      → (failed ≡ false → after ≡ o)
      → Settled host f o (rolled_back host cause failed) after
  rolled_back-Good cause true after h = tt
  rolled_back-Good cause false after h = h refl

  rollback_patch-Good :
      (es : List PatchEntry) (cause : EditError) (d : Disk)
      → HeldAs (Recoverable host f o named) es d
      → Good (rollback_patch host es cause d)
  unfolding rollback_patch
  rollback_patch-Good es cause d held =
      let d1 : Disk = (undo_all host es d).0 in
      rolled_back-Good cause (undo_all host es d).1
        (lookup f.path (remove_staged host es d1).0.files)
        (λ fine.
          remove_staged-Keeps host f.path named.path_named es
            (Held-targets host f o named es (look host f o named d) held) d1
          ∙ undo_all_ours host f o named es d held fine)

  finished-Good :
      (failed : Bool) (after : Option Node)
      → after ≡ (if is_delete f.operation then none else new_node host f)
      → Settled host f o (finished host failed) after
  finished-Good true after h = h
  finished-Good false after h = h

  abbrev PassesTo : (PatchEntry → View → Type 0) → (PatchEntry → View → Type 0) → Progress → Type 0
  PassesTo Q R (d, es, cause) = ((cause ≡ none) → HeldAs Q es d) × HeldAs R es d

  after_install-Good :
      (p : Progress)
      → PassesTo (AfterInstall host f o named) (Recoverable host f o named) p
      → Good (after_install host p)
  after_install-Good (d, es, some cause) (all, held) = rollback_patch-Good es cause d held
  after_install-Good (d, es, none) (all, held) =
      finished-Good (finish host es d).1 (lookup f.path (finish host es d).0.files) (
        finish-Keeps host f.path named.path_named es d
          (Held-targets host f o named es (look host f o named d) held)
        ∙ Held-target (AfterInstall host f o named)
            (if is_delete f.operation then none else new_node host f) es (look host f o named d)
            (λ e (staged, backup, installed, is_e, own, placed, target). target) (all refl))

  after_move-Good :
      (p : Progress)
      → PassesTo (AfterMove host f o named) (Recoverable host f o named) p
      → Good (after_move host p)
  after_move-Good (d, es, some cause) (all, held) = rollback_patch-Good es cause d held
  after_move-Good (d, es, none) (all, held) =
      after_install-Good (each host (install_entry host) es d) (
        each-Passes (look host f o named) (Other host f o named) (AfterMove host f o named)
          (AfterInstall host f o named) (Recoverable host f o named) host (install_entry host)
          (install_Step host f o named original) es d (all refl))

  clean_up-Good :
      (es : List PatchEntry) (d : Disk) (cause : EditError)
      → HeldAs (Unmoved host f o named) es d
      → Good ((clean_up es d).0, PatchOutcome.refused cause)
  clean_up-Good es d cause held =
      clean_up-Keeps host f.path named.path_named es
        (Held-targets host f o named es (look host f o named d) (
          Held-map (Other host f o named) (Unmoved host f o named) (Recoverable host f o named) es
            (look host f o named d)
            (λ e (staged, is_e, own, target).
              (staged, none, false, false, is_e, own, (target, refl)))
            held))
        d
      ∙ Held-target (Unmoved host f o named) o es (look host f o named d)
          (λ e (staged, is_e, own, target). target) held

  after_validate-Good :
      (es : List PatchEntry) (d : Disk) (r : Result (Unit {0}))
      → HeldAs (AfterStage host f o named) es d
      → Good (after_validate host es d r)
  after_validate-Good es d (err cause) held = clean_up-Good es d cause (
      Held-map (Other host f o named) (AfterStage host f o named) (Unmoved host f o named) es
        (look host f o named d)
        (λ e (staged, is_e, is_staged, target). (
          staged,
          is_e,
          staged_own host f o named staged (look host f o named d) is_staged,
          target,
        ))
        held)
  after_validate-Good es d (ok valid) held = after_move-Good (each host (move_entry host) es d) (
      each-Passes (look host f o named) (Other host f o named) (AfterStage host f o named)
        (AfterMove host f o named) (Recoverable host f o named) host (move_entry host)
        (move_Step host f o named) es d held)

  after_stage-Good :
      (files : List FilePatch) (p : Progress)
      → PassesTo (AfterStage host f o named) (Unmoved host f o named) p
      → Good (after_stage host files p)
  after_stage-Good files (d, es, some cause) (all, held) = clean_up-Good es d cause held
  after_stage-Good files (d, es, none) (all, held) =
      let d1 : Disk = (validate_patch_state host files d).0 in
      after_validate-Good es d1 (validate_patch_state host files d).1 (
        subst (Held (Other host f o named) (AfterStage host f o named) es)
          (sym (look_files host f o named d d1 (validate_patch_state-Reads host files d)))
          (all refl))

  pub apply_patch_proposal-Good :
      (files : List FilePatch) (d : Disk)
      → HeldAs (AtStart host f o named) (map new_entry files) d
      → Good (apply_patch_proposal host files d)
  unfolding apply_patch_proposal
  apply_patch_proposal-Good files d held =
      after_stage-Good files (each host (stage_entry host) (map new_entry files) d) (
        each-Passes (look host f o named) (Other host f o named) (AtStart host f o named)
          (AfterStage host f o named) (Unmoved host f o named) host (stage_entry host)
          (stage_Step host f o named) (map new_entry files) d held)
