-- ===== src/Workspace/Patch/Untouched.antt =====
-- A transaction leaves the files that its patch does not name.
use materialmind.Common.{
  ◌≡◌, ap, sym, ◌∙◌, inl, refl, String, false, Option, none, some, List, [], ◌∷◌, str_eq, lookup,
  All, map,
}
use materialmind.Workspace.Disk.{Disk, Node, EditError, Result, ok, err, Action}
use materialmind.Workspace.Files.{FilePatch, Host, validate_patch_state, is_delete}
use materialmind.Workspace.Patch.{
  or_empty, PatchEntry, new_entry, each, stage_entry, move_entry, install_entry, rollback_patch,
  after_install, after_move, after_validate, after_stage, apply_patch_proposal, undo_all,
}
use materialmind.Workspace.Patch.Frames.{
  AwayFrom, OwnNames, validate_patch_state-Reads, stage_entry-Keeps, move_entry-Keeps,
  install_entry-Keeps,
}
use materialmind.Workspace.Patch.Undo.{
  IsTarget, Unrelated, undo_all-Keeps, remove_staged-Keeps, clean_up-Keeps, finish-Keeps,
}
use materialmind.Workspace.Patch.Loop.{View, view, Step, each-Other}
use materialmind.Workspace.Patch.Stages.{stage_unless_names}
use materialmind.Workspace.Patch.Moves.{move_if_names}
use materialmind.Workspace.Patch.Install.{install_staged_names}
use materialmind.Workspace.Disk.Laws.{Keeps}
use mathlib.Core.Path.{subst}

module _ (host : Host) where
  module _ (q : String) (nonempty : str_eq "" q ≡ false) where
    abbrev Elsewhere : PatchEntry → Type 0
    Elsewhere = Unrelated host q nonempty

    abbrev Nothing : PatchEntry → View → Type 0
    Nothing e v = ⊥

    abbrev look_q : Disk → View
    look_q = view q q q

    -- A step that leaves the name, and turns an entry of other names into one.
    passes_by :
        (step : PatchEntry → Action PatchEntry)
        → ((e : PatchEntry) → AwayFrom host q e.file → OwnNames host e → Keeps q (step e))
        → ((e e' : PatchEntry) (d : Disk)
            → OwnNames host e
            → (step e d).1 ≡ ok e'
            → (e'.file ≡ e.file) × OwnNames host e')
        → Step look_q Elsewhere Nothing Nothing Nothing step
    passes_by step kept names = record {
      keeps = λ e d (away, own).
          let same = kept e away own d in
          ap (λ (x : Option Node). record { target = x; staged = x; backup = x }) same;
      other = λ e e' d (away, own) is_ok.
          let (same, own') = names e e' d own is_ok in
          (subst (AwayFrom host q) (sym same) away, own');
      done = λ e e' d none h. absurd none;
      failed = λ e d c none h. absurd none;
      before = λ e v none. none;
      after = λ e v none. none;
    }

    abbrev LeftAlone : Disk → Disk → List PatchEntry → Type 0
    LeftAlone d d' es = (lookup q d'.files ≡ lookup q d.files) × All Elsewhere es

    each-LeftAlone :
        (step : PatchEntry → Action PatchEntry)
        → Step look_q Elsewhere Nothing Nothing Nothing step
        → (es : List PatchEntry) (d : Disk) → All Elsewhere es
        → LeftAlone d (each host step es d).0 (each host step es d).1
    each-LeftAlone step s es d h =
        let (same, rest) = each-Other look_q Elsewhere Nothing Nothing Nothing host step s es d h in
        (ap View.target same, rest)

    stage_passes : Step look_q Elsewhere Nothing Nothing Nothing (stage_entry host)
    stage_passes =
        passes_by (stage_entry host) (λ e away own. stage_entry-Keeps host q nonempty e away)
          (λ e e' d. stage_unless_names host (is_delete e.file.operation) e e' d)

    move_passes : Step look_q Elsewhere Nothing Nothing Nothing (move_entry host)
    move_passes =
        passes_by (move_entry host) (λ e away own. move_entry-Keeps host q nonempty e away)
          (λ e e' d. move_if_names host e.file.before.exists e e' d)

    install_passes : Step look_q Elsewhere Nothing Nothing Nothing (install_entry host)
    install_passes =
        passes_by (install_entry host)
          (λ e away own. install_entry-Keeps host q nonempty e away own)
          (λ e e' d.
            install_staged_names host e.file.operation e e' (or_empty host e.staged_path) d)

    targets : (es : List PatchEntry) → All Elsewhere es → All (IsTarget host q nonempty) es
    targets [] h = tt
    targets (e ∷ es) (((path, staging, backup), own), h) = ((staging, backup, own), targets es h)

    rollback_patch-same :
        (es : List PatchEntry) (cause : EditError) (d : Disk)
        → All Elsewhere es
        → lookup q (rollback_patch host es cause d).0.files ≡ lookup q d.files
    unfolding rollback_patch
    rollback_patch-same es cause d h =
        remove_staged-Keeps host q nonempty es (targets es h) (undo_all host es d).0
        ∙ undo_all-Keeps host q nonempty es d h

    after_install-same :
        (d : Disk) (es : List PatchEntry) (cause : Option EditError)
        → All Elsewhere es
        → lookup q (after_install host (d, es, cause)).0.files ≡ lookup q d.files
    after_install-same d es (some cause) h = rollback_patch-same es cause d h
    after_install-same d es none h = finish-Keeps host q nonempty es d (targets es h)

    after_move-same :
        (d : Disk) (es : List PatchEntry) (cause : Option EditError)
        → All Elsewhere es
        → lookup q (after_move host (d, es, cause)).0.files ≡ lookup q d.files
    after_move-same d es (some cause) h = rollback_patch-same es cause d h
    after_move-same d es none h =
        let (same, rest) = each-LeftAlone (install_entry host) install_passes es d h in
        let (d', es', cause') = each host (install_entry host) es d in
        after_install-same d' es' cause' rest ∙ same

    after_validate-same :
        (es : List PatchEntry) (d : Disk) (r : Result (Unit {0}))
        → All Elsewhere es
        → lookup q (after_validate host es d r).0.files ≡ lookup q d.files
    after_validate-same es d (err cause) h = clean_up-Keeps host q nonempty es (targets es h) d
    after_validate-same es d (ok valid) h =
        let (same, rest) = each-LeftAlone (move_entry host) move_passes es d h in
        let (d', es', cause') = each host (move_entry host) es d in
        after_move-same d' es' cause' rest ∙ same

    after_stage-same :
        (files : List FilePatch) (d : Disk) (es : List PatchEntry) (cause : Option EditError)
        → All Elsewhere es
        → lookup q (after_stage host files (d, es, cause)).0.files ≡ lookup q d.files
    after_stage-same files d es (some cause) h = clean_up-Keeps host q nonempty es (targets es h) d
    after_stage-same files d es none h =
        let (d', valid) = validate_patch_state host files d in
        after_validate-same es d' valid h ∙ ap (lookup q) (validate_patch_state-Reads host files d)

    entries_away :
        (files : List FilePatch) → All (AwayFrom host q) files → All Elsewhere (map new_entry files)
    entries_away [] h = tt
    entries_away (f ∷ files) (away, h) = ((away, (inl refl, inl refl)), entries_away files h)

    -- However a transaction ends, a name that is neither the path nor a temporary name of one of
    -- the patch's files holds what it held.
    pub apply_patch_proposal-Keeps :
        (files : List FilePatch) (d : Disk)
        → All (AwayFrom host q) files
        → lookup q (apply_patch_proposal host files d).0.files ≡ lookup q d.files
    unfolding apply_patch_proposal
    apply_patch_proposal-Keeps files d h =
        let (same, rest) =
          each-LeftAlone (stage_entry host) stage_passes (map new_entry files) d
            (entries_away files h) in
        let (d', es', cause') = each host (stage_entry host) (map new_entry files) d in
        after_stage-same files d' es' cause' rest ∙ same
