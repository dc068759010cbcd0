-- ===== src/Workspace/Patch/Ours.antt =====
-- One file of a patch through the three loops: what its entry, its path and its two temporary
-- names hold after each.
use mathlib.Core.Path.{subst}
use materialmind.Common.{
  ◌≡◌, ◌∙◌, ◌⊎◌, inl, inr, refl, sym, ap, String, Bool, true, false, Option, none, some, str_eq,
  lookup, arith, if◌then◌else◌,
}
use materialmind.Workspace.Disk.{
  Disk, Node, Result, ok, err, ◌>>◌, pure, attempt, create_new, write,
}
use materialmind.Workspace.Disk.Laws.{Reads, bind-ok}
use materialmind.Workspace.Disk.Outcomes.{write-ok}
use materialmind.Workspace.Files.{FilePatch, Host, staging_name, backup_name, is_delete}
use materialmind.Workspace.Patch.{
  PatchEntry, staged_mode, new_entry, stage_patch_file, or_discard, discard, fill,
}
use materialmind.Workspace.Patch.Frames.{AwayFrom, OwnNames}
use materialmind.Workspace.Patch.Loop.{View, view}

-- The three names of a file differ, and none is empty.
pub record IsNamed (host : Host) (f : FilePatch) : Type 0 where
  pub path_named : str_eq "" f.path ≡ false
  pub staging_named : str_eq "" (staging_name host f) ≡ false
  pub backup_named : str_eq "" (backup_name host f) ≡ false
  pub path_staging : str_eq f.path (staging_name host f) ≡ false
  pub staging_path : str_eq (staging_name host f) f.path ≡ false
  pub path_backup : str_eq f.path (backup_name host f) ≡ false
  pub backup_path : str_eq (backup_name host f) f.path ≡ false
  pub staging_backup : str_eq (staging_name host f) (backup_name host f) ≡ false
  pub backup_staging : str_eq (backup_name host f) (staging_name host f) ≡ false

-- The file that a patch leaves under a path, unless it deletes it.
abbrev pub new_node : Host → FilePatch → Option Node
new_node host f = some (Node.regular f.after (staged_mode host f))

pub discard-ok :
    {A : Type 0} (host : Host) (path : String) (d : Disk) (r : Result A) (a : A)
    → (discard host path d r).1 ≡ ok a
    → (r ≡ ok a) × ((discard host path d r).0 ≡ d)
discard-ok host path d (ok a') a h = (h, refl)
discard-ok host path d (err e) a h = absurd (ground arith)

one_result : (w : Unit {0}) → ok w ≡ ok tt
one_result w = refl

pub ok_inj : {A : Type 0} (a b : A) → ok a ≡ ok b → a ≡ b
ok_inj a b h = ground arith

attempts-Reads : Reads (attempt >> attempt)
attempts-Reads d = ground arith

fill-ok :
    (host : Host) (f : FilePatch) (d : Disk) (u : Unit {0})
    → (fill host f d).1 ≡ ok u
    → lookup (staging_name host f) (fill host f d).0.files ≡ new_node host f
fill-ok host f d u h =
    let t = staging_name host f in
    let mode = staged_mode host f in
    let (w, written, e) = bind-ok (write t f.after mode) (λ _. attempt >> attempt) d u h in
    let d1 : Disk = (write t f.after mode d).0 in
    ap (λ (r : Disk × Result (Unit {0})). lookup t r.0.files) e
    ∙ ap (lookup t) (attempts-Reads d1)
    ∙ write-ok t f.after mode d (written ∙ one_result w)

-- A staged file has its content.
pub stage_patch_file-ok :
    (host : Host) (f : FilePatch) (d : Disk) (s : String)
    → (stage_patch_file host f d).1 ≡ ok s
    → (s ≡ staging_name host f)
      × (lookup (staging_name host f) (stage_patch_file host f d).0.files ≡ new_node host f)
unfolding stage_patch_file
stage_patch_file-ok host f d s h =
    let t : String = staging_name host f in
    let d1 : Disk = (create_new t (staged_mode host f) d).0 in
    let (u, created, e) =
      bind-ok (create_new t (staged_mode host f)) (λ _. or_discard host t (fill host f) >> pure t) d
        s h in
    let (w, filled, e') =
      bind-ok (or_discard host t (fill host f)) (λ _. pure t) d1 s
        (sym (ap (λ (r : Disk × Result String). r.1) e) ∙ h) in
    let (done, kept) = discard-ok host t ((fill host f d1).0) ((fill host f d1).1) w filled in
    (
      ok_inj s t (sym h ∙ ap (λ (r : Disk × Result String). r.1) (e ∙ e')),
      ap (λ (r : Disk × Result String). lookup t r.0.files) (e ∙ e')
          ∙ ap (λ (x : Disk). lookup t x.files) kept
          ∙ fill-ok host f d1 w done,
    )

-- The entry of a file in a given state.
abbrev pub entry : FilePatch → Option String → Option String → Bool → Bool → PatchEntry
entry f staged backup moved installed = record {
  file = f;
  staged_path = staged;
  backup_path = backup;
  original_moved = moved;
  installed = installed;
}

module _ (host : Host) (f : FilePatch) (o : Option Node) (named : IsNamed host f) where
  abbrev pub look : Disk → View
  look = view f.path (staging_name host f) (backup_name host f)

  -- An entry that has nothing to do with the three names.
  abbrev pub Other : PatchEntry → Type 0
  Other e =
      AwayFrom host f.path e.file
      × AwayFrom host (staging_name host f) e.file
      × AwayFrom host (backup_name host f) e.file
      × OwnNames host e

  abbrev pub IsStaged : Option String → View → Type 0
  IsStaged staged v =
      ((is_delete f.operation ≡ true) × (staged ≡ none))
      ⊎ ((is_delete f.operation ≡ false)
          × (staged ≡ some (staging_name host f))
          × (v.staged ≡ new_node host f))

  -- Where the original is.
  abbrev pub Placed : Bool → Bool → Option String → View → Type 0
  Placed false false backup v = (v.target ≡ o) × (backup ≡ none)
  Placed true false backup v =
      (v.target ≡ none) × (v.backup ≡ o) × (backup ≡ some (backup_name host f))
  Placed false true backup v = (o ≡ none) × (backup ≡ none)
  Placed true true backup v = (v.backup ≡ o) × (backup ≡ some (backup_name host f))

  abbrev pub AtStart : PatchEntry → View → Type 0
  AtStart e v = (e ≡ new_entry f) × (v.target ≡ o)

  abbrev pub AfterStage : PatchEntry → View → Type 0
  AfterStage e v =
      (staged : Option String) × (e ≡ entry f staged none false false)
      × IsStaged staged v
      × (v.target ≡ o)

  abbrev pub AfterMove : PatchEntry → View → Type 0
  AfterMove e v =
      (staged : Option String) × (backup : Option String) × (e
        ≡ entry f staged backup f.before.exists false)
      × IsStaged staged v
      × Placed f.before.exists false backup v

  abbrev pub AfterInstall : PatchEntry → View → Type 0
  AfterInstall e v =
      (staged : Option String) × (backup : Option String) × (installed : Bool) × (e
        ≡ entry f staged backup f.before.exists installed)
      × ((staged ≡ none) ⊎ (staged ≡ some (staging_name host f)))
      × Placed f.before.exists installed backup v
      × (v.target ≡ (if is_delete f.operation then none else new_node host f))

  -- The original is in its place still.
  abbrev pub Unmoved : PatchEntry → View → Type 0
  Unmoved e v =
      (staged : Option String) × (e ≡ entry f staged none false false)
      × ((staged ≡ none) ⊎ (staged ≡ some (staging_name host f)))
      × (v.target ≡ o)

  -- The original can be put back.
  abbrev pub Recoverable : PatchEntry → View → Type 0
  Recoverable e v =
      (staged : Option String) × (backup : Option String) × (moved : Bool) × (installed : Bool) × (e
        ≡ entry f staged backup moved installed)
      × ((staged ≡ none) ⊎ (staged ≡ some (staging_name host f)))
      × Placed moved installed backup v

  pub staged_own :
      (staged : Option String) (v : View)
      → IsStaged staged v
      → (staged ≡ none) ⊎ (staged ≡ some (staging_name host f))
  staged_own staged v (inl (deleted, empty)) = inl empty
  staged_own staged v (inr (kept, is_own, content)) = inr is_own

  pub look_eq :
      (d d' : Disk)
      → lookup f.path d'.files ≡ lookup f.path d.files
      → lookup (staging_name host f) d'.files ≡ lookup (staging_name host f) d.files
      → lookup (backup_name host f) d'.files ≡ lookup (backup_name host f) d.files
      → look d' ≡ look d
  look_eq d d' p t b = ground arith

  pub Other-kept : (e e' : PatchEntry) → e'.file ≡ e.file → OwnNames host e' → Other e → Other e'
  Other-kept e e' same names (p, t, b, own) = (
    subst (AwayFrom host f.path) (sym same) p,
    subst (AwayFrom host (staging_name host f)) (sym same) t,
    subst (AwayFrom host (backup_name host f)) (sym same) b,
    names,
  )

  pub look_files : (d d' : Disk) → d'.files ≡ d.files → look d' ≡ look d
  look_files d d' same =
      look_eq d d' (ap (lookup f.path) same) (ap (lookup (staging_name host f)) same)
        (ap (lookup (backup_name host f)) same)

  pub IsStaged-kept :
      (staged : Option String) (v v' : View)
      → v'.staged ≡ v.staged
      → IsStaged staged v
      → IsStaged staged v'
  IsStaged-kept staged v v' same (inl h) = inl h
  IsStaged-kept staged v v' same (inr (kept, is_own, content)) = inr (kept, is_own, same ∙ content)
