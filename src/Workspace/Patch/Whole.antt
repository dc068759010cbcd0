-- ===== src/Workspace/Patch/Whole.antt =====
-- All the files of a patch, and the files that it does not name.
use materialmind.Common.{◌≡◌, inl, inr, refl, Option, List, [], ◌∷◌, lookup, All, map}
use materialmind.Workspace.Disk.{Disk, Node}
use materialmind.Workspace.Files.{FilePatch, Host, staging_name, backup_name}
use materialmind.Workspace.Patch.{PatchOutcome, new_entry, apply_patch_proposal}
use materialmind.Workspace.Patch.Frames.{AwayFrom}
use materialmind.Workspace.Patch.Loop.{Held}
use materialmind.Workspace.Patch.Ours.{IsNamed, look, Other, AtStart}
use materialmind.Workspace.Patch.Install.{needs_original}
use materialmind.Workspace.Patch.Atomic.{Settled, apply_patch_proposal-Good}

module _ (host : Host) where
  -- No name of one file is a name of the other.
  abbrev pub Apart : FilePatch → FilePatch → Type 0
  Apart f g =
      AwayFrom host f.path g
      × AwayFrom host (staging_name host f) g
      × AwayFrom host (backup_name host f) g

  -- The files of a patch: their names differ, and a file has an original unless it is created.
  abbrev pub IsPatch : List FilePatch → Type 0
  IsPatch [] = Unit
  IsPatch (f ∷ files) =
      IsNamed host f
      × (f.before.exists ≡ needs_original f.operation)
      × All (Apart f) files
      × All (λ g. Apart g f) files
      × IsPatch files

  -- How the loops find one file.
  abbrev Starts : List FilePatch → Disk → FilePatch → Type 0
  Starts files d f =
      (named : IsNamed host f) × (f.before.exists ≡ needs_original f.operation)
      × Held (Other host f (lookup f.path d.files) named)
          (AtStart host f (lookup f.path d.files) named) (map new_entry files)
          (look host f (lookup f.path d.files) named d)

  others-Apart :
      (f : FilePatch) (o : Option Node) (named : IsNamed host f) (files : List FilePatch)
      → All (Apart f) files
      → All (Other host f o named) (map new_entry files)
  others-Apart f o named [] h = tt
  others-Apart f o named (g ∷ files) ((p, t, b), h) =
      ((p, t, b, (inl refl, inl refl)), others-Apart f o named files h)

  Starts-later :
      (g : FilePatch) (files all : List FilePatch) (d : Disk)
      → All (λ f. Apart f g) all
      → All (Starts files d) all
      → All (Starts (g ∷ files) d) all
  Starts-later g files [] d apart h = tt
  Starts-later g files (f ∷ all) d ((p, t, b), apart) ((named, original, held), h) = (
    (named, original, inr ((p, t, b, (inl refl, inl refl)), held)),
    Starts-later g files all d apart h,
  )

  starts : (files : List FilePatch) (d : Disk) → IsPatch files → All (Starts files d) files
  starts [] d h = tt
  starts (f ∷ files) d (named, original, apart, apart', h) = (
    (named, original, inl ((refl, refl), others-Apart f (lookup f.path d.files) named files apart)),
    Starts-later f files files d apart' (starts files d h),
  )

  -- What a transaction makes of every file.
  abbrev pub AllSettled : List FilePatch → Disk → Disk × PatchOutcome → Type 0
  AllSettled files d (d', outcome) =
      All (λ f. Settled host f (lookup f.path d.files) outcome (lookup f.path d'.files)) files

  all_settled :
      (files all : List FilePatch) (d : Disk)
      → All (Starts files d) all
      → AllSettled all d (apply_patch_proposal host files d)
  all_settled files [] d h = tt
  all_settled files (f ∷ all) d ((named, original, held), h) = (
    apply_patch_proposal-Good host f (lookup f.path d.files) named original files d held,
    all_settled files all d h,
  )

  -- Whatever operations of the system fail: if the patch is applied, every file of it has its new
  -- content or is gone; if the patch is refused, every file is as it was. Only a rollback that
  -- fails too leaves this open.
  pub apply_patch_proposal-AllSettled :
      (files : List FilePatch) (d : Disk)
      → IsPatch files
      → AllSettled files d (apply_patch_proposal host files d)
  apply_patch_proposal-AllSettled files d h = all_settled files files d (starts files d h)
