-- ===== src/Workspace/Proposal/Reads.antt =====
-- Building a patch only reads the files.
use materialmind.Common.{◌≡◌, ◌∙◌, refl, none, List, [], ◌∷◌}
use materialmind.Workspace.Access.{FilesystemAccess, ResolvedPath}
use materialmind.Workspace.Disk.{Disk, Result, ok, err, attempt}
use materialmind.Workspace.Files.{FilePatch, Host}
use materialmind.Workspace.Changes.{NormalChange}
use materialmind.Workspace.Patch.Frames.{read_optional_edit_snapshot-Reads}
use materialmind.Workspace.Proposal.{
  System, Built, path_text, resolve_changes, build_file, build_files, build_patch_proposal, go_on,
  add_file, proposed, opened, build_resolved, root_of,
}

module _ (host : Host) (system : System) where
  add_file-reads :
      (file : FilePatch) (r : Disk × Built (List FilePatch))
      → (add_file host system file r).0.files ≡ r.0.files
  add_file-reads file (d, Built.built files) = refl
  add_file-reads file (d, Built.build_failed e) = refl

  go_on-reads :
      (rest : Disk → Disk × Built (List FilePatch)) (r : Disk × Built FilePatch)
      → ((d : Disk) → (rest d).0.files ≡ d.files)
      → (go_on host system rest r).0.files ≡ r.0.files
  go_on-reads rest (d, Built.built file) h = add_file-reads file (rest d) ∙ h d
  go_on-reads rest (d, Built.build_failed e) h = refl

  build_files-reads :
      (changes : List NormalChange) (paths : List ResolvedPath) (d : Disk)
      → (build_files host system changes paths d).0.files ≡ d.files
  unfolding build_files
  build_files-reads [] paths d = refl
  build_files-reads (change ∷ changes) [] d = refl
  build_files-reads (change ∷ changes) (path ∷ paths) d =
      go_on-reads (build_files host system changes paths) (build_file host system change path d)
        (build_files-reads changes paths)
      ∙ read_optional_edit_snapshot-Reads host (path_text path.root_relative) d

  proposed-same :
      (access : FilesystemAccess) (paths : List ResolvedPath) (r : Disk × Built (List FilePatch))
      → (proposed host system (root_of host system paths) r).0.files ≡ r.0.files
  proposed-same access paths (d, Built.built files) = refl
  proposed-same access paths (d, Built.build_failed e) = refl

  opened-reads :
      (access : FilesystemAccess) (changes : List NormalChange) (paths : List ResolvedPath)
      (d : Disk) (r : Result (Unit {0}))
      → (opened host system changes paths d r).0.files ≡ d.files
  opened-reads access changes paths d (err e) = refl
  opened-reads access changes paths d (ok done) =
      proposed-same access paths (build_files host system changes paths d)
      ∙ build_files-reads changes paths d

  proposed-reads :
      (access : FilesystemAccess) (changes : List NormalChange) (d : Disk)
      (paths : Built (List ResolvedPath))
      → (build_resolved host system changes paths d).0.files ≡ d.files
  proposed-reads access changes d (Built.build_failed e) = refl
  proposed-reads access changes d (Built.built paths) =
      opened-reads access changes paths (attempt d).0 (attempt d).1

  pub build_patch_proposal-reads :
      (access : FilesystemAccess) (changes : List NormalChange) (d : Disk)
      → (build_patch_proposal host system access changes d).0.files ≡ d.files
  unfolding build_patch_proposal
  build_patch_proposal-reads access changes d =
      proposed-reads access changes d (resolve_changes access none changes)
