-- ===== src/Workspace/Proposal/Laws.antt =====
-- A proposed patch fits the files that it was made from.
use mathlib.Core.Path.{subst}
use materialmind.Common.{
  String, lookup, ◌∙◌, ℕ, ◌≡◌, refl, Bool, true, false, Option, none, some, List, [], ◌∷◌, arith,
  Bool-cases, inl, inr,
}
use materialmind.Workspace.Access.{FilesystemAccess, ResolvedPath, resolve}
use materialmind.Workspace.Disk.{Disk, Node, Result, ok, err, attempt}
use materialmind.Workspace.Patch.Frames.{read_optional_edit_snapshot-Reads}
use materialmind.Workspace.Proposal.Resolved.{Paired, built_inj, resolve_changes-Paired}
use materialmind.Workspace.Proposal.Snapshots.{IsOf, read_optional_edit_snapshot-IsOf}
use materialmind.Workspace.Files.{Operation, Snapshot, FilePatch, Host, read_optional_edit_snapshot}
use materialmind.Workspace.Changes.{NormalChange}
use materialmind.Workspace.Paths.{CleanPath}
use materialmind.Workspace.Edits.{Edited, apply_text_replacements}
use materialmind.Workspace.Patch.Install.{needs_original}
use materialmind.Workspace.Proposal.{
  System, PatchProposal, Built, resolve_changes, with_parent, replaced_content, path_text,
  content_after, with_content, with_snapshot, build_file, add_file, go_on, build_files, proposal_of,
  proposed, root_of, opened, build_resolved, build_patch_proposal, file_patch,
}

module _ (host : Host) (system : System) where
  -- What an operation makes of a file.
  abbrev pub Content : Operation → NormalChange → Snapshot → List ℕ → Type 0
  Content Operation.create change before after = after ≡ change.content
  Content Operation.update change before after =
      apply_text_replacements before.content change.edits ≡ Edited.edited after
  Content Operation.delete change before after = after ≡ []

  -- A file is proposed for a change of the file under a path: it has the path's names, what stands
  -- there is its original, if it needs one, or else nothing, and it has the new content.
  abbrev pub DescribesAt : Option Node → ResolvedPath → NormalChange → FilePatch → Type 0
  DescribesAt found path change file =
      (file.path ≡ path_text path.root_relative)
      × (file.display_path ≡ path_text path.display)
      × (file.operation ≡ change.operation)
      × IsOf host found file.before
      × (file.before.exists ≡ needs_original change.operation)
      × Content change.operation change file.before file.after

  -- The path is what the scopes make of the change's, below this root.
  abbrev pub Describes :
      FilesystemAccess → CleanPath → List (String × Node) → NormalChange → FilePatch → Type 0
  Describes access root fs change file =
      (path : ResolvedPath) × (resolve access (path_text change.path) ≡ some path)
      × (path.root_path ≡ root)
      × DescribesAt (lookup (path_text path.root_relative) fs) path change file

  abbrev pub AllDescribe :
      FilesystemAccess
      → CleanPath
      → List (String × Node)
      → List NormalChange
      → List FilePatch
      → Type 0
  AllDescribe access root fs [] [] = Unit
  AllDescribe access root fs [] (file ∷ files) = ⊥
  AllDescribe access root fs (change ∷ changes) [] = ⊥
  AllDescribe access root fs (change ∷ changes) (file ∷ files) =
      Describes access root fs change file × AllDescribe access root fs changes files

  with_parent-content :
      (content after : List ℕ) (parent : Option Bool)
      → with_parent host system content parent ≡ Built.built after
      → after ≡ content
  with_parent-content content after none h = absurd (ground arith)
  with_parent-content content after (some false) h = absurd (ground arith)
  with_parent-content content after (some true) h = ground arith

  replaced_content-edited :
      (r : Edited) (after : List ℕ)
      → replaced_content host system r ≡ Built.built after
      → r ≡ Edited.edited after
  replaced_content-edited (Edited.edited text) after h = ground arith
  replaced_content-edited (Edited.edit_refused e) after h = absurd (ground arith)

  content_after-Content :
      (operation : Operation) (change : NormalChange) (path : ResolvedPath) (before : Snapshot)
      (after : List ℕ)
      → content_after host system operation change path before ≡ Built.built after
      → (before.exists ≡ needs_original operation) × Content operation change before after
  content_after-Content Operation.create change path before after h =
      elim (Bool-cases before.exists) [
        | inl there ↦ absurd (ground arith)
        | inr free ↦ (
          free,
          with_parent-content change.content after
              (system.parent_is_directory (path_text path.root_relative)) (rw free at h),
        )
      ]
  content_after-Content Operation.update change path before after h =
      elim (Bool-cases before.exists) [
        | inl there ↦ (
          there,
          replaced_content-edited (apply_text_replacements before.content change.edits) after
              (rw there at h),
        )
        | inr gone ↦ absurd (ground arith)
      ]
  content_after-Content Operation.delete change path before after h =
      elim (Bool-cases before.exists) [
        | inl there ↦ (there, ground arith)
        | inr gone ↦ absurd (ground arith)
      ]

  with_content-DescribesAt :
      (found : Option Node) (change : NormalChange) (path : ResolvedPath) (before : Snapshot)
      (r : Built (List ℕ)) (file : FilePatch)
      → IsOf host found before
      → content_after host system change.operation change path before ≡ r
      → with_content host system change path before r ≡ Built.built file
      → DescribesAt found path change file
  with_content-DescribesAt found change path before (Built.built after) file is_of is_r h =
      let (exists, content) =
        content_after-Content change.operation change path before after is_r in
      subst (DescribesAt found path change)
        (built_inj (file_patch host system change path before after) file h)
        (refl, refl, refl, is_of, exists, content)
  with_content-DescribesAt found change path before (Built.build_failed e) file is_of is_r h =
      absurd (ground arith)

  with_snapshot-DescribesAt :
      (found : Option Node) (change : NormalChange) (path : ResolvedPath) (r : Result Snapshot)
      (file : FilePatch)
      → ((before : Snapshot) → r ≡ ok before → IsOf host found before)
      → with_snapshot host system change path r ≡ Built.built file
      → DescribesAt found path change file
  with_snapshot-DescribesAt found change path (err e) file is_of h = absurd (ground arith)
  with_snapshot-DescribesAt found change path (ok before) file is_of h =
      with_content-DescribesAt found change path before
        (content_after host system change.operation change path before) file (is_of before refl)
        refl h

  build_file-Describes :
      (access : FilesystemAccess) (root : CleanPath) (change : NormalChange) (path : ResolvedPath)
      (d : Disk) (file : FilePatch)
      → resolve access (path_text change.path) ≡ some path
      → path.root_path ≡ root
      → (build_file host system change path d).1 ≡ Built.built file
      → Describes access root d.files change file
  build_file-Describes access root change path d file resolved rooted h =
      let name = path_text path.root_relative in
      (
        path,
        resolved,
        rooted,
        with_snapshot-DescribesAt (lookup name d.files) change path
            (read_optional_edit_snapshot host name d).1 file
            (λ before is_before. read_optional_edit_snapshot-IsOf host name d before is_before) h,
      )

  add_file-AllDescribe :
      (access : FilesystemAccess) (root : CleanPath) (fs : List (String × Node))
      (change : NormalChange) (changes : List NormalChange) (file : FilePatch)
      (r : Disk × Built (List FilePatch)) (files : List FilePatch)
      → Describes access root fs change file
      → ((later : List FilePatch)
          → r.1 ≡ Built.built later
          → AllDescribe access root fs changes later)
      → (add_file host system file r).1 ≡ Built.built files
      → AllDescribe access root fs (change ∷ changes) files
  add_file-AllDescribe access root fs change changes file (d, Built.built later) files first rest
        h =
      subst (AllDescribe access root fs (change ∷ changes)) (built_inj (file ∷ later) files h)
        (first, rest later refl)
  add_file-AllDescribe access root fs change changes file (d, Built.build_failed e) files first rest
        h =
      absurd (ground arith)

  go_on-AllDescribe :
      (access : FilesystemAccess) (root : CleanPath) (fs : List (String × Node))
      (change : NormalChange) (changes : List NormalChange)
      (next : Disk → Disk × Built (List FilePatch)) (r : Disk × Built FilePatch)
      (files : List FilePatch)
      → ((file : FilePatch) → r.1 ≡ Built.built file → Describes access root fs change file)
      → ((later : List FilePatch)
          → (next r.0).1 ≡ Built.built later
          → AllDescribe access root fs changes later)
      → (go_on host system next r).1 ≡ Built.built files
      → AllDescribe access root fs (change ∷ changes) files
  go_on-AllDescribe access root fs change changes next (d, Built.built file) files first rest h =
      add_file-AllDescribe access root fs change changes file (next d) files (first file refl) rest
        h
  go_on-AllDescribe access root fs change changes next (d, Built.build_failed e) files first rest
        h =
      absurd (ground arith)

  build_files-AllDescribe :
      (access : FilesystemAccess) (root : CleanPath) (fs : List (String × Node))
      (changes : List NormalChange) (paths : List ResolvedPath) (d : Disk) (files : List FilePatch)
      → d.files ≡ fs
      → Paired access root changes paths
      → (build_files host system changes paths d).1 ≡ Built.built files
      → AllDescribe access root fs changes files
  unfolding build_files
  build_files-AllDescribe access root fs [] [] d files same pairs h =
      subst (AllDescribe access root fs []) (built_inj [] files h) tt
  build_files-AllDescribe access root fs [] (path ∷ paths) d files same pairs h = absurd pairs
  build_files-AllDescribe access root fs (change ∷ changes) [] d files same pairs h = absurd pairs
  build_files-AllDescribe access root fs (change ∷ changes) (path ∷ paths) d files same
        (resolved, rooted, pairs) h =
      let built = build_file host system change path d in
      go_on-AllDescribe access root fs change changes (build_files host system changes paths) built
        files
        (λ file is_file.
          subst (λ fs. Describes access root fs change file) same
            (build_file-Describes access root change path d file resolved rooted is_file))
        (λ later is_later.
          build_files-AllDescribe access root fs changes paths built.0 later
            (read_optional_edit_snapshot-Reads host (path_text path.root_relative) d ∙ same) pairs
            is_later)
        h

  proposed-AllDescribe :
      (access : FilesystemAccess) (root : CleanPath) (fs : List (String × Node))
      (changes : List NormalChange) (r : Disk × Built (List FilePatch)) (proposal : PatchProposal)
      → ((files : List FilePatch)
          → r.1 ≡ Built.built files
          → AllDescribe access root fs changes files)
      → (proposed host system root r).1 ≡ Built.built proposal
      → AllDescribe access proposal.root_path fs changes proposal.files
  proposed-AllDescribe access root fs changes (d, Built.built files) proposal h is_proposal =
      subst (λ (p : PatchProposal). AllDescribe access p.root_path fs changes p.files)
        (built_inj (proposal_of host system root files) proposal is_proposal) (h files refl)
  proposed-AllDescribe access root fs changes (d, Built.build_failed e) proposal h is_proposal =
      absurd (ground arith)

  opened-AllDescribe :
      (access : FilesystemAccess) (changes : List NormalChange) (paths : List ResolvedPath)
      (fs : List (String × Node)) (d : Disk) (r : Result (Unit {0})) (proposal : PatchProposal)
      → d.files ≡ fs
      → Paired access (root_of host system paths) changes paths
      → (opened host system changes paths d r).1 ≡ Built.built proposal
      → AllDescribe access proposal.root_path fs changes proposal.files
  opened-AllDescribe access changes paths fs d (err e) proposal same pairs h = absurd (ground arith)
  opened-AllDescribe access changes paths fs d (ok done) proposal same pairs h =
      proposed-AllDescribe access (root_of host system paths) fs changes
        (build_files host system changes paths d) proposal
        (λ files is_files.
          build_files-AllDescribe access (root_of host system paths) fs changes paths d files same
            pairs is_files)
        h

  build_resolved-AllDescribe :
      (access : FilesystemAccess) (changes : List NormalChange) (paths : Built (List ResolvedPath))
      (d : Disk) (proposal : PatchProposal)
      → ((found : List ResolvedPath)
          → paths ≡ Built.built found
          → Paired access (root_of host system found) changes found)
      → (build_resolved host system changes paths d).1 ≡ Built.built proposal
      → AllDescribe access proposal.root_path d.files changes proposal.files
  build_resolved-AllDescribe access changes (Built.build_failed e) d proposal pairs h =
      absurd (ground arith)
  build_resolved-AllDescribe access changes (Built.built paths) d proposal pairs h =
      opened-AllDescribe access changes paths d.files (attempt d).0 (attempt d).1 proposal refl
        (pairs paths refl) h

  -- A patch that is proposed for changes has one file for each, in their order, and each stands for
  -- the path that the scopes make of its change's path, whose root is that of the patch: it has that
  -- path's name in the root and its display name, the change's operation, and a snapshot of what the
  -- files hold under that name, which is nothing, or a file of text within the limit with its mode,
  -- content and hash. A created file was not there and gets the content, an updated one was there and
  -- gets what the replacements make of it, a deleted one was there and gets none.
  pub build_patch_proposal-AllDescribe :
      (access : FilesystemAccess) (changes : List NormalChange) (d : Disk)
      (proposal : PatchProposal)
      → (build_patch_proposal host system access changes d).1 ≡ Built.built proposal
      → AllDescribe access proposal.root_path d.files changes proposal.files
  unfolding build_patch_proposal
  build_patch_proposal-AllDescribe access changes d proposal h =
      build_resolved-AllDescribe access changes (resolve_changes access none changes) d proposal
        (λ paths is_paths. resolve_changes-Paired host system access changes none paths is_paths) h
