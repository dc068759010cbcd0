-- ===== src/Workspace/Proposal.antt =====
-- The patch that changes propose: `buildPatchProposalWithAccess` of
-- internal/workspacetools/edit.go. `System` is what it calls besides the files: the printer of
-- diffs, and whether the parent of a path is a directory (nothing, if that fails).
pub mod Laws
pub mod Snapshots
pub mod Resolved
pub mod Reads
use Prim.Native.Char.{code}
use Prim.Native.String.{◌++◌ as text_append}
use materialmind.Common.{
  ℕ, ◌+◌, String, Bool, true, false, ◌&&◌, ◌||◌, not, Option, none, some, List, [], ◌∷◌,
  if◌then◌else◌, ◌==◌, str_eq, map, length,
}
use materialmind.Common.Text.{trim_space}
use materialmind.Workspace.Paths.{CleanPath}
use materialmind.Workspace.Access.{FilesystemAccess, ResolvedPath, resolve}
use materialmind.Workspace.Edits.{Edited, ReplaceError, apply_text_replacements}
use materialmind.Workspace.Disk.{Disk, EditError, Result, ok, err, Action, attempt}
use materialmind.Workspace.Files.{
  Operation, Snapshot, FilePatch, Host, permissions, read_optional_edit_snapshot,
}
use materialmind.Workspace.Changes.{
  EditFileArgs, NormalChange, ChangeError, Normal, normalize_file_changes, same_path,
}
use materialmind.Workspace.Patch.{PatchOutcome, apply_patch_proposal}

pub record System : Type 0 where
  pub unified : String → String → List ℕ → List ℕ → String
  pub parent_is_directory : String → Option Bool

-- `strings.HasSuffix` of a line's end
abbrev pub ends_line : String → Bool
ends_line String.[] = false
ends_line (String.◌∷◌ c text) =
    let rest = ends_line text in if str_eq text "" then code c == 10 else rest

-- `patchProposal`
pub record PatchProposal : Type 0 where
  pub root_path : CleanPath
  pub files : List FilePatch
  pub diff : String
  pub edit_count : ℕ

pub data EditToolError : Type 0 where
  bad_changes : ChangeError → EditToolError
  bad_replacement : ReplaceError → EditToolError
  bad_file : EditError → EditToolError
  not_applied : PatchOutcome → EditToolError
  outside_scope several_roots already_exists no_parent not_there no_payload no_request :
      EditToolError

pub data Built {ℓ} (A : Type ℓ) : Type ℓ where
  built : A → Built A
  build_failed : EditToolError → Built A

abbrev pub operation_text : Operation → String
operation_text Operation.create = "create"
operation_text Operation.update = "update"
operation_text Operation.delete = "delete"

abbrev pub joined_parts : List String → String
joined_parts [] = ""
joined_parts (part ∷ []) = part
joined_parts (part ∷ next ∷ parts) =
    text_append part (text_append "/" (joined_parts (next ∷ parts)))

-- The text of a clean path.
abbrev pub rooted_text : Bool → List String → String
rooted_text true parts = text_append "/" (joined_parts parts)
rooted_text false [] = "."
rooted_text false (part ∷ parts) = joined_parts (part ∷ parts)

abbrev pub path_text : CleanPath → String
path_text path = rooted_text path.absolute path.parts

-- The loop that resolves the paths, and the roots that must agree.
abbrev pub add_resolved : ResolvedPath → Built (List ResolvedPath) → Built (List ResolvedPath)
add_resolved path (Built.built paths) = Built.built (path ∷ paths)
add_resolved path (Built.build_failed e) = Built.build_failed e

abbrev pub take_resolved :
    Option CleanPath
    → (CleanPath → Built (List ResolvedPath))
    → Option ResolvedPath
    → Built (List ResolvedPath)
take_resolved root rest none = Built.build_failed EditToolError.outside_scope
take_resolved none rest (some path) = add_resolved path (rest path.root_path)
take_resolved (some root) rest (some path) =
    if same_path root path.root_path
    then add_resolved path (rest root)
    else Built.build_failed EditToolError.several_roots

unfoldable pub resolve_changes :
    FilesystemAccess → Option CleanPath → List NormalChange → Built (List ResolvedPath)
resolve_changes access root [] = Built.built []
resolve_changes access root (change ∷ changes) =
    take_resolved root (λ root. resolve_changes access (some root) changes)
      (resolve access (path_text change.path))

-- `resolvedChangePaths`
abbrev pub add_display : Option ResolvedPath → Option (List String) → Option (List String)
add_display none rest = none
add_display (some path) none = none
add_display (some path) (some paths) = some (path_text path.display ∷ paths)

unfoldable pub resolved_change_paths : FilesystemAccess → List NormalChange → Option (List String)
resolved_change_paths access [] = some []
resolved_change_paths access (change ∷ changes) =
    add_display (resolve access (path_text change.path)) (resolved_change_paths access changes)

module _ (host : Host) (system : System) where
  -- `fileUnifiedDiff`
  abbrev pub or_header : String → String → String → String
  or_header old_path new_path diff =
      if str_eq diff ""
      then text_append "--- "
          (text_append old_path (text_append "\n+++ " (text_append new_path "\n")))
      else diff

  abbrev pub diff_of : String → String → List ℕ → List ℕ → String
  diff_of old_path new_path before after =
      or_header old_path new_path (system.unified old_path new_path before after)

  abbrev pub file_unified_diff : Operation → String → List ℕ → List ℕ → String
  file_unified_diff Operation.create path before after =
      diff_of "/dev/null" (text_append "b/" path) before after
  file_unified_diff Operation.update path before after =
      diff_of (text_append "a/" path) (text_append "b/" path) before after
  file_unified_diff Operation.delete path before after =
      diff_of (text_append "a/" path) "/dev/null" before after

  -- The switch of `buildPatchProposalWithAccess`: what the file is to hold.
  abbrev pub with_parent : List ℕ → Option Bool → Built (List ℕ)
  with_parent content none = Built.build_failed EditToolError.no_parent
  with_parent content (some false) = Built.build_failed EditToolError.no_parent
  with_parent content (some true) = Built.built content

  abbrev pub replaced_content : Edited → Built (List ℕ)
  replaced_content (Edited.edited after) = Built.built after
  replaced_content (Edited.edit_refused e) = Built.build_failed (EditToolError.bad_replacement e)

  abbrev pub content_after : Operation → NormalChange → ResolvedPath → Snapshot → Built (List ℕ)
  content_after Operation.create change path before =
      if before.exists
      then Built.build_failed EditToolError.already_exists
      else with_parent change.content (system.parent_is_directory (path_text path.root_relative))
  content_after Operation.update change path before =
      if before.exists
      then replaced_content (apply_text_replacements before.content change.edits)
      else Built.build_failed EditToolError.not_there
  content_after Operation.delete change path before =
      if before.exists then Built.built [] else Built.build_failed EditToolError.not_there

  abbrev pub hash_after : Operation → List ℕ → String
  hash_after Operation.create after = host.sha256_hex after
  hash_after Operation.update after = host.sha256_hex after
  hash_after Operation.delete after = ""

  abbrev pub file_patch : NormalChange → ResolvedPath → Snapshot → List ℕ → FilePatch
  file_patch change path before after = record {
    operation = change.operation;
    path = path_text path.root_relative;
    display_path = path_text path.display;
    before = before;
    after = after;
    diff = file_unified_diff change.operation (path_text path.display) before.content after;
    after_hash = hash_after change.operation after;
    edit_count = length change.edits;
  }

  abbrev pub with_content :
      NormalChange → ResolvedPath → Snapshot → Built (List ℕ) → Built FilePatch
  with_content change path before (Built.built after) =
      Built.built (file_patch change path before after)
  with_content change path before (Built.build_failed e) = Built.build_failed e

  abbrev pub with_snapshot : NormalChange → ResolvedPath → Result Snapshot → Built FilePatch
  with_snapshot change path (err e) = Built.build_failed (EditToolError.bad_file e)
  with_snapshot change path (ok before) =
      with_content change path before (content_after change.operation change path before)

  abbrev pub build_file : NormalChange → ResolvedPath → Disk → Disk × Built FilePatch
  build_file change path d =
      let (d', found) = read_optional_edit_snapshot host (path_text path.root_relative) d in
      (d', with_snapshot change path found)

  -- The loop over the changes and their paths.
  abbrev pub add_file : FilePatch → Disk × Built (List FilePatch) → Disk × Built (List FilePatch)
  add_file file (d, Built.built files) = (d, Built.built (file ∷ files))
  add_file file (d, Built.build_failed e) = (d, Built.build_failed e)

  abbrev pub go_on :
      (Disk → Disk × Built (List FilePatch))
      → Disk × Built FilePatch
      → Disk × Built (List FilePatch)
  go_on rest (d, Built.built file) = add_file file (rest d)
  go_on rest (d, Built.build_failed e) = (d, Built.build_failed e)

  unfoldable pub build_files :
      List NormalChange → List ResolvedPath → Disk → Disk × Built (List FilePatch)
  build_files [] paths d = (d, Built.built [])
  build_files (change ∷ changes) [] d = (d, Built.built [])
  build_files (change ∷ changes) (path ∷ paths) d =
      go_on (build_files changes paths) (build_file change path d)

  abbrev pub ended : String → String
  ended diff = if ends_line diff then diff else text_append diff "\n"

  -- The diffs, with an empty line between two.
  abbrev pub combined_diff : List FilePatch → String
  combined_diff [] = ""
  combined_diff (file ∷ []) = ended file.diff
  combined_diff (file ∷ next ∷ files) =
      text_append (ended file.diff) (text_append "\n" (combined_diff (next ∷ files)))

  abbrev pub total_edits : List FilePatch → ℕ
  total_edits [] = 0
  total_edits (file ∷ files) = file.edit_count + total_edits files

  abbrev pub proposal_of : CleanPath → List FilePatch → PatchProposal
  proposal_of root files = record {
    root_path = root;
    files = files;
    diff = combined_diff files;
    edit_count = total_edits files;
  }

  abbrev pub proposed : CleanPath → Disk × Built (List FilePatch) → Disk × Built PatchProposal
  proposed root (d, Built.built files) = (d, Built.built (proposal_of root files))
  proposed root (d, Built.build_failed e) = (d, Built.build_failed e)

  abbrev pub root_of : List ResolvedPath → CleanPath
  root_of [] = record { absolute = false; parts = [] }
  root_of (path ∷ paths) = path.root_path

  abbrev pub opened :
      List NormalChange → List ResolvedPath → Disk → Result (Unit {0}) → Disk × Built PatchProposal
  opened changes paths d (err e) = (d, Built.build_failed (EditToolError.bad_file e))
  opened changes paths d (ok done) = proposed (root_of paths) (build_files changes paths d)

  abbrev pub build_resolved :
      List NormalChange → Built (List ResolvedPath) → Disk → Disk × Built PatchProposal
  build_resolved changes (Built.build_failed e) d = (d, Built.build_failed e)
  build_resolved changes (Built.built paths) d =
      let (d', open_root) = attempt d in opened changes paths d' open_root

  -- `buildPatchProposalWithAccess`
  unfoldable pub build_patch_proposal :
      FilesystemAccess → List NormalChange → Disk → Disk × Built PatchProposal
  build_patch_proposal access changes d =
      build_resolved changes (resolve_changes access none changes) d
