-- ===== src/Workspace/EditFile.antt =====
-- The tool that changes files, from its call to its result: `editFileWithPolicy`,
-- `confirmationPayload` and `matchesPayload` of internal/workspacetools/edit.go. `sends` says
-- whether a request for a confirmation can be sent.
pub mod Laws
pub mod Approved
use materialmind.Common.{
  ℕ, String, Bool, true, false, ◌&&◌, ◌||◌, not, Option, none, some, List, [], ◌∷◌, if◌then◌else◌,
  ◌==◌, str_eq, map, length,
}
use materialmind.Policy.{Permission, confirmation_ask}
use materialmind.Workspace.Access.{FilesystemAccess}
use materialmind.Workspace.Disk.{Disk, EditError, Result, ok, err, Action, attempt}
use materialmind.Workspace.Files.{FilePatch, Host, permissions}
use materialmind.Workspace.Changes.{
  EditFileArgs, NormalChange, ChangeError, Normal, normalize_file_changes,
}
use materialmind.Workspace.Patch.{PatchOutcome, apply_patch_proposal}
use materialmind.Workspace.Proposal.{
  System, PatchProposal, EditToolError, Built, operation_text, resolved_change_paths,
  build_patch_proposal,
}

pub record FileApprovalProposal : Type 0 where
  pub operation : String
  pub path : String
  pub diff : String
  pub base_sha256 : String
  pub base_mode : ℕ
  pub result_sha256 : String

pub record EditConfirmationPayload : Type 0 where
  pub kind : String
  pub diff : String
  pub files : List FileApprovalProposal

-- An answer to a request: its payload, if that can be decoded, and the reason in it.
pub record ToolConfirmation : Type 0 where
  pub confirmed : Bool
  pub payload : Option EditConfirmationPayload
  pub reason : String

-- `EditFileResult`, by its state, or the error.
pub data EditFileResult : Type 0 where
  denied : List String → String → EditFileResult
  conflicted : List String → EditFileResult
  approval_required applied_result : PatchProposal → EditFileResult
  tool_failed : EditToolError → EditFileResult

-- `confirmationPayload`
abbrev pub file_approval : FilePatch → FileApprovalProposal
file_approval file = record {
  operation = operation_text file.operation;
  path = file.display_path;
  diff = file.diff;
  base_sha256 = file.before.hash;
  base_mode = permissions file.before.mode;
  result_sha256 = file.after_hash;
}

abbrev pub confirmation_payload : PatchProposal → EditConfirmationPayload
confirmation_payload proposal = record {
  kind = "file_patch";
  diff = proposal.diff;
  files = map file_approval proposal.files;
}

-- `matchesPayload`
abbrev pub matches_file : FilePatch → FileApprovalProposal → Bool
matches_file file expected =
    str_eq expected.operation (operation_text file.operation)
    && str_eq expected.path file.display_path
    && str_eq expected.diff file.diff
    && str_eq expected.base_sha256 file.before.hash
    && expected.base_mode == permissions file.before.mode
    && str_eq expected.result_sha256 file.after_hash

abbrev pub matches_files : List FilePatch → List FileApprovalProposal → Bool
matches_files [] [] = true
matches_files [] (expected ∷ others) = false
matches_files (file ∷ files) [] = false
matches_files (file ∷ files) (expected ∷ others) =
    matches_file file expected && matches_files files others

unfoldable pub matches_payload : PatchProposal → EditConfirmationPayload → Bool
matches_payload proposal payload =
    str_eq payload.kind "file_patch"
    && str_eq payload.diff proposal.diff
    && matches_files proposal.files payload.files

-- `paths`
abbrev pub proposal_paths : PatchProposal → List String
proposal_paths proposal = map FilePatch.display_path proposal.files

abbrev pub or_failed :
    (List String → EditFileResult) → EditToolError → Option (List String) → EditFileResult
or_failed result e none = EditFileResult.tool_failed e
or_failed result e (some paths) = result paths

-- What the end of the transaction makes the result.
abbrev pub direct_result : PatchProposal → PatchOutcome → EditFileResult
direct_result proposal PatchOutcome.applied = EditFileResult.applied_result proposal
direct_result proposal outcome = EditFileResult.tool_failed (EditToolError.not_applied outcome)

abbrev pub confirmed_result : PatchProposal → PatchOutcome → EditFileResult
confirmed_result proposal PatchOutcome.applied = EditFileResult.applied_result proposal
confirmed_result proposal (PatchOutcome.refused EditError.conflict) =
    EditFileResult.conflicted (proposal_paths proposal)
confirmed_result proposal outcome = EditFileResult.tool_failed (EditToolError.not_applied outcome)

module _ (host : Host) (system : System) (sends : EditConfirmationPayload → Bool) where
  -- `applyPatchProposal`, from the opening of the root on
  abbrev pub apply_opened :
      (PatchOutcome → EditFileResult)
      → PatchProposal
      → Disk
      → Result (Unit {0})
      → Disk × EditFileResult
  apply_opened result proposal d (err e) =
      (d, EditFileResult.tool_failed (EditToolError.bad_file e))
  apply_opened result proposal d (ok done) =
      let (d', outcome) = apply_patch_proposal host proposal.files d in (d', result outcome)

  abbrev pub apply_proposal :
      (PatchOutcome → EditFileResult) → PatchProposal → Disk → Disk × EditFileResult
  apply_proposal result proposal d =
      let (d', open_root) = attempt d in apply_opened result proposal d' open_root

  -- Without an answer: a request for one, or the patch.
  abbrev pub request_or_apply : Permission → PatchProposal → Disk → Disk × EditFileResult
  request_or_apply permission proposal d =
      if str_eq permission.confirmation_mode confirmation_ask
      then (
        d,
        if sends (confirmation_payload proposal)
            then EditFileResult.approval_required proposal
            else EditFileResult.tool_failed EditToolError.no_request,
      )
      else apply_proposal (direct_result proposal) proposal d

  -- With a positive answer: the patch, if it is the one that was shown.
  abbrev pub apply_confirmed :
      Option EditConfirmationPayload → PatchProposal → Disk → Disk × EditFileResult
  apply_confirmed none proposal d = (d, EditFileResult.tool_failed EditToolError.no_payload)
  apply_confirmed (some payload) proposal d =
      if matches_payload proposal payload
      then apply_proposal (confirmed_result proposal) proposal d
      else (d, EditFileResult.conflicted (proposal_paths proposal))

  -- After the patch is built.
  abbrev pub is_outside : EditToolError → Bool
  is_outside EditToolError.outside_scope = true
  is_outside e = false

  abbrev pub after_build :
      FilesystemAccess
      → List NormalChange
      → Permission
      → Option ToolConfirmation
      → Disk × Built PatchProposal
      → Disk × EditFileResult
  after_build access changes permission none (d, Built.build_failed e) =
      (d, EditFileResult.tool_failed e)
  after_build access changes permission (some answer) (d, Built.build_failed e) = (
    d,
    if is_outside e
        then EditFileResult.tool_failed e
        else or_failed EditFileResult.conflicted e (resolved_change_paths access changes),
  )
  after_build access changes permission none (d, Built.built proposal) =
      request_or_apply permission proposal d
  after_build access changes permission (some answer) (d, Built.built proposal) =
      apply_confirmed answer.payload proposal d

  abbrev pub is_denied : Option ToolConfirmation → Bool
  is_denied none = false
  is_denied (some answer) = not answer.confirmed

  abbrev pub reason_of : Option ToolConfirmation → String
  reason_of none = ""
  reason_of (some answer) = answer.reason

  abbrev pub after_changes :
      FilesystemAccess
      → Permission
      → Option ToolConfirmation
      → Normal (List NormalChange)
      → Disk
      → Disk × EditFileResult
  after_changes access permission answer (Normal.change_refused e) d =
      (d, EditFileResult.tool_failed (EditToolError.bad_changes e))
  after_changes access permission answer (Normal.normal changes) d =
      if is_denied answer
      then (
        d,
        or_failed (λ paths. EditFileResult.denied paths (reason_of answer))
            EditToolError.outside_scope (resolved_change_paths access changes),
      )
      else after_build access changes permission answer
          (build_patch_proposal host system access changes d)

  -- `editFileWithPolicy`
  unfoldable pub edit_file_with_policy :
      FilesystemAccess
      → Permission
      → Option ToolConfirmation
      → EditFileArgs
      → Disk
      → Disk × EditFileResult
  edit_file_with_policy access permission answer args d =
      after_changes access permission answer (normalize_file_changes args) d
