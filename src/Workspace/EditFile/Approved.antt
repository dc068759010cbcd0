-- ===== src/Workspace/EditFile/Approved.antt =====
-- The files change only by a patch that was approved, or that needs no approval.
use materialmind.Common.{
  ◌≡◌, ◌∙◌, ◌⊎◌, inl, inr, refl, ap, String, Bool, true, false, Option, none, some, List,
  if◌then◌else◌, str_eq, arith, Bool-cases,
}
use materialmind.Policy.{Permission, confirmation_ask}
use materialmind.Workspace.Access.{FilesystemAccess}
use materialmind.Workspace.Disk.{Disk, Result, ok, err, attempt}
use materialmind.Workspace.Files.{Host}
use materialmind.Workspace.Changes.{EditFileArgs, NormalChange, Normal, normalize_file_changes}
use materialmind.Workspace.Patch.{PatchOutcome, apply_patch_proposal}
use materialmind.Workspace.Proposal.{
  System, PatchProposal, EditToolError, Built, resolved_change_paths, build_patch_proposal,
}
use materialmind.Workspace.EditFile.{
  EditConfirmationPayload, ToolConfirmation, EditFileResult, confirmation_payload, matches_payload,
  or_failed, direct_result, confirmed_result, apply_opened, apply_proposal, request_or_apply,
  apply_confirmed, is_outside, after_build, is_denied, reason_of, after_changes,
  edit_file_with_policy,
}
use materialmind.Workspace.EditFile.Laws.{matches_payload_lem}
use materialmind.Workspace.Proposal.Reads.{build_patch_proposal-reads}

-- A patch that may be applied: without an answer, if the tool need not ask; with one, if that is
-- positive and was given to the very patch.
abbrev pub IsApproved : Permission → Option ToolConfirmation → PatchProposal → Type 0
IsApproved permission none proposal = str_eq permission.confirmation_mode confirmation_ask ≡ false
IsApproved permission (some answer) proposal =
    (answer.confirmed ≡ true) × (answer.payload ≡ some (confirmation_payload proposal))

abbrev pub NotApplied : EditFileResult → Type 0
NotApplied (EditFileResult.denied paths reason) = Unit
NotApplied (EditFileResult.conflicted paths) = Unit
NotApplied (EditFileResult.approval_required proposal) = Unit
NotApplied (EditFileResult.applied_result proposal) = ⊥
NotApplied (EditFileResult.tool_failed e) = Unit

module _ (host : Host) (system : System) (sends : EditConfirmationPayload → Bool) where
  -- The transaction of a proposal, from a disk with the same files, and its result.
  abbrev pub Ran : PatchProposal → Disk → Disk × EditFileResult → Type 0
  Ran proposal d (d', result) =
      (start : Disk) × (start.files ≡ d.files)
      × (d' ≡ (apply_patch_proposal host proposal.files start).0)
      × ((result ≡ direct_result proposal (apply_patch_proposal host proposal.files start).1)
          ⊎ (result ≡ confirmed_result proposal (apply_patch_proposal host proposal.files start).1))

  -- A call that leaves the files and does not say otherwise, or the run of an approved patch.
  abbrev pub OnlyApproved :
      FilesystemAccess
      → Permission
      → Option ToolConfirmation
      → EditFileArgs
      → Disk
      → Disk × EditFileResult
      → Type 0
  OnlyApproved access permission answer args d r =
      ((r.0.files ≡ d.files) × NotApplied r.1)
      ⊎ ((changes : List NormalChange) × (proposal : PatchProposal) × (normalize_file_changes args
            ≡ Normal.normal changes)
          × ((build_patch_proposal host system access changes d).1 ≡ Built.built proposal)
          × IsApproved permission answer proposal
          × Ran proposal d r)

  apply_opened-Ran :
      (f : PatchOutcome → EditFileResult) (proposal : PatchProposal) (d start : Disk)
      (r : Result (Unit {0}))
      → ((o : PatchOutcome)
          → (f o ≡ direct_result proposal o) ⊎ (f o ≡ confirmed_result proposal o))
      → start.files ≡ d.files
      → (((apply_opened host system sends f proposal start r).0.files ≡ d.files)
          × NotApplied (apply_opened host system sends f proposal start r).1)
        ⊎ Ran proposal d (apply_opened host system sends f proposal start r)
  apply_opened-Ran f proposal d start (err e) h same = inl (same, tt)
  apply_opened-Ran f proposal d start (ok done) h same =
      inr (start, same, refl, h (apply_patch_proposal host proposal.files start).1)

  or_failed-NotApplied :
      (f : List String → EditFileResult) (e : EditToolError) (paths : Option (List String))
      → ((paths : List String) → NotApplied (f paths))
      → NotApplied (or_failed f e paths)
  or_failed-NotApplied f e none h = tt
  or_failed-NotApplied f e (some paths) h = h paths

  module _ (access : FilesystemAccess) (permission : Permission) (args : EditFileArgs)
      (changes : List NormalChange) (d : Disk)
      (normal : normalize_file_changes args ≡ Normal.normal changes) where
    asked_quiet :
        (proposal : PatchProposal)
        → NotApplied (
            if sends (confirmation_payload proposal)
            then EditFileResult.approval_required proposal
            else EditFileResult.tool_failed EditToolError.no_request)
    asked_quiet proposal = elim (Bool-cases (sends (confirmation_payload proposal))) [
      | inl sent ↦ rw sent tt
      | inr failed ↦ rw failed tt
    ]

    failed_quiet :
        (e : EditToolError)
        → NotApplied (
            if is_outside host system sends e
            then EditFileResult.tool_failed e
            else or_failed EditFileResult.conflicted e (resolved_change_paths access changes))
    failed_quiet e = elim (Bool-cases (is_outside host system sends e)) [
      | inl outside ↦ rw outside tt
      | inr other ↦ rw other (
          or_failed-NotApplied EditFileResult.conflicted e (resolved_change_paths access changes)
            (λ paths. tt))
    ]

    -- The run of an approved proposal.
    run_approved :
        (answer : Option ToolConfirmation) (proposal : PatchProposal) (d' : Disk)
        (f : PatchOutcome → EditFileResult)
        → (build_patch_proposal host system access changes d).1 ≡ Built.built proposal
        → d'.files ≡ d.files
        → IsApproved permission answer proposal
        → ((o : PatchOutcome)
            → (f o ≡ direct_result proposal o) ⊎ (f o ≡ confirmed_result proposal o))
        → OnlyApproved access permission answer args d
            (apply_proposal host system sends f proposal d')
    run_approved answer proposal d' f is_built same approved h =
        elim (apply_opened-Ran f proposal d (attempt d').0 (attempt d').1 h same) [
          | inl quiet ↦ inl quiet
          | inr ran ↦ inr (changes, proposal, normal, is_built, approved, ran)
        ]

    asked_or_run :
        (proposal : PatchProposal) (d' : Disk) (asks : Bool)
        → (build_patch_proposal host system access changes d).1 ≡ Built.built proposal
        → d'.files ≡ d.files
        → str_eq permission.confirmation_mode confirmation_ask ≡ asks
        → OnlyApproved access permission none args d (
            if asks
            then (
              d',
              if sends (confirmation_payload proposal)
                  then EditFileResult.approval_required proposal
                  else EditFileResult.tool_failed EditToolError.no_request,
            )
            else apply_proposal host system sends (direct_result proposal) proposal d')
    asked_or_run proposal d' true is_built same asks = inl (same, asked_quiet proposal)
    asked_or_run proposal d' false is_built same free =
        run_approved none proposal d' (direct_result proposal) is_built same free (λ o. inl refl)

    request_or_apply-OnlyApproved :
        (proposal : PatchProposal) (d' : Disk)
        → (build_patch_proposal host system access changes d).1 ≡ Built.built proposal
        → d'.files ≡ d.files
        → OnlyApproved access permission none args d
            (request_or_apply host system sends permission proposal d')
    request_or_apply-OnlyApproved proposal d' is_built same =
        asked_or_run proposal d' (str_eq permission.confirmation_mode confirmation_ask) is_built
          same refl

    apply_confirmed-OnlyApproved :
        (answer : ToolConfirmation) (payload : Option EditConfirmationPayload)
        (proposal : PatchProposal) (d' : Disk)
        → (build_patch_proposal host system access changes d).1 ≡ Built.built proposal
        → d'.files ≡ d.files
        → answer.confirmed ≡ true
        → answer.payload ≡ payload
        → OnlyApproved access permission
            (some answer)
            args
            d
            (apply_confirmed host system sends payload proposal d')
    apply_confirmed-OnlyApproved answer none proposal d' is_built same positive is_payload =
        inl (same, tt)
    apply_confirmed-OnlyApproved answer (some payload) proposal d' is_built same positive
          is_payload =
        elim (Bool-cases (matches_payload proposal payload)) [
          | inl matches ↦ rw matches (
              run_approved (some answer) proposal d' (confirmed_result proposal) is_built same
                (positive, is_payload ∙ ap some (matches_payload_lem proposal payload matches))
                (λ o. inr refl))
          | inr differs ↦ rw differs (inl (same, tt))
        ]

    after_build-OnlyApproved :
        (answer : Option ToolConfirmation) (r : Disk × Built PatchProposal)
        → (build_patch_proposal host system access changes d).1 ≡ r.1
        → r.0.files ≡ d.files
        → is_denied host system sends answer ≡ false
        → OnlyApproved access permission answer args d
            (after_build host system sends access changes permission answer r)
    after_build-OnlyApproved none (d', Built.build_failed e) is_built same fine = inl (same, tt)
    after_build-OnlyApproved (some answer) (d', Built.build_failed e) is_built same fine =
        inl (same, failed_quiet e)
    after_build-OnlyApproved none (d', Built.built proposal) is_built same fine =
        request_or_apply-OnlyApproved proposal d' is_built same
    after_build-OnlyApproved (some answer) (d', Built.built proposal) is_built same fine =
        apply_confirmed-OnlyApproved answer answer.payload proposal d' is_built same (ground arith)
          refl

  after_changes-OnlyApproved :
      (access : FilesystemAccess) (permission : Permission) (answer : Option ToolConfirmation)
      (args : EditFileArgs) (d : Disk) (r : Normal (List NormalChange))
      → normalize_file_changes args ≡ r
      → OnlyApproved access permission answer args d
          (after_changes host system sends access permission answer r d)
  after_changes-OnlyApproved access permission answer args d (Normal.change_refused e) is_r =
      inl (refl, tt)
  after_changes-OnlyApproved access permission answer args d (Normal.normal changes) is_r =
      elim (Bool-cases (is_denied host system sends answer)) [
        | inl no_go ↦ rw no_go (
            inl (
              refl,
              or_failed-NotApplied
                  (λ paths. EditFileResult.denied paths (reason_of host system sends answer))
                  EditToolError.outside_scope (resolved_change_paths access changes) (λ paths. tt),
            ))
        | inr fine ↦ rw fine (
            after_build-OnlyApproved access permission args changes d is_r answer
              (build_patch_proposal host system access changes d) refl
              (build_patch_proposal-reads host system access changes d) fine)
      ]

  -- A call of the tool leaves the files and does not say otherwise, or it runs the transaction of
  -- the patch that its changes propose for these files; then it is without an answer and need not
  -- ask, or the answer is positive and was given to exactly this patch.
  pub edit_file_with_policy-OnlyApproved :
      (access : FilesystemAccess) (permission : Permission) (answer : Option ToolConfirmation)
      (args : EditFileArgs) (d : Disk)
      → OnlyApproved access permission answer args d
          (edit_file_with_policy host system sends access permission answer args d)
  unfolding edit_file_with_policy
  edit_file_with_policy-OnlyApproved access permission answer args d =
      after_changes-OnlyApproved access permission answer args d (normalize_file_changes args) refl
