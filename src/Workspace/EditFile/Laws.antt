-- ===== src/Workspace/EditFile/Laws.antt =====
-- What the tool changes, and on whose word.
use materialmind.Common.{◌≡◌, refl, true, List, [], ◌∷◌, map, arith, eq_iff}
use materialmind.Workspace.Files.{FilePatch}
use materialmind.Workspace.Proposal.{PatchProposal}
use materialmind.Workspace.EditFile.{
  FileApprovalProposal, EditConfirmationPayload, file_approval, confirmation_payload, matches_file,
  matches_files, matches_payload,
}

-- A payload that matches is the payload of the proposal.
matches_file_lem :
    (file : FilePatch) (expected : FileApprovalProposal)
    → matches_file file expected ≡ true
    → expected ≡ file_approval file
matches_file_lem file expected h = grind (arith, eq_iff)

matches_files_lem :
    (files : List FilePatch) (expected : List FileApprovalProposal)
    → matches_files files expected ≡ true
    → expected ≡ map file_approval files
matches_files_lem [] [] h = refl
matches_files_lem [] (e ∷ expected) h = absurd (ground arith)
matches_files_lem (file ∷ files) [] h = absurd (ground arith)
matches_files_lem (file ∷ files) (e ∷ expected) h =
    let first : e ≡ file_approval file = matches_file_lem file e (ground arith) in
    let rest : expected ≡ map file_approval files =
      matches_files_lem files expected (ground arith) in
    cc (first, rest)

pub matches_payload_lem :
    (proposal : PatchProposal) (payload : EditConfirmationPayload)
    → matches_payload proposal payload ≡ true
    → payload ≡ confirmation_payload proposal
unfolding matches_payload
matches_payload_lem proposal payload h =
    let files : payload.files ≡ map file_approval proposal.files =
      matches_files_lem proposal.files payload.files (ground arith) in
    grind (arith, eq_iff)
