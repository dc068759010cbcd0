-- ===== src/Workspace/Tests.antt =====
-- The workspace's tools on concrete inputs.
use materialmind.Common.{
  ℕ, ◌≡◌, ◌≢◌, ◌↔◌, arith, refl, String, true, false, List, [], ◌∷◌, ◌++◌, Bool, some, none, lookup,
  insert, delete, All,
}
use materialmind.Workspace.Edits.{
  TextReplacement, Edited, count, replace_first, replace_all, apply_text_replacements,
}
use materialmind.Workspace.Edits.Laws.{ReplacesAll, apply_text_replacements_iff}
use materialmind.Common.Text.{is_space, trim_left, trim_right, trim_space}
use materialmind.Workspace.Paths.{CleanPath, push_parts, first_part, later_parts}
use materialmind.Workspace.Access.{
  FilesystemAccess, ResolvedPath, new_filesystem_access, resolve, absolute_path, or_dot,
  boundary_of,
}
use materialmind.Workspace.Access.Laws.{Confined, resolve-Confined, resolve-below}
use materialmind.Workspace.Changes.{
  FileChange, EditFileArgs, NormalChange, Normal, ChangeError, normalize_file_changes,
  normalize_loop, normalize_change,
}
use materialmind.Workspace.Changes.Laws.{Accepted, normalize_file_changes-Accepted}
use materialmind.Policy.{Permission}
use materialmind.Workspace.Proposal.{
  System, PatchProposal, Built, build_patch_proposal, build_files, resolve_changes,
}
use materialmind.Workspace.Proposal.Laws.{AllDescribe, build_patch_proposal-AllDescribe}
use materialmind.Workspace.EditFile.{edit_file_with_policy}
use materialmind.Workspace.EditFile.Approved.{OnlyApproved, edit_file_with_policy-OnlyApproved}
use materialmind.Workspace.Disk.{Node, Disk, EditError, remove, rename, link, create_new, write}
use materialmind.Workspace.Text.{valid_edit_text}
use materialmind.Workspace.Files.{
  Operation, FilePatch, Snapshot, Host, temporary_sibling_path, read_optional_edit_snapshot,
  validate_file_state, validate_patch_state, no_snapshot,
}
use materialmind.Workspace.Patch.{
  PatchOutcome, apply_patch_proposal, remove_if_exists, each, undo_entry, undo_all, remove_staged,
  rollback_patch, finish, stage_patch_file,
}
use materialmind.Workspace.Patch.Whole.{IsPatch, AllSettled, apply_patch_proposal-AllSettled}
use materialmind.Workspace.Patch.Ours.{IsNamed}
use materialmind.Workspace.Patch.Frames.{AwayFrom}
use materialmind.Workspace.Patch.Untouched.{apply_patch_proposal-Keeps}

-- A hash that tells the empty file from others, and a fixed random name.
abbrev hash_of : List ℕ → String
hash_of [] = "empty"
hash_of (b ∷ bs) = "full"

abbrev test_host : Host
test_host = record { sha256_hex = hash_of; uuid = λ path extension. "7f"; masked = λ mode. mode }

abbrev before_a : Snapshot
before_a = record { exists = true; content = 97 ∷ []; mode = 420; hash = "full" }

abbrev update_a : FilePatch
update_a = record {
  operation = Operation.update;
  path = "a";
  display_path = "a";
  before = before_a;
  after = 98 ∷ [];
  diff = "";
  after_hash = "full";
  edit_count = 1;
}

abbrev create_b : FilePatch
create_b = record {
  operation = Operation.create;
  path = "b";
  display_path = "b";
  before = no_snapshot;
  after = 99 ∷ [];
  diff = "";
  after_hash = "full";
  edit_count = 0;
}

abbrev delete_c : FilePatch
delete_c = record {
  operation = Operation.delete;
  path = "c";
  display_path = "c";
  before = before_a;
  after = [];
  diff = "";
  after_hash = "";
  edit_count = 0;
}

abbrev patch : List FilePatch
patch = update_a ∷ create_b ∷ delete_c ∷ []

abbrev untouched : Node
untouched = Node.regular (1 ∷ []) 420

-- Both originals are there, and every operation works.
abbrev calm : Disk
calm = record {
  files =
      ("a", Node.regular (97 ∷ []) 420) ∷ ("c", Node.regular (97 ∷ []) 420) ∷ ("d", untouched) ∷ [];
  faults = [];
}

test_applied : (apply_patch_proposal test_host patch calm).1 ≡ PatchOutcome.applied
unfolding apply_patch_proposal each stage_patch_file remove_if_exists undo_entry undo_all
    remove_staged rollback_patch finish remove rename link create_new write lookup insert delete
    validate_patch_state validate_file_state read_optional_edit_snapshot temporary_sibling_path
    valid_edit_text
test_applied = refl

-- The first link fails, after every original has been moved away.
abbrev failing : Disk
failing = record calm {
  faults =
      false ∷ false ∷ false ∷ false ∷ false ∷ false ∷ false ∷ false ∷ false ∷ false ∷ false ∷ false
      ∷ false ∷ false ∷ false ∷ false ∷ false ∷ false ∷ false ∷ false ∷ false ∷ false ∷ false
      ∷ false ∷ false ∷ false ∷ false ∷ false ∷ true ∷ [];
}

test_refused :
    (apply_patch_proposal test_host patch failing).1 ≡ PatchOutcome.refused EditError.io_error
unfolding apply_patch_proposal each stage_patch_file remove_if_exists undo_entry undo_all
    remove_staged rollback_patch finish remove rename link create_new write lookup insert delete
    validate_patch_state validate_file_state read_optional_edit_snapshot temporary_sibling_path
    valid_edit_text
test_refused = refl

IsNamed-update_a : IsNamed test_host update_a
unfolding temporary_sibling_path
IsNamed-update_a = record {
  path_named = refl;
  staging_named = refl;
  backup_named = refl;
  path_staging = refl;
  staging_path = refl;
  path_backup = refl;
  backup_path = refl;
  staging_backup = refl;
  backup_staging = refl;
}

IsNamed-create_b : IsNamed test_host create_b
unfolding temporary_sibling_path
IsNamed-create_b = record {
  path_named = refl;
  staging_named = refl;
  backup_named = refl;
  path_staging = refl;
  staging_path = refl;
  path_backup = refl;
  backup_path = refl;
  staging_backup = refl;
  backup_staging = refl;
}

IsNamed-delete_c : IsNamed test_host delete_c
unfolding temporary_sibling_path
IsNamed-delete_c = record {
  path_named = refl;
  staging_named = refl;
  backup_named = refl;
  path_staging = refl;
  staging_path = refl;
  path_backup = refl;
  backup_path = refl;
  staging_backup = refl;
  backup_staging = refl;
}

apart_names : (false ≡ false) × (false ≡ false) × (false ≡ false)
apart_names = (refl, refl, refl)

patch-IsPatch : IsPatch test_host patch
unfolding temporary_sibling_path
patch-IsPatch =
    let n = apart_names in
    (
      IsNamed-update_a,
      refl,
      ((n, n, n), ((n, n, n), tt)),
      ((n, n, n), ((n, n, n), tt)),
      (
        IsNamed-create_b,
        refl,
        ((n, n, n), tt),
        ((n, n, n), tt),
        (IsNamed-delete_c, refl, tt, tt, tt),
      ),
    )

apply_patch_proposal-AllSettled_example :
    AllSettled test_host patch calm (apply_patch_proposal test_host patch calm)
apply_patch_proposal-AllSettled_example =
    apply_patch_proposal-AllSettled test_host patch calm patch-IsPatch

away_d : All (AwayFrom test_host "d") patch
unfolding temporary_sibling_path
away_d = (apart_names, (apart_names, (apart_names, tt)))

apply_patch_proposal-Keeps_example :
    lookup "d" (apply_patch_proposal test_host patch calm).0.files ≡ lookup "d" calm.files
apply_patch_proposal-Keeps_example = apply_patch_proposal-Keeps test_host "d" refl patch calm away_d

-- Of `ab` in `cabd`, the only one.
abbrev edit_ab : TextReplacement
edit_ab = record { old_text = 97 ∷ 98 ∷ []; new_text = 120 ∷ [] }

-- `aa` stands at two places of `aaa`, and is replaced at the first one.
abbrev edit_aa : TextReplacement
edit_aa = record { old_text = 97 ∷ 97 ∷ []; new_text = 98 ∷ [] }

test_overlap :
    apply_text_replacements (97 ∷ 97 ∷ 97 ∷ []) (edit_aa ∷ []) ≡ Edited.edited (98 ∷ 97 ∷ [])
unfolding apply_text_replacements replace_all count replace_first
test_overlap = refl

abbrev text_before : List ℕ
text_before = 99 ∷ 97 ∷ 98 ∷ 100 ∷ []

abbrev text_after : List ℕ
text_after = 99 ∷ 120 ∷ 100 ∷ []

apply_text_replacements_iff_example :
    (apply_text_replacements text_before (edit_ab ∷ []) ≡ Edited.edited text_after)
    ↔ (ReplacesAll (edit_ab ∷ []) text_before text_after × (text_before ≢ text_after))
apply_text_replacements_iff_example =
    apply_text_replacements_iff text_before (edit_ab ∷ []) text_after (omega arith, tt)

abbrev unmarked : CleanPath → Bool
unmarked path = false

-- The access to the workspace `/w`.
abbrev access_w : FilesystemAccess
access_w = record {
  workspace_root = record { absolute = true; parts = "w" ∷ [] };
  boundary_root = some (record { absolute = true; parts = "w" ∷ [] });
  scope = "workspace";
}

access_w_lem : new_filesystem_access unmarked " /w/x/.. " "workspace" ≡ some access_w
unfolding new_filesystem_access trim_space trim_left trim_right is_space push_parts first_part
    later_parts
access_w_lem = refl

abbrev resolved_c : ResolvedPath
resolved_c = record {
  root_path = record { absolute = true; parts = "w" ∷ [] };
  root_relative = record { absolute = false; parts = "c" ∷ [] };
  display = record { absolute = false; parts = "c" ∷ [] };
  absolute = record { absolute = true; parts = "w" ∷ "c" ∷ [] };
}

resolved_c_lem : resolve access_w "b/../c" ≡ some resolved_c
unfolding resolve trim_space trim_left trim_right is_space push_parts first_part later_parts
resolved_c_lem = refl

test_escape : resolve access_w "../v" ≡ none
unfolding resolve trim_space trim_left trim_right is_space push_parts first_part later_parts
test_escape = refl

resolve-Confined_example : Confined access_w resolved_c
resolve-Confined_example =
    resolve-Confined unmarked " /w/x/.. " "workspace" "b/../c" access_w resolved_c access_w_lem
      resolved_c_lem

parts_c :
    (absolute_path access_w (or_dot (trim_space "b/../c"))).parts
    ≡ (boundary_of access_w).parts ++ "c" ∷ []
unfolding trim_space trim_left trim_right is_space push_parts first_part later_parts
parts_c = refl

resolve-below_example :
    (r : ResolvedPath) × (resolve access_w "b/../c" ≡ some r) × (r.root_relative.parts ≡ "c" ∷ [])
resolve-below_example =
    resolve-below unmarked " /w/x/.. " "workspace" "b/../c" access_w ("c" ∷ []) access_w_lem parts_c

abbrev asked_create : FileChange
asked_create = record { operation = " Create "; path = "x/./b"; content = 97 ∷ []; edits = [] }

abbrev asked_delete : FileChange
asked_delete = record { operation = "delete"; path = "c"; content = []; edits = [] }

abbrev asked : List FileChange → EditFileArgs
asked changes = record { path = ""; edits = []; changes = changes }

abbrev normal_changes : List NormalChange
normal_changes =
    record {
      operation = Operation.create;
      path = record { absolute = false; parts = "x" ∷ "b" ∷ [] };
      content = 97 ∷ [];
      edits = [];
    }
    ∷ record {
      operation = Operation.delete;
      path = record { absolute = false; parts = "c" ∷ [] };
      content = [];
      edits = [];
    }
    ∷ []

normal_changes_lem :
    normalize_file_changes (asked (asked_create ∷ asked_delete ∷ [])) ≡ Normal.normal normal_changes
unfolding normalize_file_changes normalize_loop normalize_change trim_space trim_left trim_right
    is_space push_parts first_part later_parts valid_edit_text
normal_changes_lem = refl

test_repeated :
    normalize_file_changes (asked (asked_delete ∷ asked_delete ∷ []))
    ≡ Normal.change_refused ChangeError.repeated_path
unfolding normalize_file_changes normalize_loop normalize_change trim_space trim_left trim_right
    is_space push_parts first_part later_parts valid_edit_text
test_repeated = refl

normalize_file_changes-Accepted_example : Accepted normal_changes
normalize_file_changes-Accepted_example =
    normalize_file_changes-Accepted (asked (asked_create ∷ asked_delete ∷ [])) normal_changes
      normal_changes_lem

abbrev quiet_system : System
quiet_system = record {
  unified = λ old_path new_path before after. "diff";
  parent_is_directory = λ path. some true;
}

abbrev free_permission : Permission
free_permission = record {
  tool_name = "edit_file";
  confirmation_mode = "allow";
  filesystem_scope = "workspace";
  target_rules = [];
}

abbrev delete_of_c : List NormalChange
delete_of_c =
    record {
      operation = Operation.delete;
      path = record { absolute = false; parts = "c" ∷ [] };
      content = [];
      edits = [];
    }
    ∷ []

abbrev proposal_c : PatchProposal
proposal_c = record {
  root_path = record { absolute = true; parts = "w" ∷ [] };
  files = record delete_c { diff = "diff" } ∷ [];
  diff = "diff\n";
  edit_count = 0;
}

proposal_c_lem :
    (build_patch_proposal test_host quiet_system access_w delete_of_c calm).1
    ≡ Built.built proposal_c
unfolding build_patch_proposal build_files resolve_changes resolve read_optional_edit_snapshot
    lookup trim_space trim_left trim_right is_space push_parts first_part later_parts
    valid_edit_text
proposal_c_lem = refl

build_patch_proposal-AllDescribe_example :
    AllDescribe test_host quiet_system access_w proposal_c.root_path calm.files delete_of_c
      proposal_c.files
build_patch_proposal-AllDescribe_example =
    build_patch_proposal-AllDescribe test_host quiet_system access_w delete_of_c calm proposal_c
      proposal_c_lem

edit_file_with_policy-OnlyApproved_example :
    OnlyApproved test_host quiet_system
      (λ payload. true)
      access_w
      free_permission
      none
      (asked (asked_delete ∷ []))
      calm
      (edit_file_with_policy test_host quiet_system
        (λ payload. true)
        access_w
        free_permission
        none
        (asked (asked_delete ∷ []))
        calm)
edit_file_with_policy-OnlyApproved_example =
    edit_file_with_policy-OnlyApproved test_host quiet_system (λ payload. true) access_w
      free_permission none (asked (asked_delete ∷ [])) calm
