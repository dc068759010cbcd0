-- ===== src/Workspace/Patch.antt =====
-- The transaction that applies a patch to the files: `applyPatchProposal` of
-- internal/workspacetools/edit.go.
pub mod Frames
pub mod Undo
pub mod Loop
pub mod Ours
pub mod Stages
pub mod Moves
pub mod Install
pub mod Rollback
pub mod Atomic
pub mod Whole
pub mod Untouched
use Prim.Native.Char.{code}
use Prim.Native.String.{◌++◌ as text_append}
use materialmind.Common.{
  ℕ, ◌%◌, String, Bool, true, false, ◌&&◌, ◌||◌, not, Option, none, some, List, [], ◌∷◌,
  if◌then◌else◌, ltb, ◌==◌, str_eq, length, map,
}
use materialmind.Workspace.Text.{valid_edit_text}
use materialmind.Workspace.Files.{
  Operation, Snapshot, FilePatch, Host, max_edit_file_bytes, permissions, is_delete, has_slash,
  directory_part, base_part, no_snapshot, replace_error, temporary_sibling_path, staging_name,
  backup_name, read_content, read_found, read_optional_edit_snapshot, check_unchanged, check_state,
  or_conflict, validate_file_state, validate_patch_state,
}
use materialmind.Workspace.Disk.{
  Node, Disk, EditError, Result, ok, err, Action, ◌>>=◌, ◌>>◌, pure, raise, attempt, find, remove,
  rename, link, create_new, write,
}

-- `patchTransactionEntry`; `none` is the empty path
pub record PatchEntry : Type 0 where
  pub file : FilePatch
  pub staged_path : Option String
  pub backup_path : Option String
  pub original_moved : Bool
  pub installed : Bool

abbrev pub new_entry : FilePatch → PatchEntry
new_entry file = record {
  file = file;
  staged_path = none;
  backup_path = none;
  original_moved = false;
  installed = false;
}

-- A link to a name that is taken is a conflict.
abbrev pub or_conflict_if_taken : Result (Unit {0}) → Result (Unit {0})
or_conflict_if_taken (ok done) = ok done
or_conflict_if_taken (err EditError.target_exists) = err EditError.conflict
or_conflict_if_taken (err e) = err e

abbrev pub link_staged : String → String → Action (Unit {0})
link_staged staged path d = ((link staged path d).0, or_conflict_if_taken (link staged path d).1)

-- A step whose error is dropped.
abbrev pub ignore : {A : Type 0} → Action A → Action (Unit {0})
ignore m d = ((m d).0, ok tt)

-- `removeIfExists`
abbrev pub or_missing : Result (Unit {0}) → Result (Unit {0})
or_missing (ok done) = ok done
or_missing (err EditError.missing) = ok tt
or_missing (err e) = err e

unfoldable pub remove_if_exists : String → Action (Unit {0})
remove_if_exists path d = ((remove path d).0, or_missing (remove path d).1)

abbrev pub remove_named : Option String → Action (Unit {0})
remove_named none = pure tt
remove_named (some path) = remove_if_exists path

-- `cleanupPatchArtifacts`
abbrev pub clean_up : List PatchEntry → Action (Unit {0})
clean_up [] = pure tt
clean_up (e ∷ es) = do
  ignore (remove_named e.staged_path)
  ignore (remove_named e.backup_path)
  clean_up es

-- The error that `applyPatchProposal` returns: none; that the patch is applied and a temporary file
-- is left; the cause for which it is rolled back; or a rollback that failed after a cause.
pub data PatchOutcome : Type 0 where
  applied leftovers : PatchOutcome
  refused rollback_failed : EditError → PatchOutcome

-- A loop over the entries that stops at the first error: the entries then are those so far, and
-- the others as they were.
abbrev pub Progress : Type 0
Progress = Disk × List PatchEntry × Option EditError

abbrev pub next_entry : PatchEntry → Progress → Progress
next_entry e (d, es, cause) = (d, e ∷ es, cause)

module _ (host : Host) where
  -- The temporary file goes if a step fails.
  abbrev pub discard : {A : Type 0} → String → Disk → Result A → Disk × Result A
  discard path d (ok a) = (d, ok a)
  discard path d (err e) = ((remove path d).0, err e)

  abbrev pub or_discard : {A : Type 0} → String → Action A → Action A
  or_discard path m d = discard path (m d).0 (m d).1

  abbrev pub staged_mode : FilePatch → ℕ
  staged_mode file = host.masked (if file.before.exists then permissions file.before.mode else 420)

  -- `Write`, `Sync` and `Close`.
  abbrev pub fill : FilePatch → Action (Unit {0})
  fill file = do write (staging_name host file) file.after (staged_mode file); attempt; attempt

  -- `stagePatchFile`
  unfoldable pub stage_patch_file : FilePatch → Action String
  stage_patch_file file = do
    create_new (staging_name host file) (staged_mode file)
    or_discard (staging_name host file) (fill file)
    pure (staging_name host file)

  -- The three loops of `applyPatchProposal`, each on one entry.
  abbrev pub stage_unless : Bool → PatchEntry → Action PatchEntry
  stage_unless true e = pure e
  stage_unless false e = do
    staged ← stage_patch_file e.file
    pure (record e { staged_path = some staged })

  abbrev pub stage_entry : PatchEntry → Action PatchEntry
  stage_entry e = stage_unless (is_delete e.file.operation) e

  abbrev pub move_if : Bool → PatchEntry → Action PatchEntry
  move_if false e = pure e
  move_if true e = do
    validate_file_state host e.file
    rename e.file.path (backup_name host e.file)
    pure (record e { backup_path = some (backup_name host e.file); original_moved = true })

  abbrev pub move_entry : PatchEntry → Action PatchEntry
  move_entry e = move_if e.file.before.exists e

  abbrev pub install_staged : PatchEntry → Operation → String → Action PatchEntry
  install_staged e Operation.create staged = do
    link_staged staged e.file.path
    pure (record e { installed = true })
  install_staged e Operation.update staged = do
    rename staged e.file.path
    pure (record e { installed = true })
  install_staged e Operation.delete staged = pure e

  abbrev pub or_empty : Option String → String
  or_empty none = ""
  or_empty (some path) = path

  abbrev pub install_entry : PatchEntry → Action PatchEntry
  install_entry e = install_staged e e.file.operation (or_empty e.staged_path)

  -- A loop over the entries.
  abbrev pub each_found :
      (Disk → Progress) → List PatchEntry → PatchEntry → Disk → Result PatchEntry → Progress
  each_found rest es e d (ok e') = next_entry e' (rest d)
  each_found rest es e d (err cause) = (d, e ∷ es, some cause)

  unfoldable pub each : (PatchEntry → Action PatchEntry) → List PatchEntry → Disk → Progress
  each step [] d = (d, [], none)
  each step (e ∷ es) d = each_found (each step es) es e ((step e d).0) ((step e d).1)

  -- What `rollbackPatch` does for one entry, and whether that fails.
  abbrev pub fails : {A : Type 0} → Result A → Bool
  fails (ok a) = false
  fails (err e) = true

  abbrev pub check : Action (Unit {0}) → Disk → Disk × Bool
  check m d = ((m d).0, fails (m d).1)

  abbrev pub undo_install : PatchEntry → Disk → Disk × Bool
  undo_install e d = if e.installed then check (remove_if_exists e.file.path) d else (d, false)

  abbrev pub undo_move : PatchEntry → Disk → Disk × Bool
  undo_move e d =
      if e.original_moved then check (rename (or_empty e.backup_path) e.file.path) d else (d, false)

  abbrev pub either : Bool → Disk × Bool → Disk × Bool
  either failed (d, bad) = (d, failed || bad)

  unfoldable pub undo_entry : PatchEntry → Disk → Disk × Bool
  undo_entry e d = let (d', failed) = undo_install e d in either failed (undo_move e d')

  -- From the last entry to the first.
  unfoldable pub undo_all : List PatchEntry → Disk → Disk × Bool
  undo_all [] d = (d, false)
  undo_all (e ∷ es) d = let (d', failed) = undo_all es d in either failed (undo_entry e d')

  unfoldable pub remove_staged : List PatchEntry → Action (Unit {0})
  remove_staged [] = pure tt
  remove_staged (e ∷ es) = do ignore (remove_named e.staged_path); remove_staged es

  abbrev pub rolled_back : EditError → Bool → PatchOutcome
  rolled_back cause true = PatchOutcome.rollback_failed cause
  rolled_back cause false = PatchOutcome.refused cause

  -- `rollbackPatch`
  unfoldable pub rollback_patch : List PatchEntry → EditError → Disk → Disk × PatchOutcome
  rollback_patch es cause d =
      let (d', failed) = undo_all es d in ((remove_staged es d').0, rolled_back cause failed)

  -- The removal of the temporary files after all changes, and whether that fails.
  unfoldable pub finish : List PatchEntry → Disk → Disk × Bool
  finish [] d = (d, false)
  finish (e ∷ es) d =
      let (d', failed) = check (remove_named e.staged_path) d in
      let (d'', failed') = either failed (check (remove_named e.backup_path) d') in
      either failed' (finish es d'')

  abbrev pub finished : Bool → PatchOutcome
  finished true = PatchOutcome.leftovers
  finished false = PatchOutcome.applied

  abbrev pub after_install : Progress → Disk × PatchOutcome
  after_install (d, es, some cause) = rollback_patch es cause d
  after_install (d, es, none) = let (d', failed) = finish es d in (d', finished failed)

  abbrev pub after_move : Progress → Disk × PatchOutcome
  after_move (d, es, some cause) = rollback_patch es cause d
  after_move (d, es, none) = after_install (each install_entry es d)

  abbrev pub after_validate : List PatchEntry → Disk → Result (Unit {0}) → Disk × PatchOutcome
  after_validate es d (err cause) = ((clean_up es d).0, PatchOutcome.refused cause)
  after_validate es d (ok valid) = after_move (each move_entry es d)

  abbrev pub after_stage : List FilePatch → Progress → Disk × PatchOutcome
  after_stage files (d, es, some cause) = ((clean_up es d).0, PatchOutcome.refused cause)
  after_stage files (d, es, none) =
      after_validate es (validate_patch_state host files d).0 (validate_patch_state host files d).1

  -- `applyPatchProposal`, from an open root on
  unfoldable pub apply_patch_proposal : List FilePatch → Disk → Disk × PatchOutcome
  apply_patch_proposal files d = after_stage files (each stage_entry (map new_entry files) d)
