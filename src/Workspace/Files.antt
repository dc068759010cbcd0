-- ===== src/Workspace/Files.antt =====
-- The files of a patch, and the check that they are still as the patch was made from them:
-- `temporarySiblingPath`, `readOptionalEditSnapshot` and `validatePatchState` of
-- internal/workspacetools/edit.go. `Host` is what the code calls of the system: the hash, the
-- random name of a temporary file, told by its path and extension, and the process's umask.
use Prim.Native.Char.{code}
use Prim.Native.String.{◌++◌ as text_append}
use materialmind.Common.{
  ℕ, ◌%◌, String, Bool, true, false, ◌||◌, not, Option, none, some, List, [], ◌∷◌, if◌then◌else◌,
  ltb, ◌==◌, str_eq, length,
}
use materialmind.Workspace.Text.{valid_edit_text}
use materialmind.Workspace.Disk.{
  Node, EditError, Result, ok, err, Action, ◌>>=◌, ◌>>◌, pure, raise, attempt, find,
}

pub data Operation : Type 0 where
  create update delete : Operation

pub record Snapshot : Type 0 where
  pub exists : Bool
  pub content : List ℕ
  pub mode : ℕ
  pub hash : String

-- `filePatchProposal`
pub record FilePatch : Type 0 where
  pub operation : Operation
  pub path : String
  pub display_path : String
  pub before : Snapshot
  pub after : List ℕ
  pub diff : String
  pub after_hash : String
  pub edit_count : ℕ

pub record Host : Type 0 where
  pub sha256_hex : List ℕ → String
  pub uuid : String → String → String
  pub masked : ℕ → ℕ

abbrev pub max_edit_file_bytes : ℕ
max_edit_file_bytes = 262144

-- `FileMode.Perm`
abbrev pub permissions : ℕ → ℕ
permissions mode = mode % 512

abbrev pub is_delete : Operation → Bool
is_delete Operation.create = false
is_delete Operation.update = false
is_delete Operation.delete = true

-- What stands up to the last slash of a path, and what follows it.
abbrev pub has_slash : String → Bool
has_slash String.[] = false
has_slash (String.◌∷◌ c s) = code c == 0x2f || has_slash s

abbrev pub directory_part : String → String
directory_part String.[] = String.[]
directory_part (String.◌∷◌ c s) =
    let rest = directory_part s in
    if code c == 0x2f || has_slash s then String.◌∷◌ c rest else String.[]

abbrev pub base_part : String → String
base_part String.[] = String.[]
base_part (String.◌∷◌ c s) =
    let rest = base_part s in if code c == 0x2f || has_slash s then rest else String.◌∷◌ c s

abbrev pub no_snapshot : Snapshot
no_snapshot = record { exists = false; content = []; mode = 0; hash = "" }

-- An error of `m` becomes another one.
abbrev pub replace_error : {A : Type 0} → EditError → Result A → Result A
replace_error e (ok a) = ok a
replace_error e (err old) = err e

module _ (host : Host) where
  -- `temporarySiblingPath`, of a clean path
  unfoldable pub temporary_sibling_path : String → String → String
  temporary_sibling_path path extension = text_append (directory_part path) (
      text_append "." (
        text_append (base_part path) (
          text_append ".materialmind-"
            (text_append (host.uuid path extension) (text_append "." extension)))))

  abbrev pub staging_name : FilePatch → String
  staging_name file = temporary_sibling_path file.path "tmp"

  abbrev pub backup_name : FilePatch → String
  backup_name file = temporary_sibling_path file.path "bak"

  -- The end of `readOptionalEditSnapshot`, on what `Lstat` finds.
  abbrev pub read_content : List ℕ → ℕ → Action Snapshot
  read_content content mode =
      if ltb max_edit_file_bytes (length content) || not (valid_edit_text content)
      then raise EditError.unreadable
      else pure
          (record { exists = true; content = content; mode = mode; hash = host.sha256_hex content })

  abbrev pub read_found : Option Node → Action Snapshot
  read_found none = pure no_snapshot
  read_found (some Node.symlink) = raise EditError.unreadable
  read_found (some Node.other) = do attempt; attempt; raise EditError.unreadable
  read_found (some (Node.regular content mode)) = do
    attempt
    attempt
    attempt
    read_content content mode

  -- `readOptionalEditSnapshot`: `Lstat`, `Open`, `Stat` and `ReadAll` may each fail.
  unfoldable pub read_optional_edit_snapshot : String → Action Snapshot
  read_optional_edit_snapshot path = do attempt; node ← find path; read_found node

  abbrev pub check_unchanged : FilePatch → Snapshot → Action (Unit {0})
  check_unchanged file current =
      if not current.exists
        || not (str_eq current.hash file.before.hash)
        || not (permissions current.mode == permissions file.before.mode)
      then raise EditError.conflict
      else pure tt

  abbrev pub check_state : Operation → FilePatch → Snapshot → Action (Unit {0})
  check_state Operation.create file current =
      if current.exists then raise EditError.conflict else pure tt
  check_state Operation.update file current = check_unchanged file current
  check_state Operation.delete file current = check_unchanged file current

  -- An error of the reading is a conflict.
  abbrev pub or_conflict : {A : Type 0} → Action A → Action A
  or_conflict m d = ((m d).0, replace_error EditError.conflict (m d).1)

  -- `validateFileState`
  unfoldable pub validate_file_state : FilePatch → Action (Unit {0})
  validate_file_state file = do
    current ← or_conflict (read_optional_edit_snapshot file.path)
    check_state file.operation file current

  -- `validatePatchState`
  unfoldable pub validate_patch_state : List FilePatch → Action (Unit {0})
  validate_patch_state [] = pure tt
  validate_patch_state (file ∷ files) = do validate_file_state file; validate_patch_state files
