-- ===== src/Workspace/Changes.antt =====
-- The changes that a tool call asks for: `normalizeFileChanges` of
-- internal/workspacetools/edit.go. Contents and replacements are bytes, paths are texts.
pub mod Laws
use Prim.Native.Char.{Char, code}
use materialmind.Common.{
  ℕ, suc, ◌+◌, ◌-◌, String, Bool, true, false, ◌&&◌, ◌||◌, not, Option, none, some, List, [], ◌∷◌,
  if◌then◌else◌, ltb, leb, ◌==◌, str_eq, length,
}
use materialmind.Common.Text.{trim_space}
use materialmind.Workspace.Text.{valid_edit_text}
use materialmind.Workspace.Paths.{CleanPath, clean}
use materialmind.Workspace.Edits.{TextReplacement, bytes_equal}
use materialmind.Workspace.Files.{Operation, max_edit_file_bytes}

pub record FileChange : Type 0 where
  pub operation : String
  pub path : String
  pub content : List ℕ
  pub edits : List TextReplacement

pub record EditFileArgs : Type 0 where
  pub path : String
  pub edits : List TextReplacement
  pub changes : List FileChange

-- A change after its normalization.
pub record NormalChange : Type 0 where
  pub operation : Operation
  pub path : CleanPath
  pub content : List ℕ
  pub edits : List TextReplacement

pub data ChangeError : Type 0 where
  both_forms too_many_files no_path repeated_path create_with_edits not_text file_too_large :
      ChangeError
  update_with_content no_edits too_many_edits empty_old_text delete_with_content : ChangeError
  unknown_operation payload_too_large : ChangeError

pub data Normal {ℓ} (A : Type ℓ) : Type ℓ where
  normal : A → Normal A
  change_refused : ChangeError → Normal A

abbrev pub then_normal {ℓ κ} : {A : Type ℓ} {B : Type κ} → Normal A → (A → Normal B) → Normal B
then_normal (Normal.normal a) f = f a
then_normal (Normal.change_refused e) f = Normal.change_refused e

-- The error if the test holds.
abbrev pub refuse_if {ℓ} : {A : Type ℓ} → Bool → ChangeError → Normal A → Normal A
refuse_if bad e rest = if bad then Normal.change_refused e else rest

abbrev pub max_patch_payload_bytes : ℕ
max_patch_payload_bytes = 1048576

abbrev pub max_file_edits : ℕ
max_file_edits = 32

abbrev pub max_patch_files : ℕ
max_patch_files = 32

abbrev pub is_empty {ℓ} : {A : Type ℓ} → List A → Bool
is_empty [] = true
is_empty (a ∷ rest) = false

-- The operation of a text: only the letters of ASCII matter to the three words.
abbrev pub lower_code : Char → ℕ
lower_code c = let n = code c in if leb 65 n && leb n 90 then n + 32 else n

abbrev pub lower_codes : String → List ℕ
lower_codes String.[] = []
lower_codes (String.◌∷◌ c text) = lower_code c ∷ lower_codes text

abbrev pub operation_of : String → Option Operation
operation_of text =
    let word = lower_codes text in
    if bytes_equal word (lower_codes "create")
    then some Operation.create
    else (if bytes_equal word (lower_codes "update")
        then some Operation.update
        else (if bytes_equal word (lower_codes "delete") then some Operation.delete else none))

-- `len` of a text, in UTF-8
abbrev pub rune_bytes : Char → ℕ
rune_bytes c =
    let n = code c in
    if ltb n 0x80 then 1 else (if ltb n 0x800 then 2 else (if ltb n 0x10000 then 3 else 4))

abbrev pub text_bytes : String → ℕ
text_bytes String.[] = 0
text_bytes (String.◌∷◌ c text) = rune_bytes c + text_bytes text

abbrev pub parts_bytes : List String → ℕ
parts_bytes [] = 0
parts_bytes (part ∷ parts) = text_bytes part + parts_bytes parts

-- `len` of a clean path other than `.`, with its slashes
abbrev pub path_bytes : CleanPath → ℕ
path_bytes path =
    (if path.absolute then 1 else 0) + parts_bytes path.parts + (length path.parts - 1)

abbrev pub same_parts : List String → List String → Bool
same_parts [] [] = true
same_parts [] (part ∷ parts) = false
same_parts (part ∷ parts) [] = false
same_parts (a ∷ above) (b ∷ below) = str_eq a b && same_parts above below

abbrev pub same_path : CleanPath → CleanPath → Bool
same_path a b = (if a.absolute then b.absolute else not b.absolute) && same_parts a.parts b.parts

-- Whether a path was seen.
abbrev pub is_seen : CleanPath → List CleanPath → Bool
is_seen path [] = false
is_seen path (seen ∷ others) = same_path path seen || is_seen path others

abbrev pub edits_bytes : List TextReplacement → ℕ
edits_bytes [] = 0
edits_bytes (edit ∷ edits) = length edit.old_text + length edit.new_text + edits_bytes edits

-- The loop over the replacements of an update.
abbrev pub check_edits : List TextReplacement → Option ChangeError
check_edits [] = none
check_edits (edit ∷ edits) =
    let rest = check_edits edits in
    if is_empty edit.old_text
    then some ChangeError.empty_old_text
    else (if not (valid_edit_text edit.old_text) || not (valid_edit_text edit.new_text)
        then some ChangeError.not_text
        else rest)

-- What a change adds to the payload, besides its path.
abbrev pub content_bytes : Operation → FileChange → ℕ
content_bytes Operation.create change = length change.content
content_bytes Operation.update change = edits_bytes change.edits
content_bytes Operation.delete change = 0

abbrev pub or_error : Option ChangeError → Option ChangeError → Option ChangeError
or_error none later = later
or_error (some e) later = some e

abbrev pub error_if : Bool → ChangeError → Option ChangeError
error_if bad e = if bad then some e else none

-- The switch over the operation.
abbrev pub check_content : Operation → FileChange → Option ChangeError
check_content Operation.create change =
    or_error (error_if (not (is_empty change.edits)) ChangeError.create_with_edits) (
      or_error (error_if (not (valid_edit_text change.content)) ChangeError.not_text)
        (error_if (ltb max_edit_file_bytes (length change.content)) ChangeError.file_too_large))
check_content Operation.update change =
    or_error (error_if (not (is_empty change.content)) ChangeError.update_with_content) (
      or_error (error_if (is_empty change.edits) ChangeError.no_edits) (
        or_error (error_if (ltb max_file_edits (length change.edits)) ChangeError.too_many_edits)
          (check_edits change.edits)))
check_content Operation.delete change =
    error_if (not (is_empty change.content) || not (is_empty change.edits))
      ChangeError.delete_with_content

abbrev pub checked : Option ChangeError → Normal (Unit {0})
checked none = Normal.normal tt
checked (some e) = Normal.change_refused e

abbrev pub is_dot : CleanPath → Bool
is_dot path = not path.absolute && is_empty path.parts

abbrev pub known : Option Operation → Normal Operation
known none = Normal.change_refused ChangeError.unknown_operation
known (some operation) = Normal.normal operation

-- The end of a round: the payload with the change.
abbrev pub count_change : FileChange → CleanPath → Operation → ℕ → Normal (NormalChange × ℕ)
count_change change path operation total =
    refuse_if (ltb max_patch_payload_bytes total) ChangeError.payload_too_large (
      Normal.normal (
        record {
          operation = operation;
          path = path;
          content = change.content;
          edits = change.edits;
        },
        total,
      ))

abbrev pub check_change : FileChange → CleanPath → ℕ → Operation → Normal (NormalChange × ℕ)
check_change change path payload operation =
    then_normal (checked (check_content operation change)) λ fine.
      count_change change path operation
        (payload + path_bytes path + content_bytes operation change)

abbrev pub switch_change : FileChange → CleanPath → ℕ → Normal (NormalChange × ℕ)
switch_change change path payload =
    then_normal (known (operation_of (trim_space change.operation)))
      (check_change change path payload)

abbrev pub normalize_at : FileChange → CleanPath → List CleanPath → ℕ → Normal (NormalChange × ℕ)
normalize_at change path seen payload =
    refuse_if (is_dot path) ChangeError.no_path
      (refuse_if (is_seen path seen) ChangeError.repeated_path (switch_change change path payload))

-- One round of the loop: the normalized change, and the payload with it.
unfoldable pub normalize_change : FileChange → List CleanPath → ℕ → Normal (NormalChange × ℕ)
normalize_change change seen payload =
    normalize_at change (clean (trim_space change.path)) seen payload

abbrev pub add_change : NormalChange → Normal (List NormalChange) → Normal (List NormalChange)
add_change change rest = then_normal rest λ changes. Normal.normal (change ∷ changes)

unfoldable pub normalize_loop : List FileChange → List CleanPath → ℕ → Normal (List NormalChange)
normalize_loop [] seen payload = Normal.normal []
normalize_loop (change ∷ changes) seen payload =
    then_normal (normalize_change change seen payload)
      λ first. add_change first.0 (normalize_loop changes (first.0.path ∷ seen) first.1)

abbrev pub legacy_change : EditFileArgs → FileChange
legacy_change args = record {
  operation = "update";
  path = args.path;
  content = [];
  edits = args.edits;
}

abbrev pub asked_changes : EditFileArgs → List FileChange → List FileChange
asked_changes args [] = legacy_change args ∷ []
asked_changes args (change ∷ changes) = change ∷ changes

-- `normalizeFileChanges`
unfoldable pub normalize_file_changes : EditFileArgs → Normal (List NormalChange)
normalize_file_changes args =
    refuse_if
      (not (is_empty args.changes)
        && (not (str_eq (trim_space args.path) "") || not (is_empty args.edits)))
      ChangeError.both_forms
      (refuse_if (ltb max_patch_files (length (asked_changes args args.changes)))
        ChangeError.too_many_files (normalize_loop (asked_changes args args.changes) [] 0))
