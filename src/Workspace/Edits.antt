-- ===== src/Workspace/Edits.antt =====
-- The text replacements of an edit, over the bytes of a file: `applyTextReplacements` of
-- internal/workspacetools/edit.go.
pub mod Matches
pub mod Laws
use materialmind.Common.{
  ℕ, zero, suc, ◌+◌, ◌-◌, Bool, true, false, ◌&&◌, not, List, [], ◌∷◌, ◌++◌, if◌then◌else◌, ltb,
  ◌==◌, length, drop,
}
use materialmind.Workspace.Text.{is_continuation}
use materialmind.Workspace.Files.{max_edit_file_bytes}

pub record TextReplacement : Type 0 where
  pub old_text : List ℕ
  pub new_text : List ℕ

-- `strings.HasPrefix`
abbrev pub begins_with : List ℕ → List ℕ → Bool
begins_with [] text = true
begins_with (b ∷ old) [] = false
begins_with (b ∷ old) (c ∷ text) = b == c && begins_with old text

-- `strings.Count` of a text that is not empty: after a match it goes on behind it, `skip` bytes
-- further.
abbrev pub count_from : ℕ → List ℕ → List ℕ → ℕ
count_from skip old [] = 0
count_from (suc skip) old (b ∷ text) = count_from skip old text
count_from zero old (b ∷ text) =
    let found = begins_with old (b ∷ text) in
    (if found then 1 else 0) + count_from (if found then length old - 1 else 0) old text

-- The empty text occurs before each character, and at the end.
abbrev pub rune_count : List ℕ → ℕ
rune_count [] = 0
rune_count (b ∷ text) = (if is_continuation b then 0 else 1) + rune_count text

unfoldable pub count : List ℕ → List ℕ → ℕ
count [] text = suc (rune_count text)
count (b ∷ old) text = count_from 0 (b ∷ old) text

-- `strings.Replace` of one match.
unfoldable pub replace_first : List ℕ → List ℕ → List ℕ → List ℕ
replace_first old new [] = if begins_with old [] then new else []
replace_first old new (b ∷ text) =
    let rest = replace_first old new text in
    if begins_with old (b ∷ text) then new ++ drop (length old) (b ∷ text) else b ∷ rest

-- `bytes.Equal`
abbrev pub bytes_equal : List ℕ → List ℕ → Bool
bytes_equal [] [] = true
bytes_equal [] (c ∷ cs) = false
bytes_equal (b ∷ bs) [] = false
bytes_equal (b ∷ bs) (c ∷ cs) = b == c && bytes_equal bs cs

pub data ReplaceError : Type 0 where
  not_found : ReplaceError
  not_unique : ℕ → ReplaceError
  too_large no_change : ReplaceError

pub data Edited : Type 0 where
  edited : List ℕ → Edited
  edit_refused : ReplaceError → Edited

-- One replacement, by how often its text occurs.
abbrev pub replace_counted : ℕ → TextReplacement → List ℕ → Edited
replace_counted zero edit text = Edited.edit_refused ReplaceError.not_found
replace_counted (suc zero) edit text =
    let updated = replace_first edit.old_text edit.new_text text in
    if ltb max_edit_file_bytes (length updated)
    then Edited.edit_refused ReplaceError.too_large
    else Edited.edited updated
replace_counted (suc (suc n)) edit text =
    Edited.edit_refused (ReplaceError.not_unique (suc (suc n)))

abbrev pub then_edit : (List ℕ → Edited) → Edited → Edited
then_edit next (Edited.edited text) = next text
then_edit next (Edited.edit_refused e) = Edited.edit_refused e

-- The loop over the replacements.
unfoldable pub replace_all : List TextReplacement → List ℕ → Edited
replace_all [] text = Edited.edited text
replace_all (edit ∷ edits) text =
    then_edit (replace_all edits) (replace_counted (count edit.old_text text) edit text)

abbrev pub unless_same : List ℕ → List ℕ → Edited
unless_same content after =
    if bytes_equal content after
    then Edited.edit_refused ReplaceError.no_change
    else Edited.edited after

-- `applyTextReplacements`
unfoldable pub apply_text_replacements : List ℕ → List TextReplacement → Edited
apply_text_replacements content edits = then_edit (unless_same content) (replace_all edits content)
