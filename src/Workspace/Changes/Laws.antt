-- ===== src/Workspace/Changes/Laws.antt =====
-- What the normalization of changes guarantees.
use mathlib.Core.Path.{subst}
use materialmind.Common.{
  ℕ, ◌+◌, ◌≤◌, ◌≡◌, refl, ap, Bool, true, false, ◌||◌, ◌&&◌, str_eq, suc, not, Option, none, some,
  List, [], ◌∷◌, ltb, length, arith, All,
}
use materialmind.Common.Text.{trim_space}
use materialmind.Workspace.Text.{valid_edit_text}
use materialmind.Workspace.Paths.{CleanPath, clean}
use materialmind.Workspace.Edits.{TextReplacement}
use materialmind.Workspace.Files.{Operation, max_edit_file_bytes}
use materialmind.Workspace.Changes.{
  FileChange, EditFileArgs, NormalChange, ChangeError, Normal, then_normal, refuse_if,
  max_patch_payload_bytes, max_file_edits, max_patch_files, is_empty, path_bytes, is_seen,
  edits_bytes, check_edits, content_bytes, or_error, error_if, check_content, checked, is_dot,
  known, operation_of, normalize_change, normalize_at, switch_change, check_change, count_change,
  add_change, normalize_loop, asked_changes, normalize_file_changes,
}

-- A replacement of text by text.
abbrev pub GoodEdit : TextReplacement → Type 0
GoodEdit edit =
    (1 ≤ length edit.old_text)
    × (valid_edit_text edit.old_text ≡ true)
    × (valid_edit_text edit.new_text ≡ true)

-- What the content and the replacements of an operation may be.
abbrev pub Fits : Operation → List ℕ → List TextReplacement → Type 0
Fits Operation.create content edits =
    (edits ≡ []) × (valid_edit_text content ≡ true) × (length content ≤ max_edit_file_bytes)
Fits Operation.update content edits =
    (content ≡ []) × (1 ≤ length edits) × (length edits ≤ max_file_edits) × All GoodEdit edits
Fits Operation.delete content edits = (content ≡ []) × (edits ≡ [])

abbrev pub change_bytes : NormalChange → ℕ
change_bytes c = path_bytes c.path + length c.content + edits_bytes c.edits

abbrev pub total_bytes : List NormalChange → ℕ
total_bytes [] = 0
total_bytes (c ∷ changes) = change_bytes c + total_bytes changes

-- No path is that of the root itself, `.`, and each is new.
abbrev pub AllNew : List CleanPath → List NormalChange → Type 0
AllNew seen [] = Unit
AllNew seen (c ∷ changes) =
    (is_dot c.path ≡ false) × (is_seen c.path seen ≡ false) × AllNew (c.path ∷ seen) changes

pub record Accepted (changes : List NormalChange) : Type 0 where
  pub some_change : 1 ≤ length changes
  pub few : length changes ≤ max_patch_files
  pub fitting : All (λ c. Fits c.operation c.content c.edits) changes
  pub new_paths : AllNew [] changes
  pub small : total_bytes changes ≤ max_patch_payload_bytes

refuse_if-normal {ℓ} :
    {A : Type ℓ} (bad : Bool) (e : ChangeError) (rest : Normal A) (a : A)
    → refuse_if bad e rest ≡ Normal.normal a
    → (bad ≡ false) × (rest ≡ Normal.normal a)
refuse_if-normal true e rest a h = absurd (ground arith)
refuse_if-normal false e rest a h = (refl, h)

then_normal-normal {ℓ κ} :
    {A : Type ℓ} {B : Type κ} (m : Normal A) (f : A → Normal B) (b : B)
    → then_normal m f ≡ Normal.normal b
    → (a : A) × (m ≡ Normal.normal a) × (f a ≡ Normal.normal b)
then_normal-normal (Normal.normal a) f b h = (a, refl, h)
then_normal-normal (Normal.change_refused e) f b h = absurd (ground arith)

or_error-none :
    (first later : Option ChangeError)
    → or_error first later ≡ none
    → (first ≡ none) × (later ≡ none)
or_error-none none later h = (refl, h)
or_error-none (some e) later h = absurd (ground arith)

error_if-none : (bad : Bool) (e : ChangeError) → error_if bad e ≡ none → bad ≡ false
error_if-none true e h = absurd (ground arith)
error_if-none false e h = refl

is_empty-nil {ℓ} : {A : Type ℓ} (xs : List A) → not (is_empty xs) ≡ false → xs ≡ []
is_empty-nil [] h = refl
is_empty-nil (x ∷ xs) h = absurd (ground arith)

is_empty-length {ℓ} : {A : Type ℓ} (xs : List A) → is_empty xs ≡ false → 1 ≤ length xs
is_empty-length [] h = absurd (ground arith)
is_empty-length (x ∷ xs) h = omega arith

check_edits-GoodEdit :
    (edits : List TextReplacement) → check_edits edits ≡ none → All GoodEdit edits
check_edits-GoodEdit [] h = tt
check_edits-GoodEdit (edit ∷ edits) h = (
  (is_empty-length edit.old_text (ground arith), ground arith, ground arith),
  check_edits-GoodEdit edits (ground arith),
)

check_content-Fits :
    (operation : Operation) (change : FileChange)
    → check_content operation change ≡ none
    → Fits operation change.content change.edits
check_content-Fits Operation.create change h =
    let (no_edits, rest) =
      or_error-none (error_if (not (is_empty change.edits)) ChangeError.create_with_edits)
        (or_error (error_if (not (valid_edit_text change.content)) ChangeError.not_text)
          (error_if (ltb max_edit_file_bytes (length change.content)) ChangeError.file_too_large))
        h in
    (
      is_empty-nil change.edits
          (error_if-none (not (is_empty change.edits)) ChangeError.create_with_edits no_edits),
      ground arith,
      ground arith,
    )
check_content-Fits Operation.update change h = (
  is_empty-nil change.content (ground arith),
  is_empty-length change.edits (ground arith),
  ground arith,
  check_edits-GoodEdit change.edits (ground arith),
)
check_content-Fits Operation.delete change h =
    (is_empty-nil change.content (ground arith), is_empty-nil change.edits (ground arith))

content_bytes-Fits :
    (operation : Operation) (change : FileChange)
    → Fits operation change.content change.edits
    → content_bytes operation change ≡ length change.content + edits_bytes change.edits
content_bytes-Fits Operation.create change (no_edits, text, fits) = rw no_edits (omega arith)
content_bytes-Fits Operation.update change (no_content, several, few, good) =
    rw no_content (omega arith)
content_bytes-Fits Operation.delete change (no_content, no_edits) = rw (no_content, no_edits) refl

-- One round: the change fits, its path is new, and it is counted.
abbrev pub Round : List CleanPath → ℕ → NormalChange × ℕ → Type 0
Round seen payload (c, total) =
    Fits c.operation c.content c.edits
    × (is_dot c.path ≡ false)
    × (is_seen c.path seen ≡ false)
    × (total ≡ payload + change_bytes c)
    × (total ≤ max_patch_payload_bytes)

normal_inj {ℓ} : {A : Type ℓ} (a b : A) → Normal.normal a ≡ Normal.normal b → a ≡ b
normal_inj a b h = ground arith

checked-none : (e : Option ChangeError) (u : Unit {0}) → checked e ≡ Normal.normal u → e ≡ none
checked-none none u h = refl
checked-none (some e) u h = absurd (ground arith)

count_change-Round :
    (change : FileChange) (path : CleanPath) (operation : Operation) (seen : List CleanPath)
    (payload : ℕ) (r : NormalChange × ℕ)
    → Fits operation change.content change.edits
    → is_dot path ≡ false
    → is_seen path seen ≡ false
    → count_change change path operation
        (payload + path_bytes path + content_bytes operation change)
      ≡ Normal.normal r
    → Round seen payload r
count_change-Round change path operation seen payload r fits named new h =
    let total = payload + path_bytes path + content_bytes operation change in
    let made : NormalChange = record {
      operation = operation;
      path = path;
      content = change.content;
      edits = change.edits;
    } in
    let (small, is_r) =
      refuse_if-normal (ltb max_patch_payload_bytes total) ChangeError.payload_too_large
        (Normal.normal (made, total)) r h in
    subst (Round seen payload) (normal_inj (made, total) r is_r)
      (fits, named, new, omega (arith, content_bytes-Fits operation change fits), ground arith)

normalize_at-Round :
    (change : FileChange) (path : CleanPath) (seen : List CleanPath) (payload : ℕ)
    (r : NormalChange × ℕ)
    → normalize_at change path seen payload ≡ Normal.normal r
    → Round seen payload r
normalize_at-Round change path seen payload r h =
    let (named, h1) =
      refuse_if-normal (is_dot path) ChangeError.no_path
        (refuse_if (is_seen path seen) ChangeError.repeated_path
          (switch_change change path payload))
        r h in
    let (new, h2) =
      refuse_if-normal (is_seen path seen) ChangeError.repeated_path
        (switch_change change path payload) r h1 in
    let (operation, is_known, h3) =
      then_normal-normal (known (operation_of (trim_space change.operation)))
        (check_change change path payload) r h2 in
    let (fine, is_fine, h4) =
      then_normal-normal (checked (check_content operation change))
        (λ fine.
          count_change change path operation
            (payload + path_bytes path + content_bytes operation change))
        r h3 in
    count_change-Round change path operation seen payload r
      (check_content-Fits operation change
        (checked-none (check_content operation change) fine is_fine))
      named new h4

-- The loop over the changes.
abbrev Looped : List FileChange → List CleanPath → ℕ → List NormalChange → Type 0
Looped changes seen payload rest =
    (length rest ≡ length changes)
    × All (λ c. Fits c.operation c.content c.edits) rest
    × AllNew seen rest
    × (payload + total_bytes rest ≤ max_patch_payload_bytes)

normalize_loop-Looped :
    (changes : List FileChange) (seen : List CleanPath) (payload : ℕ) (rest : List NormalChange)
    → payload ≤ max_patch_payload_bytes
    → normalize_loop changes seen payload ≡ Normal.normal rest
    → Looped changes seen payload rest
unfolding normalize_loop normalize_change
normalize_loop-Looped [] seen payload rest small h =
    subst (Looped [] seen payload) (normal_inj [] rest h) (refl, tt, tt, omega arith)
normalize_loop-Looped (change ∷ changes) seen payload rest small h =
    let (first, round, h1) =
      then_normal-normal (normalize_change change seen payload)
        (λ first. add_change first.0 (normalize_loop changes (first.0.path ∷ seen) first.1)) rest
        h in
    let (fits, named, new, is_total, below) =
      normalize_at-Round change (clean (trim_space change.path)) seen payload first round in
    let (later, others, h2) =
      then_normal-normal (normalize_loop changes (first.0.path ∷ seen) first.1)
        (λ later. Normal.normal (first.0 ∷ later)) rest h1 in
    let (count, fitting, new_paths, total) =
      normalize_loop-Looped changes (first.0.path ∷ seen) first.1 later below others in
    subst (Looped (change ∷ changes) seen payload) (normal_inj (first.0 ∷ later) rest h2)
      (ap suc count, (fits, fitting), (named, new, new_paths), omega (arith, is_total, total))

asked_changes-length :
    (args : EditFileArgs) (changes : List FileChange) → 1 ≤ length (asked_changes args changes)
asked_changes-length args [] = omega arith
asked_changes-length args (change ∷ changes) = omega arith

-- Changes that are normalized are at least one and at most 32; each has what its operation needs
-- and nothing else, within the limits; no path is `.`, and the paths differ; and all paths,
-- contents and texts are together within the limit of the payload.
pub normalize_file_changes-Accepted :
    (args : EditFileArgs) (changes : List NormalChange)
    → normalize_file_changes args ≡ Normal.normal changes
    → Accepted changes
unfolding normalize_file_changes
normalize_file_changes-Accepted args changes h =
    let asked = asked_changes args args.changes in
    let (one_form, h1) =
      refuse_if-normal
        (not (is_empty args.changes)
          && (not (str_eq (trim_space args.path) "") || not (is_empty args.edits)))
        ChangeError.both_forms
        (refuse_if (ltb max_patch_files (length asked)) ChangeError.too_many_files
          (normalize_loop asked [] 0))
        changes h in
    let (few, h2) =
      refuse_if-normal (ltb max_patch_files (length asked)) ChangeError.too_many_files
        (normalize_loop asked [] 0) changes h1 in
    let (count, fitting, new_paths, total) =
      normalize_loop-Looped asked [] 0 changes (omega arith) h2 in
    let few' : length asked ≤ max_patch_files = ground arith in
    record {
      some_change = omega (arith, count, asked_changes-length args args.changes);
      few = omega (arith, count, few');
      fitting = fitting;
      new_paths = new_paths;
      small = omega (arith, total);
    }
