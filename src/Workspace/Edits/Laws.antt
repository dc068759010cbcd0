-- ===== src/Workspace/Edits/Laws.antt =====
-- An edit of a file, and what it means in terms of the places of its texts.
use mathlib.Core.Path.{subst}
use materialmind.Common.{
  ℕ, zero, suc, ◌≤◌, ◌≡◌, ◌≢◌, ◌↔◌, ◌∙◌, inl, inr, refl, sym, ap, List, [], ◌∷◌, ◌++◌, length,
  arith, All, Bool-cases,
}
use materialmind.Workspace.Files.{max_edit_file_bytes}
use materialmind.Workspace.Edits.{
  TextReplacement, Edited, count, count_from, replace_first, replace_counted, then_edit,
  replace_all, unless_same, bytes_equal, apply_text_replacements,
}
use materialmind.Workspace.Edits.Matches.{
  Occurs, FirstIn, count_from-FirstIn, FirstIn-count_from, count_from-absent, positive,
  bytes_equal_iff, bytes_equal_refl,
}

-- A replacement at the first place of its text, which occurs no more behind it.
pub record Replaces (edit : TextReplacement) (text updated : List ℕ) : Type 0 where
  pub pre : List ℕ
  pub post : List ℕ
  pub place : FirstIn edit.old_text text pre post
  pub unique : Occurs edit.old_text post → ⊥
  pub replaced : updated ≡ pre ++ (edit.new_text ++ post)
  pub small : length updated ≤ max_edit_file_bytes

-- Replacements, one after another.
pub data ReplacesAll : List TextReplacement → List ℕ → List ℕ → Type 0 where
  none_left : {text : List ℕ} → ReplacesAll [] text text
  next_edit :
      {edit : TextReplacement} {edits : List TextReplacement} {text updated after : List ℕ}
      → Replaces edit text updated
      → ReplacesAll edits updated after
      → ReplacesAll (edit ∷ edits) text after

abbrev pub HasText : TextReplacement → Type 0
HasText edit = 1 ≤ length edit.old_text

count-from : (old text : List ℕ) → 1 ≤ length old → count old text ≡ count_from 0 old text
unfolding count
count-from [] text h = absurd (omega arith)
count-from (b ∷ old) text h = refl

replace_counted-one :
    (n : ℕ) (edit : TextReplacement) (text after : List ℕ)
    → replace_counted n edit text ≡ Edited.edited after
    → (n ≡ 1)
      × (after ≡ replace_first edit.old_text edit.new_text text)
      × (length after ≤ max_edit_file_bytes)
replace_counted-one zero edit text after h = absurd (ground arith)
replace_counted-one (suc zero) edit text after h = (refl, ground arith, ground arith)
replace_counted-one (suc (suc n)) edit text after h = absurd (ground arith)

then_edit-edited :
    (next : List ℕ → Edited) (r : Edited) (after : List ℕ)
    → then_edit next r ≡ Edited.edited after
    → (text : List ℕ) × (r ≡ Edited.edited text) × (next text ≡ Edited.edited after)
then_edit-edited next (Edited.edited text) after h = (text, refl, h)
then_edit-edited next (Edited.edit_refused e) after h = absurd (ground arith)

absent-count_from :
    (old text : List ℕ) → 1 ≤ length old → (Occurs old text → ⊥) → count_from 0 old text ≡ 0
absent-count_from old text nonempty absent = elim (positive (count_from 0 old text)) [
  | inl h ↦ h
  | inr (n, h) ↦
      let (pre, post, place, replaced, others) = count_from-FirstIn old [] text n nonempty h in
      absurd (absent (pre, post, place.here))
]

replace_counted-Replaces :
    (edit : TextReplacement) (text after : List ℕ)
    → HasText edit
    → replace_counted (count edit.old_text text) edit text ≡ Edited.edited after
    → Replaces edit text after
replace_counted-Replaces edit text after nonempty h =
    let old = edit.old_text in
    let (once, is_after, fits) = replace_counted-one (count old text) edit text after h in
    let (pre, post, place, replaced, others) =
      count_from-FirstIn old edit.new_text text 0 nonempty
        (sym (count-from old text nonempty) ∙ once) in
    record {
      pre = pre;
      post = post;
      place = place;
      unique = λ occurs. count_from-absent old post nonempty others occurs;
      replaced = is_after ∙ replaced;
      small = fits;
    }

replace_one :
    (edit : TextReplacement) (text after : List ℕ)
    → after ≡ replace_first edit.old_text edit.new_text text
    → length after ≤ max_edit_file_bytes
    → replace_counted 1 edit text ≡ Edited.edited after
replace_one edit text after is_after fits = ground arith

Replaces-replace_counted :
    (edit : TextReplacement) (text after : List ℕ)
    → HasText edit
    → Replaces edit text after
    → replace_counted (count edit.old_text text) edit text ≡ Edited.edited after
Replaces-replace_counted edit text after nonempty h =
    let old = edit.old_text in
    let (replaced, counted) =
      FirstIn-count_from old edit.new_text text h.pre h.post nonempty h.place in
    let once : count old text ≡ 1 =
      count-from old text nonempty
      ∙ counted
      ∙ ap suc (absent-count_from old h.post nonempty h.unique) in
    ap (λ (n : ℕ). replace_counted n edit text) once
    ∙ replace_one edit text after (h.replaced ∙ sym replaced) h.small

replace_all-ReplacesAll :
    (edits : List TextReplacement) (text after : List ℕ)
    → All HasText edits
    → replace_all edits text ≡ Edited.edited after
    → ReplacesAll edits text after
unfolding replace_all
replace_all-ReplacesAll [] text after nonempty h =
    subst (ReplacesAll [] text) (ground arith) ReplacesAll.none_left
replace_all-ReplacesAll (edit ∷ edits) text after (first, rest) h =
    let (updated, here, later) =
      then_edit-edited (replace_all edits) (replace_counted (count edit.old_text text) edit text)
        after h in
    ReplacesAll.next_edit (replace_counted-Replaces edit text updated first here)
      (replace_all-ReplacesAll edits updated after rest later)

ReplacesAll-replace_all :
    (edits : List TextReplacement) (text after : List ℕ)
    → All HasText edits
    → ReplacesAll edits text after
    → replace_all edits text ≡ Edited.edited after
unfolding replace_all
ReplacesAll-replace_all [] text after nonempty ReplacesAll.none_left = refl
ReplacesAll-replace_all (edit ∷ edits) text after (first, rest)
      (ReplacesAll.next_edit {updated = updated} here later) =
    ap (then_edit (replace_all edits)) (Replaces-replace_counted edit text updated first here)
    ∙ ReplacesAll-replace_all edits updated after rest later

unless_same-edited :
    (content text after : List ℕ)
    → unless_same content text ≡ Edited.edited after
    → (text ≡ after) × (content ≢ after)
unless_same-edited content text after h = elim (Bool-cases (bytes_equal content text)) [
  | inl same ↦ absurd (ground arith)
  | inr differ ↦
      let is_text : text ≡ after = ground arith in
      (
        is_text,
        λ e.
            let is_content : content ≡ text = e ∙ sym is_text in
            absurd (
              cc (
                differ,
                bytes_equal_refl text,
                ap (λ (t : List ℕ). bytes_equal t text) is_content,
              )),
      )
]

unless_same_lem :
    (content after : List ℕ) → content ≢ after → unless_same content after ≡ Edited.edited after
unless_same_lem content after apart = elim (Bool-cases (bytes_equal content after)) [
  | inl same ↦ absurd (apart (bytes_equal_iff content after same))
  | inr differ ↦ rw differ refl
]

-- For replacements whose old texts are not empty: the edit of a file gives a text exactly when that
-- text differs from the file and the replacements lead from one to the other, each at the first
-- place of its old text, which does not occur behind that place, and within the limit of size.
pub apply_text_replacements_iff :
    (content : List ℕ) (edits : List TextReplacement) (after : List ℕ)
    → All HasText edits
    → (apply_text_replacements content edits ≡ Edited.edited after)
      ↔ (ReplacesAll edits content after × (content ≢ after))
unfolding apply_text_replacements
apply_text_replacements_iff content edits after nonempty = (
  λ h.
      let (text, replaced, differs) =
        then_edit-edited (unless_same content) (replace_all edits content) after h in
      let (same, apart) = unless_same-edited content text after differs in
      (
        replace_all-ReplacesAll edits content after nonempty (replaced ∙ ap Edited.edited same),
        apart,
      ),
  λ (all, apart).
      ap (then_edit (unless_same content))
        (ReplacesAll-replace_all edits content after nonempty all)
      ∙ unless_same_lem content after apart,
)
