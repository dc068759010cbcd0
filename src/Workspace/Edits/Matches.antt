-- ===== src/Workspace/Edits/Matches.antt =====
-- Where a text occurs: counting and replacing find the first place, and go on behind it.
use mathlib.Core.Path.{subst}
use materialmind.Common.{
  ℕ, zero, suc, ◌-◌, ◌≤◌, ◌≡◌, ◌∙◌, ◌⊎◌, inl, inr, refl, sym, ap, true, false, List, [], ◌∷◌, ◌++◌,
  length, length-append, drop, arith, Bool-cases,
}
use materialmind.Workspace.Edits.{begins_with, count_from, replace_first, bytes_equal}

begins_with-drop :
    (old text : List ℕ) → begins_with old text ≡ true → text ≡ old ++ drop (length old) text
begins_with-drop [] text h = refl
begins_with-drop (b ∷ old) [] h = absurd (ground arith)
begins_with-drop (b ∷ old) (c ∷ text) h = ground (arith, begins_with-drop old text (ground arith))

begins_with-append : (old rest : List ℕ) → begins_with old (old ++ rest) ≡ true
begins_with-append [] rest = refl
begins_with-append (b ∷ old) rest = ground (arith, begins_with-append old rest)

drop-append : (old rest : List ℕ) → drop (length old) (old ++ rest) ≡ rest
drop-append [] rest = refl
drop-append (b ∷ old) rest = drop-append old rest

count_from-drop :
    (skip : ℕ) (old text : List ℕ) → count_from skip old text ≡ count_from 0 old (drop skip text)
count_from-drop zero old text = refl
count_from-drop (suc skip) old [] = refl
count_from-drop (suc skip) old (b ∷ text) = count_from-drop skip old text

drop_first :
    (old : List ℕ) (b : ℕ) (text : List ℕ)
    → 1 ≤ length old
    → drop (length old - 1) text ≡ drop (length old) (b ∷ text)
drop_first [] b text h = absurd (omega arith)
drop_first (c ∷ old) b text h = ap (λ (n : ℕ). drop n text) (omega arith)

count_from_found :
    (old : List ℕ) (b : ℕ) (text : List ℕ)
    → 1 ≤ length old
    → begins_with old (b ∷ text) ≡ true
    → count_from 0 old (b ∷ text) ≡ suc (count_from 0 old (drop (length old) (b ∷ text)))
count_from_found old b text nonempty h = rw h (
    omega (
      arith,
      count_from-drop (length old - 1) old text
          ∙ ap (count_from 0 old) (drop_first old b text nonempty),
    ))

count_from_missed :
    (old : List ℕ) (b : ℕ) (text : List ℕ)
    → begins_with old (b ∷ text) ≡ false
    → count_from 0 old (b ∷ text) ≡ count_from 0 old text
count_from_missed old b text h = rw h (omega arith)

abbrev pub Occurs : List ℕ → List ℕ → Type 0
Occurs old text = (pre : List ℕ) × (post : List ℕ) × (text ≡ pre ++ (old ++ post))

-- The first place where a text occurs.
pub record FirstIn (old text pre post : List ℕ) : Type 0 where
  pub here : text ≡ pre ++ (old ++ post)
  pub first : (p q : List ℕ) → text ≡ p ++ (old ++ q) → length pre ≤ length p

begins_with_at : (old text q : List ℕ) → text ≡ old ++ q → begins_with old text ≡ true
begins_with_at old text q e =
    subst (λ (t : List ℕ). begins_with old t ≡ true) (sym e) (begins_with-append old q)

-- Where a text that does not begin here can begin.
later :
    (old : List ℕ) (b : ℕ) (text p q : List ℕ)
    → begins_with old (b ∷ text) ≡ false
    → b ∷ text ≡ p ++ (old ++ q)
    → (p' : List ℕ) × (p ≡ b ∷ p') × (text ≡ p' ++ (old ++ q))
later old b text [] q h e = absurd (cc (h, begins_with_at old (b ∷ text) q e))
later old b text (c ∷ p) q h e = (p, ground arith, ground arith)

-- A text that is counted is split at its first place.
pub count_from-FirstIn :
    (old new text : List ℕ) (n : ℕ)
    → 1 ≤ length old
    → count_from 0 old text ≡ suc n
    → (pre : List ℕ) × (post : List ℕ) × FirstIn old text pre post
      × (replace_first old new text ≡ pre ++ (new ++ post))
      × (count_from 0 old post ≡ n)
unfolding replace_first
count_from-FirstIn old new [] n nonempty h = absurd (ground arith)
count_from-FirstIn old new (b ∷ text) n nonempty h =
    elim (Bool-cases (begins_with old (b ∷ text))) [
      | inl found ↦ (
        [],
        drop (length old) (b ∷ text),
        record { here = begins_with-drop old (b ∷ text) found; first = λ p q e. omega arith },
        rw found refl,
        omega (arith, h, count_from_found old b text nonempty found),
      )
      | inr missed ↦
          let (pre, post, place, replaced, others) =
            count_from-FirstIn old new text n nonempty
              (sym (count_from_missed old b text missed) ∙ h) in
          (
            b ∷ pre,
            post,
            record {
              here = ap (λ t. b ∷ t) place.here;
              first = λ p q e.
                  let (p', is_p, e') = later old b text p q missed e in
                  rw is_p (omega (arith, place.first p' q e'));
            },
            rw missed (ap (λ t. b ∷ t) replaced),
            others,
          )
    ]

-- A text that does not occur is counted as 0.
pub count_from-absent :
    (old text : List ℕ) → 1 ≤ length old → count_from 0 old text ≡ 0 → Occurs old text → ⊥
count_from-absent old [] nonempty h (pre, post, e) = absurd (
    omega (
      arith,
      ap (λ (t : List ℕ). length t) e,
      length-append pre (old ++ post),
      length-append old post,
    ))
count_from-absent old (b ∷ text) nonempty h (pre, post, e) =
    elim (Bool-cases (begins_with old (b ∷ text))) [
      | inl found ↦ absurd (omega (arith, h, count_from_found old b text nonempty found))
      | inr missed ↦
          let (pre', is_pre, e') = later old b text pre post missed e in
          count_from-absent old text nonempty (sym (count_from_missed old b text missed) ∙ h)
            (pre', post, e')
    ]

pub append-inj :
    (xs xs' ys ys' : List ℕ)
    → length xs ≡ length xs'
    → xs ++ ys ≡ xs' ++ ys'
    → (xs ≡ xs') × (ys ≡ ys')
append-inj [] [] ys ys' h e = (refl, e)
append-inj [] (x ∷ xs') ys ys' h e = absurd (omega arith)
append-inj (x ∷ xs) [] ys ys' h e = absurd (omega arith)
append-inj (x ∷ xs) (x' ∷ xs') ys ys' h e =
    let (same, rest) = append-inj xs xs' ys ys' (omega arith) (ground arith) in (ground arith, rest)

pub positive : (n : ℕ) → (n ≡ 0) ⊎ ((m : ℕ) × (n ≡ suc m))
positive zero = inl refl
positive (suc m) = inr (m, refl)

-- There is one first place.
FirstIn-unique :
    (old text pre post pre' post' : List ℕ)
    → FirstIn old text pre post
    → FirstIn old text pre' post'
    → (pre ≡ pre') × (post ≡ post')
FirstIn-unique old text pre post pre' post' place place' =
    let (same, rest) =
      append-inj pre pre' (old ++ post) (old ++ post')
        (omega (arith, place.first pre' post' place'.here, place'.first pre post place.here))
        (sym place.here ∙ place'.here) in
    (same, (append-inj old old post post' refl rest).1)

-- The first place is the one that is replaced, and counted.
pub FirstIn-count_from :
    (old new text pre post : List ℕ)
    → 1 ≤ length old
    → FirstIn old text pre post
    → (replace_first old new text ≡ pre ++ (new ++ post))
      × (count_from 0 old text ≡ suc (count_from 0 old post))
FirstIn-count_from old new text pre post nonempty place = elim (positive (count_from 0 old text)) [
  | inl absent ↦ absurd (count_from-absent old text nonempty absent (pre, post, place.here))
  | inr (n, present) ↦
      let (pre', post', place', replaced, others) =
        count_from-FirstIn old new text n nonempty present in
      let (same, rest) = FirstIn-unique old text pre post pre' post' place place' in
      (
        replaced
            ∙ ap (λ (p : List ℕ). p ++ (new ++ post')) (sym same)
            ∙ ap (λ (q : List ℕ). pre ++ (new ++ q)) (sym rest),
        present ∙ ap suc (sym others ∙ ap (count_from 0 old) (sym rest)),
      )
]

pub bytes_equal_iff : (xs ys : List ℕ) → bytes_equal xs ys ≡ true → xs ≡ ys
bytes_equal_iff [] [] h = refl
bytes_equal_iff [] (y ∷ ys) h = absurd (ground arith)
bytes_equal_iff (x ∷ xs) [] h = absurd (ground arith)
bytes_equal_iff (x ∷ xs) (y ∷ ys) h = ground (arith, bytes_equal_iff xs ys (ground arith))

pub bytes_equal_refl : (xs : List ℕ) → bytes_equal xs xs ≡ true
bytes_equal_refl [] = refl
bytes_equal_refl (x ∷ xs) = ground (arith, bytes_equal_refl xs)
