-- ===== src/Engine/Compaction/Cut/Suffix.antt =====
-- The loop over the contents finds the longest rest of them that fits the budget.
use materialmind.Common.{
  ℕ, zero, suc, ◌+◌, ◌^◌, ◌≤◌, ◌<◌, ◌≡◌, refl, ap, ◌∙◌, sym, true, false, Option, some, [], ◌∷◌,
  arith, if◌then◌else◌, ltb, length, get_elem?, drop, get_elem?-some, drop-eq-cons,
}
use native.Mathlib.Decide.{dec_lt}
use materialmind.Common.Int64.{add64, slt}
use materialmind.Engine.Compaction.Contents.{Content, Contents}
use materialmind.Engine.Compaction.Cut.{suffix_cut}

-- The sum of the sizes of some contents.
abbrev pub total : (Option Content → ℕ) → Contents → ℕ
total size [] = 0
total size (c ∷ cs) = size c + total size cs

total-drop_le :
    (size : Option Content → ℕ) (cs : Contents) (n : ℕ) → total size (drop n cs) ≤ total size cs
total-drop_le size cs zero = omega arith
total-drop_le size [] (suc n) = omega arith
total-drop_le size (c ∷ cs) (suc n) = omega (arith, total-drop_le size cs n)

-- Dropping more leaves less.
pub total-drop_mono :
    (size : Option Content → ℕ) (cs : Contents) (n m : ℕ)
    → n ≤ m
    → total size (drop m cs) ≤ total size (drop n cs)
total-drop_mono size cs zero m h = total-drop_le size cs m
total-drop_mono size cs (suc n) zero h = elim h [ ]
total-drop_mono size [] (suc n) (suc m) h = omega arith
total-drop_mono size (c ∷ cs) (suc n) (suc m) h = total-drop_mono size cs n m (omega arith)

total-drop_at :
    (size : Option Content → ℕ) (cs : Contents) (n : ℕ) (c : Option Content)
    → get_elem? cs n ≡ some c
    → total size (drop n cs) ≡ size c + total size (drop (suc n) cs)
total-drop_at size cs n c at = ap (total size) (drop-eq-cons n cs c at)

fits_sum :
    (budget a b : ℕ)
    → budget < 2 ^ 62
    → a ≤ budget
    → b < 2 ^ 61
    → (add64 a b ≡ a + b) × (slt budget (add64 a b) ≡ ltb budget (a + b))
fits_sum budget a b small p q = (ground arith, ground arith)

module _ (tokens : Option Content → Option ℕ) (size : Option Content → ℕ) (contents : Contents)
    (budget : ℕ) (encodes : (c : Option Content) → tokens c ≡ some (size c)) where
  suffix_cut-step :
      (index suffix cut : ℕ) (c : Option Content)
      → get_elem? contents index ≡ some c
      → suffix_cut tokens contents budget (suc index) suffix cut ≡ (
          if slt budget (add64 suffix (size c))
          then some (suc index)
          else suffix_cut tokens contents budget index (add64 suffix (size c)) index)
  unfolding suffix_cut
  suffix_cut-step index suffix cut c at = rw (at, encodes c) refl

  suffix_cut-over :
      (index suffix cut : ℕ) (c : Option Content)
      → get_elem? contents index ≡ some c
      → slt budget (add64 suffix (size c)) ≡ true
      → suffix_cut tokens contents budget (suc index) suffix cut ≡ some (suc index)
  suffix_cut-over index suffix cut c at over = suffix_cut-step index suffix cut c at ∙ rw over refl

  suffix_cut-within :
      (index suffix cut next : ℕ) (c : Option Content)
      → get_elem? contents index ≡ some c
      → slt budget (add64 suffix (size c)) ≡ false
      → add64 suffix (size c) ≡ next
      → suffix_cut tokens contents budget (suc index) suffix cut
        ≡ suffix_cut tokens contents budget index next index
  suffix_cut-within index suffix cut next c at within exact =
      suffix_cut-step index suffix cut c at
      ∙ rw within (ap (λ n. suffix_cut tokens contents budget index n index) exact)

  suffix_cut-zero : (suffix : ℕ) → suffix_cut tokens contents budget zero suffix zero ≡ some zero
  unfolding suffix_cut
  suffix_cut-zero suffix = refl

  -- The loop ends at the least index behind which the contents fit.
  pub suffix_cut-least :
      ((c : Option Content) → size c < 2 ^ 61)
      → budget < 2 ^ 62
      → (index suffix : ℕ) → index ≤ length contents
      → suffix ≡ total size (drop index contents)
      → suffix ≤ budget
      → (cut : ℕ) × (suffix_cut tokens contents budget index suffix index ≡ some cut)
        × (cut ≤ index)
        × (total size (drop cut contents) ≤ budget)
        × ((j : ℕ) → j < cut → budget < total size (drop j contents))
  suffix_cut-least small bound zero suffix inside sum fits =
      (zero, suffix_cut-zero suffix, omega arith, omega (arith, sum), λ j below. elim below [ ])
  suffix_cut-least small bound (suc index) suffix inside sum fits =
      let (c, at) = get_elem?-some contents index inside in
      let next : total size (drop index contents) ≡ size c + suffix =
        total-drop_at size contents index c at ∙ ap (λ n. size c + n) (sym sum) in
      let (exact, test) = fits_sum budget suffix (size c) bound fits (small c) in
      elim (dec_lt budget (suffix + size c)) [
        | yes over ↦
            let taken : slt budget (add64 suffix (size c)) ≡ true = test ∙ ground arith in
            (
              suc index,
              suffix_cut-over index suffix (suc index) c at taken,
              omega arith,
              omega (arith, sum),
              λ j below. omega (arith, next, total-drop_mono size contents j index (omega arith)),
            )
        | no within ↦
            let passed : slt budget (add64 suffix (size c)) ≡ false = test ∙ ground arith in
            let (cut, run, low, fit, least) =
              suffix_cut-least small bound index (suffix + size c) (omega arith)
                (omega (arith, next)) (omega arith) in
            (
              cut,
              suffix_cut-within index suffix (suc index) (suffix + size c) c at passed exact ∙ run,
              omega arith,
              fit,
              least,
            )
      ]
