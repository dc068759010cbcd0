-- ===== src/Engine/Compaction/Cut/Laws.antt =====
-- The cut is the least safe boundary behind which the contents fit the budget.
use materialmind.Common.{
  ℕ, zero, suc, ◌+◌, ◌^◌, ◌≤◌, ◌<◌, ◌≡◌, refl, ap, ◌∙◌, sym, min, max, Bool, true, false, ◌&&◌, not,
  Option, none, some, ◌⊎◌, inl, inr, arith, ltb, length, drop, Bool-cases, drop_all,
}
use native.Mathlib.Decide.{dec_lt}
use materialmind.Engine.Compaction.Contents.{Content, Contents, safe_boundary}
use materialmind.Engine.Compaction.Contents.Laws.{safe_boundary_end}
use materialmind.Engine.Compaction.Cut.{
  Cut, settle_cut, suffix_cut, advance, minimum_cut, suffix_budget_tokens, cut_within,
  compaction_cut,
}
use materialmind.Engine.Compaction.Cut.Suffix.{total, total-drop_mono, suffix_cut-least}

above_next :
    (contents : Contents) (cut j : ℕ)
    → cut ≤ j
    → (ltb cut (length contents) && not (safe_boundary contents cut)) ≡ true
    → safe_boundary contents j ≡ true
    → suc cut ≤ j
above_next contents cut j above unsafe safe = elim (dec_lt cut j) [
  | yes p ↦ p
  | no p ↦
      let same : cut ≡ j = omega arith in
      let refused : safe_boundary contents cut ≡ false = ground arith in
      let granted : safe_boundary contents cut ≡ true = rw same safe in cc
]

-- Moving on reaches a safe boundary, or the end, and passes over no other one.
advance-least :
    (contents : Contents) (steps cut : ℕ)
    → length contents ≤ steps + cut
    → (cut ≤ advance contents steps cut)
      × ((length contents ≤ advance contents steps cut)
          ⊎ (safe_boundary contents (advance contents steps cut) ≡ true))
      × ((j : ℕ) → cut ≤ j → safe_boundary contents j ≡ true → advance contents steps cut ≤ j)
      × (cut ≤ length contents → advance contents steps cut ≤ length contents)
unfolding advance
advance-least contents zero cut enough =
    (omega arith, inl (omega arith), λ j above safe. above, λ inside. inside)
advance-least contents (suc steps) cut enough =
    elim (Bool-cases (ltb cut (length contents) && not (safe_boundary contents cut))) [
      | inl unsafe ↦
          let (low, safe, least, high) = advance-least contents steps (suc cut) (omega arith) in
          rw unsafe (
            omega arith,
            safe,
            λ j above safe_j. least j (above_next contents cut j above unsafe safe_j) safe_j,
            λ inside. high (ground arith),
          )
      | inr stop ↦ rw stop (omega arith, ground arith, λ j above safe. above, λ inside. inside)
    ]

-- What is promised of a cut: it is inside the contents, not below the minimum unless the contents
-- end there, safe, and the contents behind it fit the budget; every other such place from the
-- minimum on is behind it.
abbrev pub IsLeastCut : (Option Content → ℕ) → ℕ → Contents → Bool → ℕ → Type 0
IsLeastCut size budget contents has_checkpoint cut =
    (cut ≤ length contents)
    × (min (minimum_cut has_checkpoint) (length contents) ≤ cut)
    × (safe_boundary contents cut ≡ true)
    × (total size (drop cut contents) ≤ budget)
    × ((j : ℕ)
        → minimum_cut has_checkpoint ≤ j
        → safe_boundary contents j ≡ true
        → total size (drop j contents) ≤ budget
        → cut ≤ j)

not_below : {a b : ℕ} → a < b → b ≤ a → ⊥
not_below p q = omega (arith, p, q)

least_cut :
    (size : Option Content → ℕ) (budget : ℕ) (contents : Contents) (has_checkpoint : Bool)
    (first : ℕ)
    → first ≤ length contents
    → total size (drop first contents) ≤ budget
    → ((j : ℕ) → j < first → budget < total size (drop j contents))
    → IsLeastCut size budget contents has_checkpoint (
        min
          (advance contents (length contents) (max first (minimum_cut has_checkpoint)))
          (length contents))
least_cut size budget contents has_checkpoint first inside fits least =
    let start : ℕ = max first (minimum_cut has_checkpoint) in
    let moved : ℕ = advance contents (length contents) start in
    let (low, safe, next, high) = advance-least contents (length contents) start (omega arith) in
    let cut : ℕ = min moved (length contents) in
    let safe_cut : safe_boundary contents cut ≡ true = elim safe [
      | inl past ↦ safe_boundary_end contents cut (omega (arith, past))
      | inr here ↦ elim (dec_lt moved (length contents)) [
        | yes p ↦ ap (safe_boundary contents) (omega (arith, p)) ∙ here
        | no p ↦ safe_boundary_end contents cut (omega (arith, p))
      ]
    ] in
    (
      omega arith,
      omega (arith, low),
      safe_cut,
      omega (arith, fits, total-drop_mono size contents first cut (omega (arith, low, inside))),
      λ j above safe_j fits_j. elim (dec_lt j first) [
        | yes p ↦ absurd (not_below (least j p) fits_j)
        | no p ↦ omega (arith, next j (omega (arith, p, above)) safe_j)
      ],
    )

enough_contents :
    (contents : Contents) (has_checkpoint : Bool)
    → (has_checkpoint ≡ true → 2 ≤ length contents)
    → (has_checkpoint && ltb (length contents) 2) ≡ false
enough_contents contents true enough = let long = enough refl in ground arith
enough_contents contents false enough = refl

settle_cut-at :
    (contents : Contents) (has_checkpoint : Bool) (first : ℕ)
    → (has_checkpoint && ltb (length contents) 2) ≡ false
    → settle_cut contents has_checkpoint (some first)
      ≡ Cut.cut_at (
          min
            (advance contents (length contents) (max first (minimum_cut has_checkpoint)))
            (length contents))
settle_cut-at contents has_checkpoint first passed = rw passed refl

cut_within-at :
    (tokens : Option Content → Option ℕ) (budget : ℕ) (contents : Contents) (has_checkpoint : Bool)
    (first : ℕ)
    → suffix_cut tokens contents budget (length contents) 0 (length contents) ≡ some first
    → (has_checkpoint ≡ true → 2 ≤ length contents)
    → cut_within tokens budget contents has_checkpoint
      ≡ Cut.cut_at (
          min
            (advance contents (length contents) (max first (minimum_cut has_checkpoint)))
            (length contents))
unfolding cut_within
cut_within-at tokens budget contents has_checkpoint first run enough =
    ap (settle_cut contents has_checkpoint) run
    ∙ settle_cut-at contents has_checkpoint first (enough_contents contents has_checkpoint enough)

-- With tools, instructions and contents that can be encoded, and no checkpoint or at least two
-- contents, compaction gives a cut, and it is the least one: safe, within the contents and not
-- below the minimum, and with a rest that fits 30 % of the input budget.
pub compaction_cut-least :
    (tokens : Option Content → Option ℕ) (size : Option Content → ℕ) (contents : Contents)
    (fixed_tokens input_budget summary_output_tokens : ℕ) (has_checkpoint : Bool)
    → ((c : Option Content) → tokens c ≡ some (size c))
    → ((c : Option Content) → size c < 2 ^ 61)
    → input_budget < 2 ^ 63
    → (has_checkpoint ≡ true → 2 ≤ length contents)
    → (cut : ℕ) × (compaction_cut tokens
          (some fixed_tokens)
          input_budget
          summary_output_tokens
          contents
          has_checkpoint
        ≡ Cut.cut_at cut)
      × IsLeastCut size
          (suffix_budget_tokens input_budget fixed_tokens summary_output_tokens)
          contents
          has_checkpoint
          cut
unfolding compaction_cut
compaction_cut-least tokens size contents fixed_tokens input_budget summary_output_tokens
      has_checkpoint encodes small bounded enough =
    let budget : ℕ = suffix_budget_tokens input_budget fixed_tokens summary_output_tokens in
    let (first, run, inside, fits, least) =
      suffix_cut-least tokens size contents budget encodes small (omega arith) (length contents) 0
        (omega arith) (ap (total size) (sym (drop_all (length contents) contents (omega arith))))
        (omega arith) in
    (
      min (advance contents (length contents) (max first (minimum_cut has_checkpoint)))
          (length contents),
      cut_within-at tokens budget contents has_checkpoint first run enough,
      least_cut size budget contents has_checkpoint first inside fits least,
    )

settle_cut_bounds :
    (contents : Contents) (has_checkpoint : Bool) (first : Option ℕ) (cut : ℕ)
    → settle_cut contents has_checkpoint first ≡ Cut.cut_at cut
    → (cut ≤ length contents)
      × (min (minimum_cut has_checkpoint) (length contents) ≤ cut)
      × ((has_checkpoint && ltb (length contents) 2) ≡ false)
settle_cut_bounds contents has_checkpoint none cut e = absurd (ground arith)
settle_cut_bounds contents has_checkpoint (some first) cut e =
    elim (Bool-cases (has_checkpoint && ltb (length contents) 2)) [
      | inl short ↦ absurd (ground arith)
      | inr long ↦
          let start : ℕ = max first (minimum_cut has_checkpoint) in
          let low = (advance-least contents (length contents) start (omega arith)).0 in
          let same : cut ≡ min (advance contents (length contents) start) (length contents) =
            ground arith in
          (omega (arith, same), omega (arith, same, low), long)
    ]

-- Every cut is within the contents and, unless they end there, not below the minimum; after a
-- checkpoint there are at least two contents.
pub compaction_cut_bounds :
    (tokens : Option Content → Option ℕ) (fixed : Option ℕ) (input_budget summary_output_tokens : ℕ)
    (contents : Contents) (has_checkpoint : Bool) (cut : ℕ)
    → compaction_cut tokens fixed input_budget summary_output_tokens contents has_checkpoint
      ≡ Cut.cut_at cut
    → (cut ≤ length contents)
      × (min (minimum_cut has_checkpoint) (length contents) ≤ cut)
      × ((has_checkpoint && ltb (length contents) 2) ≡ false)
unfolding compaction_cut cut_within
compaction_cut_bounds tokens none input_budget summary_output_tokens contents has_checkpoint cut e =
    absurd (ground arith)
compaction_cut_bounds tokens (some fixed) input_budget summary_output_tokens contents has_checkpoint
      cut e =
    settle_cut_bounds contents has_checkpoint
      (suffix_cut tokens contents (suffix_budget_tokens input_budget fixed summary_output_tokens)
        (length contents) 0 (length contents))
      cut e
