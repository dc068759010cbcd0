-- ===== src/Engine/Compaction/Cut.antt =====
-- Where compaction cuts the contents: `compactionCut`. `tokens` is `estimateJSONTokens` of a
-- content, `none` for an error.
pub mod Suffix
pub mod Laws
use materialmind.Common.{
  ℕ, zero, suc, ◌-◌, max, min, Bool, true, false, ◌&&◌, not, Option, none, some, if◌then◌else◌, ltb,
  length, get_elem?, ◌>>=◌,
}
use materialmind.Common.Int64.{add64, slt}
use materialmind.Engine.Compaction.Budget.{percentage, target_percent}
use materialmind.Engine.Compaction.Contents.{Content, Contents, safe_boundary}

pub data Cut : Type 0 where
  cut_at : ℕ → Cut
  estimate_failed over_budget : Cut

-- The loop over the contents from the last one on; `cut` is the index behind the next one.
unfoldable pub suffix_cut : (Option Content → Option ℕ) → Contents → ℕ → ℕ → ℕ → ℕ → Option ℕ
suffix_cut tokens contents suffix_budget zero suffix_tokens cut = some cut
suffix_cut tokens contents suffix_budget (suc index) suffix_tokens cut =
    get_elem? contents index >>= (λ content. tokens content >>= (λ content_tokens.
      let next =
        suffix_cut tokens contents suffix_budget index (add64 suffix_tokens content_tokens) index in
      if slt suffix_budget (add64 suffix_tokens content_tokens) then some (suc index) else next))

-- The loop that moves the cut on to a safe boundary, at most `steps` times.
unfoldable pub advance : Contents → ℕ → ℕ → ℕ
advance contents zero cut = cut
advance contents (suc steps) cut =
    let next = advance contents steps (suc cut) in
    if ltb cut (length contents) && not (safe_boundary contents cut) then next else cut

abbrev pub minimum_cut : Bool → ℕ
minimum_cut has_checkpoint = if has_checkpoint then 2 else 1

-- The tokens left for the contents that are kept, 0 if the sum is not positive.
abbrev pub suffix_budget_tokens : ℕ → ℕ → ℕ → ℕ
suffix_budget_tokens input_budget fixed_tokens summary_output_tokens =
    percentage input_budget target_percent - fixed_tokens - summary_output_tokens

-- What follows the loop.
abbrev pub settle_cut : Contents → Bool → Option ℕ → Cut
settle_cut contents has_checkpoint none = Cut.estimate_failed
settle_cut contents has_checkpoint (some cut) =
    if has_checkpoint && ltb (length contents) 2
    then Cut.over_budget
    else Cut.cut_at (
        min (advance contents (length contents) (max cut (minimum_cut has_checkpoint)))
          (length contents))

-- `compactionCut` from the loop on.
unfoldable pub cut_within : (Option Content → Option ℕ) → ℕ → Contents → Bool → Cut
cut_within tokens suffix_budget contents has_checkpoint =
    settle_cut contents has_checkpoint
      (suffix_cut tokens contents suffix_budget (length contents) 0 (length contents))

-- `compactionCut`
unfoldable pub compaction_cut :
    (Option Content → Option ℕ) → Option ℕ → ℕ → ℕ → Contents → Bool → Cut
compaction_cut tokens none input_budget summary_output_tokens contents has_checkpoint =
    Cut.estimate_failed
compaction_cut tokens (some fixed) input_budget summary_output_tokens contents has_checkpoint =
    cut_within tokens (suffix_budget_tokens input_budget fixed summary_output_tokens) contents
      has_checkpoint
