-- ===== src/Engine/Compaction/Budget/Laws.antt =====
-- The token arithmetic is exact, and the estimates keep to their bounds.
use materialmind.Common.{ℕ, ◌+◌, ◌*◌, ◌^◌, ◌≤◌, ◌<◌, arith}
use materialmind.Engine.Compaction.Budget.{
  json_tokens, summary_token_limit, compaction_trigger_tokens, input_budget_tokens,
}

-- The estimate for an encoding of at least one and fewer than 2^61 bytes is 2/5 of them, rounded
-- up, so it is at least 1, and small enough that a sum of two does not wrap around.
pub json_tokens_exact :
    (size : ℕ)
    → 0 < size
    → size < 2 ^ 61
    → (2 * size ≤ 5 * json_tokens size)
      × (5 * json_tokens size < 2 * size + 5)
      × (0 < json_tokens size)
      × (json_tokens size < 2 ^ 61)
json_tokens_exact size pos small = (ground arith, ground arith, ground arith, ground arith)

-- Compaction starts at 90 % of the input budget, rounded down.
pub trigger_below_budget :
    (window reserve : ℕ)
    → window < 2 ^ 63
    → (compaction_trigger_tokens window reserve ≤ input_budget_tokens window reserve)
      × (10 * compaction_trigger_tokens window reserve ≤ 9 * input_budget_tokens window reserve)
      × (9 * input_budget_tokens window reserve
          < 10 * compaction_trigger_tokens window reserve + 10)
trigger_below_budget window reserve small = (omega arith, omega arith, omega arith)

-- A summary gets at most 8192 tokens and, rounded up, a quarter of the window.
pub summary_token_limit_bounds :
    (window : ℕ)
    → window < 2 ^ 63
    → (summary_token_limit window ≤ 8192) × (4 * summary_token_limit window ≤ window + 3)
summary_token_limit_bounds window small = (ground arith, ground arith)
