-- ===== src/Engine/Compaction/Budget.antt =====
-- Token arithmetic of internal/engine/context_compaction.go. An int64 is its bit pattern below
-- 2 ^ 64, or, where the code treats all numbers that are not positive alike, 0 stands for those.
pub mod Laws
use materialmind.Common.{ℕ, ◌+◌, ◌-◌, ◌*◌, ◌/◌, ◌%◌, ◌^◌, min, max, if◌then◌else◌, ltb, ◌==◌}

-- `contextCompactionTriggerPercent` and its siblings
abbrev pub trigger_percent : ℕ
trigger_percent = 90

abbrev pub target_percent : ℕ
target_percent = 30

abbrev pub summary_percent : ℕ
summary_percent = 1

abbrev pub bytes_per_two_tokens : ℕ
bytes_per_two_tokens = 5

abbrev pub min_summary : ℕ
min_summary = 512

abbrev pub max_summary : ℕ
max_summary = 8192

-- `percentage`, of numbers that are not negative
abbrev pub percentage : ℕ → ℕ → ℕ
percentage value percent = (value / 100 * percent + value % 100 * percent / 100) % 2 ^ 64

-- `contextCompactionSummaryTokenLimit`
abbrev pub summary_token_limit : ℕ → ℕ
summary_token_limit max_context_tokens =
    if max_context_tokens == 0
    then 0
    else min
        (min (max (max_context_tokens * summary_percent % 2 ^ 64 / 100) min_summary) max_summary)
        (max (max_context_tokens / 4) 1)

-- `estimateJSONTokens` of a value whose encoding has `size` bytes. A sum that wraps around to a
-- negative number gives the least estimate.
abbrev pub json_tokens : ℕ → ℕ
json_tokens size =
    let doubled = (2 * size + bytes_per_two_tokens - 1) % 2 ^ 64 in
    if ltb doubled (2 ^ 63) then max (doubled / bytes_per_two_tokens) 1 else 1

-- `tokensToContextChars`, of a number whose product with 5 is an int64
abbrev pub tokens_to_context_chars : ℕ → ℕ
tokens_to_context_chars tokens = tokens * bytes_per_two_tokens % 2 ^ 64 / 2

-- `outputTokenReserve`, of the allowance that the request configures, 0 if none, and the model's
abbrev pub output_token_reserve : ℕ → ℕ → ℕ
output_token_reserve configured max_output_tokens =
    if ltb 0 configured then configured else max_output_tokens

-- `inputBudgetTokens`
abbrev pub input_budget_tokens : ℕ → ℕ → ℕ
input_budget_tokens max_context_tokens reserve = max_context_tokens - reserve

-- `compactionTriggerTokens`
abbrev pub compaction_trigger_tokens : ℕ → ℕ → ℕ
compaction_trigger_tokens max_context_tokens reserve =
    percentage (input_budget_tokens max_context_tokens reserve) trigger_percent
