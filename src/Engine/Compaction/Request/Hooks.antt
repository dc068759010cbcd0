-- ===== src/Engine/Compaction/Request/Hooks.antt =====
-- What the compactor does around a model call: `beforeModel`, `afterModel` and `onModelError`.
-- A failed call has its message, which `strings.ToLower` has made lower case.
use materialmind.Common.{
  ℕ, ◌+◌, ◌-◌, ◌%◌, ◌^◌, String, Bool, true, false, ◌&&◌, ◌||◌, Option, none, some, List, [], ◌∷◌,
  if◌then◌else◌, ltb, leb, ◌==◌, str_eq, length, take, drop, any,
}
use materialmind.Common.Int64.{slt}
use text.Mathlib.Text.{find?}
use materialmind.Engine.Compaction.Contents.{Contents}
use materialmind.Engine.Compaction.Checkpoint.{
  UsageRecord, Got, Stored, Environment, usage_key, content_digest, checkpointed_contents,
}
use materialmind.Engine.Compaction.Request.{
  ContextCompactor, CompactionError, Turn, Outcome, sum_tokens, estimate_request_tokens, reserve,
  trigger_tokens, record_sent_request, compact_request,
}

-- `a - b` and `max(a, b)` on int64
abbrev pub sub64 : ℕ → ℕ → ℕ
sub64 a b = (a + 2 ^ 64 - b) % 2 ^ 64

abbrev pub smax : ℕ → ℕ → ℕ
smax a b = if slt a b then b else a

-- `contextLengthErrorMarkers`
abbrev pub context_length_error_markers : List String
context_length_error_markers =
    "context length" ∷ "context_length" ∷ "context window" ∷ "too many tokens" ∷ "maximum context"
    ∷ "prompt is too long" ∷ "exceeds the context" ∷ "input + " ∷ []

abbrev pub contains : String → String → Bool
contains message marker = elim (find? message marker) [ none ↦ false | some position ↦ true ]

-- `isContextLengthError`
pub is_context_length_error : String → Bool
is_context_length_error message = any (contains message) context_length_error_markers

abbrev pub is_digest : String → Option String → Bool
is_digest expected none = false
is_digest expected (some digest) = str_eq digest expected

module _ {S : Type 0} (env : Environment S) where
  -- `validContextUsageRecord`
  abbrev pub valid_usage_record : UsageRecord → Contents → Bool
  valid_usage_record usage contents =
      usage.version == 1
      && slt 0 usage.prompt_tokens
      && ltb 0 usage.contents_count
      && leb usage.contents_count (length contents)
      && is_digest usage.last_content_digest
          (content_digest env (take 1 (drop (usage.contents_count - 1) contents)))

  -- `loadContextUsageRecord`
  abbrev pub usage_got : Got → Option UsageRecord
  usage_got (Got.text encoded) = env.decode_usage encoded
  usage_got Got.missing = none
  usage_got Got.unreadable = none
  usage_got Got.other = none

  abbrev pub load_usage_record : S → Option UsageRecord
  load_usage_record state = usage_got (env.get state usage_key)

  -- The last sent request with the tokens that the provider measured for it.
  abbrev pub sent_usage : ContextCompactor → UsageRecord
  sent_usage c = record {
    version = 1;
    prompt_tokens = c.measured_prompt_tokens;
    contents_count = c.last_sent_contents_count;
    last_content_digest = c.last_sent_last_digest;
  }

  abbrev pub projection : UsageRecord → Contents → ℕ
  projection usage contents =
      elim (sum_tokens env usage.prompt_tokens (drop usage.contents_count contents)) [
        | none ↦ 0
        | some tokens ↦ tokens
      ]

  abbrev pub stored_projection : Contents → Option UsageRecord → ℕ
  stored_projection contents none = 0
  stored_projection contents (some usage) =
      if valid_usage_record usage contents then projection usage contents else 0

  -- `projectedInputTokens`
  pub projected_input_tokens : Turn S → Contents → ℕ
  projected_input_tokens turn contents =
      if valid_usage_record (sent_usage turn.compactor) contents
      then projection (sent_usage turn.compactor) contents
      else stored_projection contents (load_usage_record turn.state)

  -- `beforeModel` on the estimate of the request: at the trigger it compacts.
  abbrev pub decide_compaction : Turn S → ℕ → ℕ → Outcome S
  decide_compaction turn full_tokens projected_tokens =
      if slt (smax (sub64 full_tokens (reserve env turn)) projected_tokens)
        (trigger_tokens env turn)
      then (record turn { compactor = record_sent_request env turn.compactor turn.contents }, none)
      else compact_request env turn full_tokens

  abbrev pub before_estimated : Turn S → Option ℕ → Outcome S
  before_estimated turn none = (turn, some CompactionError.estimate_failed)
  before_estimated turn (some full_tokens) =
      decide_compaction turn full_tokens
        (projected_input_tokens turn (checkpointed_contents env turn.state turn.contents))

  -- `beforeModel`
  unfoldable pub before_model : Turn S → Outcome S
  before_model turn =
      if turn.compactor.max_context_tokens == 0
      then (turn, none)
      else before_estimated turn (estimate_request_tokens env turn turn.contents)

  abbrev pub keep_stored : Turn S → Stored S → Turn S
  keep_stored turn (Stored.stored state) = record turn { state = state }
  keep_stored turn (Stored.refused canceled) = turn

  abbrev pub save_usage : Turn S → Option String → Turn S
  save_usage turn none = turn
  save_usage turn (some encoded) = keep_stored turn (env.set turn.state usage_key encoded)

  -- `afterModel`, on the tokens that a good response reports, 0 if none
  pub after_model : Turn S → ℕ → Turn S
  after_model turn prompt_tokens =
      if turn.compactor.last_sent_contents_count == 0 || prompt_tokens == 0
      then turn
      else (let measured : ContextCompactor = record turn.compactor {
        measured_prompt_tokens = prompt_tokens;
      } in
          save_usage (record turn { compactor = measured })
            (env.encode_usage (sent_usage measured)))

  abbrev pub or_zero : Option ℕ → ℕ
  or_zero none = 0
  or_zero (some tokens) = tokens

  -- The message of the error that `onModelError` returns.
  abbrev pub replace_error : String → Outcome S → Turn S × String
  replace_error message (turn, some error) = (turn, message)
  replace_error message (turn, none) = (
    turn,
    "the model context window was exceeded; the session context was compacted, send the next message to continue",
  )

  -- `onModelError`, on the message of the error
  pub on_model_error : Turn S → String → Turn S × String
  on_model_error turn message =
      if is_context_length_error message
      then replace_error message
          (compact_request env turn (or_zero (estimate_request_tokens env turn turn.contents)))
      else (turn, message)
