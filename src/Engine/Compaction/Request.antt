-- ===== src/Engine/Compaction/Request.antt =====
-- The compaction of one request: `compactRequest` of `contextCompactor`. A `Turn` is what these change: the
-- request's contents, the compactor, the session's state and the updates sent to `onUpdate`.
-- The compactor, its summarizer and the request are not nil.
pub mod Laws
pub mod Hooks
pub mod Notices
pub mod Resume
pub mod Sent
use materialmind.Common.{
  ℕ, ◌+◌, ◌-◌, ◌%◌, ◌^◌, ◌≡◌, String, Bool, true, false, ◌&&◌, ◌||◌, not, Option, none, some, List,
  [], ◌∷◌, ◌++◌, if◌then◌else◌, ltb, leb, ◌==◌, str_eq, length, take, drop, ◌>>=◌,
}
use materialmind.Common.Int64.{add64, slt}
use materialmind.Engine.Compaction.Budget.{
  json_tokens, output_token_reserve, input_budget_tokens, compaction_trigger_tokens,
  summary_token_limit,
}
use materialmind.Engine.Compaction.Contents.{Content, Contents, contents_with_context_summary}
use materialmind.Engine.Compaction.Cut.{Cut, compaction_cut}
use materialmind.Engine.Compaction.Checkpoint.{
  Checkpoint, UsageRecord, Got, Stored, Loaded, Environment, usage_key, content_digest,
  load_checkpoint, save_checkpoint, checkpointed_contents,
}

pub record ContextCompactor : Type 0 where
  pub max_context_tokens : ℕ
  pub max_output_tokens : ℕ
  pub summary_output_tokens : ℕ
  pub last_sent_contents_count : ℕ
  pub last_sent_last_digest : String
  pub measured_prompt_tokens : ℕ

-- `newContextCompactor`
abbrev pub new_context_compactor : ℕ → ℕ → ContextCompactor
new_context_compactor max_context_tokens max_output_tokens = record {
  max_context_tokens = max_context_tokens;
  max_output_tokens = max_output_tokens;
  summary_output_tokens = summary_token_limit max_context_tokens;
  last_sent_contents_count = 0;
  last_sent_last_digest = "";
  measured_prompt_tokens = 0;
}

pub data CompactionError : Type 0 where
  load_failed estimate_failed over_budget digest_failed save_failed : CompactionError
  invalid_summary_count invalid_advance : CompactionError

pub data Status : Type 0 where
  running completed failed cancelled : Status

-- The ID is made of the invocation and `summarized_contents`; of a failed summarizer the update
-- has only that it failed.
pub record CompactionUpdate : Type 0 where
  pub status : Status
  pub estimated_tokens_before : ℕ
  pub estimated_tokens_after : ℕ
  pub max_context_tokens : ℕ
  pub summarized_contents : ℕ
  pub summarize_failed : Bool
  pub error : Option CompactionError

-- `fixed_size` is the size of the model's name and the configuration in JSON, and
-- `configured_output_tokens` the configured allowance, 0 if there is none.
pub record Turn (S : Type 0) : Type 0 where
  pub contents : Contents
  pub fixed_size : Option ℕ
  pub configured_output_tokens : ℕ
  pub compactor : ContextCompactor
  pub state : S
  pub updates : List CompactionUpdate

abbrev pub Outcome : Type 0 → Type 0
Outcome S = Turn S × Option CompactionError

abbrev pub fallback_summary : String
fallback_summary =
    "Earlier conversation context was dropped because it could not be summarized. Continue from the remaining conversation and re-inspect the workspace when earlier details are needed."

-- The number of contents that are summarized after a cut.
abbrev pub next_count : ℕ → ℕ → Bool → ℕ → ℕ
next_count prefix inserted has_checkpoint cut =
    if has_checkpoint then prefix + cut - inserted else cut

module _ {S : Type 0} (env : Environment S) where
  -- `estimateJSONTokens` of a content
  abbrev pub content_tokens : Option Content → Option ℕ
  content_tokens content =
      env.encode_content content >>= (λ encoded. some (json_tokens (length encoded)))

  -- `estimateFixedTokens`
  abbrev pub fixed_tokens : Turn S → Option ℕ
  fixed_tokens turn = turn.fixed_size >>= (λ size. some (json_tokens size))

  -- A sum of tokens, and the contents that are added to it.
  abbrev pub sum_tokens : ℕ → Contents → Option ℕ
  sum_tokens sum [] = some sum
  sum_tokens sum (content ∷ contents) =
      content_tokens content >>= (λ tokens. sum_tokens (add64 sum tokens) contents)

  -- `estimateInputTokens`
  abbrev pub estimate_input_tokens : Turn S → Contents → Option ℕ
  estimate_input_tokens turn contents = fixed_tokens turn >>= (λ fixed. sum_tokens fixed contents)

  abbrev pub reserve : Turn S → ℕ
  reserve turn = output_token_reserve turn.configured_output_tokens turn.compactor.max_output_tokens

  -- `estimateRequestTokens`
  abbrev pub estimate_request_tokens : Turn S → Contents → Option ℕ
  estimate_request_tokens turn contents =
      estimate_input_tokens turn contents >>= (λ tokens. some (add64 tokens (reserve turn)))

  abbrev pub trigger_tokens : Turn S → ℕ
  trigger_tokens turn = compaction_trigger_tokens turn.compactor.max_context_tokens (reserve turn)

  abbrev pub record_digest : ContextCompactor → ℕ → Option String → ContextCompactor
  record_digest c count none = record c {
    last_sent_contents_count = 0;
    last_sent_last_digest = "";
    measured_prompt_tokens = 0;
  }
  record_digest c count (some digest) = record c {
    last_sent_contents_count = count;
    last_sent_last_digest = digest;
    measured_prompt_tokens = 0;
  }

  -- `recordSentRequest`
  abbrev pub record_sent_request : ContextCompactor → Contents → ContextCompactor
  record_sent_request c [] = record_digest c 0 none
  record_sent_request c (content ∷ contents) =
      record_digest c (length (content ∷ contents))
        (content_digest env (drop (length contents) (content ∷ contents)))

  -- The request goes out with these contents.
  abbrev pub send : Turn S → Contents → Turn S
  send turn contents = record turn {
    contents = contents;
    compactor = record_sent_request turn.compactor contents;
  }

  -- `notify`
  abbrev pub notify : CompactionUpdate → Turn S → Turn S
  notify update turn = record turn { updates = turn.updates ++ update ∷ [] }

  -- The deferred notice of `compactRequest`, and its error.
  abbrev pub fail : CompactionUpdate → Status → CompactionError → Turn S → Outcome S
  fail update status error turn =
      (notify (record update { status = status; error = some error }) turn, some error)

  -- The end of `compactRequest`, on the estimate for the new contents.
  abbrev pub complete_update : CompactionUpdate → Turn S → Option ℕ → Outcome S
  complete_update update turn none = fail update Status.failed CompactionError.estimate_failed turn
  complete_update update turn (some tokens) = (
    notify (record update { status = Status.completed; estimated_tokens_after = tokens }) turn,
    none,
  )

  abbrev pub replace_prefix :
      CompactionUpdate → Turn S → Contents → String → ℕ → Stored S → Outcome S
  replace_prefix update turn original summary count (Stored.refused canceled) =
      fail update (if canceled then Status.cancelled else Status.failed) CompactionError.save_failed
        turn
  replace_prefix update turn original summary count (Stored.stored state) =
      let sent =
        send (record turn { state = state })
          (contents_with_context_summary summary (drop count original)) in
      complete_update update sent (estimate_request_tokens sent sent.contents)

  abbrev pub save_prefix :
      CompactionUpdate → Turn S → Contents → String → ℕ → Option String → Outcome S
  save_prefix update turn original summary count none =
      fail update Status.failed CompactionError.digest_failed turn
  save_prefix update turn original summary count (some digest) =
      replace_prefix update turn original summary count (
        save_checkpoint env turn.state (record {
          version = 1;
          prefix_content_count = count;
          prefix_digest = digest;
          summary = summary;
        }))

  -- From the summarizer's answer on.
  abbrev pub with_summary : CompactionUpdate → Turn S → Contents → ℕ → Option String → Outcome S
  with_summary update turn original count none =
      save_prefix (record update { summarize_failed = true }) turn original fallback_summary count
        (content_digest env (take count original))
  with_summary update turn original count (some summary) =
      save_prefix update turn original summary count (content_digest env (take count original))

  -- The first update.
  abbrev pub started : Turn S → ℕ → ℕ → CompactionUpdate
  started turn estimated_tokens count = record {
    status = Status.running;
    estimated_tokens_before = estimated_tokens;
    estimated_tokens_after = 0;
    max_context_tokens = turn.compactor.max_context_tokens;
    summarized_contents = count;
    summarize_failed = false;
    error = none;
  }

  -- From the first notice on: the first `count` contents are summarized.
  abbrev pub summarize_prefix : Turn S → ℕ → Contents → ℕ → ℕ → Outcome S
  summarize_prefix turn estimated_tokens working cut count =
      with_summary (started turn estimated_tokens count)
        (notify (started turn estimated_tokens count) turn) turn.contents count
        (env.summarize (take cut working))

  -- The new number of summarized contents, from a cut in the working contents.
  abbrev pub advance_prefix : Turn S → ℕ → Contents → ℕ → ℕ → Bool → Cut → Outcome S
  advance_prefix turn estimated_tokens working prefix inserted has_checkpoint Cut.estimate_failed =
      (turn, some CompactionError.estimate_failed)
  advance_prefix turn estimated_tokens working prefix inserted has_checkpoint Cut.over_budget =
      (turn, some CompactionError.over_budget)
  advance_prefix turn estimated_tokens working prefix inserted has_checkpoint (Cut.cut_at cut) =
      let count = next_count prefix inserted has_checkpoint cut in
      if cut == 0
      then (send turn working, none)
      else if leb count prefix || ltb (length turn.contents) count
      then (turn, some CompactionError.invalid_advance)
      else summarize_prefix turn estimated_tokens working cut count

  -- `compactRequest` from the cut on.
  abbrev pub cut_working : Turn S → ℕ → Contents → ℕ → ℕ → Bool → Outcome S
  cut_working turn estimated_tokens working prefix inserted has_checkpoint =
      advance_prefix turn estimated_tokens working prefix inserted has_checkpoint (
        compaction_cut content_tokens (fixed_tokens turn)
          (input_budget_tokens turn.compactor.max_context_tokens (reserve turn))
          turn.compactor.summary_output_tokens working has_checkpoint)

  -- A checkpoint applies, and this is the estimate for the contents with its summary.
  abbrev pub reuse_checkpoint : Turn S → ℕ → Contents → ℕ → ℕ → Option ℕ → Outcome S
  reuse_checkpoint turn estimated_tokens working prefix inserted none =
      (turn, some CompactionError.estimate_failed)
  reuse_checkpoint turn estimated_tokens working prefix inserted (some tokens) =
      if slt tokens (trigger_tokens turn)
      then (send turn working, none)
      else cut_working turn estimated_tokens working prefix inserted true

  abbrev pub compact_loaded : Turn S → ℕ → Loaded → Outcome S
  compact_loaded turn estimated_tokens Loaded.absent =
      cut_working turn estimated_tokens turn.contents 0 0 false
  compact_loaded turn estimated_tokens Loaded.load_failed = (turn, some CompactionError.load_failed)
  compact_loaded turn estimated_tokens (Loaded.found checkpoint) =
      let prefix = checkpoint.prefix_content_count in
      let working = contents_with_context_summary checkpoint.summary (drop prefix turn.contents) in
      let retained = length turn.contents - prefix in
      if ltb (length working) retained || ltb 1 (length working - retained)
      then (turn, some CompactionError.invalid_summary_count)
      else reuse_checkpoint turn estimated_tokens working prefix (length working - retained)
          (estimate_input_tokens turn working)

  -- `compactRequest`
  unfoldable pub compact_request : Turn S → ℕ → Outcome S
  compact_request turn estimated_tokens =
      compact_loaded turn estimated_tokens (load_checkpoint env turn.state turn.contents)
