-- ===== src/Engine/Compaction/Request/Notices.antt =====
-- Each compaction that is seen to start is seen to end.
use materialmind.Common.{
  ℕ, ◌≡◌, refl, Bool, true, false, ◌||◌, String, Option, none, some, List, [], ◌∷◌, ◌++◌, ◌⊎◌, inl,
  inr, if◌then◌else◌, ltb, leb, ◌==◌, length, take, drop, Bool-cases, ◌-◌,
}
use materialmind.Common.Int64.{slt}
use materialmind.Engine.Compaction.Contents.{Contents, contents_with_context_summary}
use materialmind.Engine.Compaction.Cut.{Cut, compaction_cut}
use materialmind.Engine.Compaction.Budget.{input_budget_tokens}
use materialmind.Engine.Compaction.Checkpoint.{
  Stored, Loaded, Environment, content_digest, load_checkpoint, save_checkpoint,
}
use materialmind.Engine.Compaction.Request.{
  CompactionError, CompactionUpdate, Status, Turn, content_tokens, fixed_tokens, reserve, send,
  estimate_input_tokens, complete_update, replace_prefix, save_prefix, with_summary, advance_prefix,
  cut_working, reuse_checkpoint, compact_loaded, compact_request, trigger_tokens,
  estimate_request_tokens, fallback_summary, started, notify, next_count,
}

-- Whether this is the last status of a compaction with this error.
abbrev pub ends : Status → Option CompactionError → Bool
ends Status.running error = false
ends Status.completed none = true
ends Status.completed (some error) = false
ends Status.failed none = false
ends Status.failed (some error) = true
ends Status.cancelled none = false
ends Status.cancelled (some error) = true

ends_failed :
    (canceled : Bool) (error : CompactionError)
    → ends (if canceled then Status.cancelled else Status.failed) (some error) ≡ true
ends_failed true error = refl
ends_failed false error = refl

-- One update follows these, the last one of a compaction of this number of contents.
abbrev pub Ends :
    List CompactionUpdate → ℕ → List CompactionUpdate → Option CompactionError → Type 0
Ends before count after error =
    (last : CompactionUpdate) × (after ≡ before ++ last ∷ [])
    × (ends last.status error ≡ true)
    × (last.summarized_contents ≡ count)

-- Nothing was sent, or an update that a compaction runs, and then its last one.
abbrev pub Announced :
    List CompactionUpdate → List CompactionUpdate → Option CompactionError → Type 0
Announced before after error =
    (after ≡ before)
    ⊎ ((first : CompactionUpdate) × (first.status ≡ Status.running)
        × Ends (before ++ first ∷ []) first.summarized_contents after error)

module _ {S : Type 0} (env : Environment S) where
  complete_update-Ends :
      (update : CompactionUpdate) (turn : Turn S) (tokens : Option ℕ)
      → Ends turn.updates update.summarized_contents
          ((complete_update env update turn tokens).0.updates)
          ((complete_update env update turn tokens).1)
  complete_update-Ends update turn none = (
    record update { status = Status.failed; error = some CompactionError.estimate_failed },
    refl,
    refl,
    refl,
  )
  complete_update-Ends update turn (some tokens) = (
    record update { status = Status.completed; estimated_tokens_after = tokens },
    refl,
    refl,
    refl,
  )

  replace_prefix-Ends :
      (update : CompactionUpdate) (turn : Turn S) (original : Contents) (summary : String)
      (count : ℕ) (result : Stored S)
      → Ends turn.updates update.summarized_contents
          ((replace_prefix env update turn original summary count result).0.updates)
          ((replace_prefix env update turn original summary count result).1)
  replace_prefix-Ends update turn original summary count (Stored.refused canceled) = (
    record update {
      status = if canceled then Status.cancelled else Status.failed;
      error = some CompactionError.save_failed;
    },
    refl,
    ends_failed canceled CompactionError.save_failed,
    refl,
  )
  replace_prefix-Ends update turn original summary count (Stored.stored state) =
      let sent : Turn S =
        send env (record turn { state = state })
          (contents_with_context_summary summary (drop count original)) in
      complete_update-Ends update sent (estimate_request_tokens env sent (sent.contents))

  save_prefix-Ends :
      (update : CompactionUpdate) (turn : Turn S) (original : Contents) (summary : String)
      (count : ℕ) (digest : Option String)
      → Ends turn.updates update.summarized_contents
          ((save_prefix env update turn original summary count digest).0.updates)
          ((save_prefix env update turn original summary count digest).1)
  save_prefix-Ends update turn original summary count none = (
    record update { status = Status.failed; error = some CompactionError.digest_failed },
    refl,
    refl,
    refl,
  )
  save_prefix-Ends update turn original summary count (some digest) =
      replace_prefix-Ends update turn original summary count (
        save_checkpoint env turn.state (record {
          version = 1;
          prefix_content_count = count;
          prefix_digest = digest;
          summary = summary;
        }))

  with_summary-Ends :
      (update : CompactionUpdate) (turn : Turn S) (original : Contents) (count : ℕ)
      (summary : Option String)
      → Ends turn.updates update.summarized_contents
          ((with_summary env update turn original count summary).0.updates)
          ((with_summary env update turn original count summary).1)
  with_summary-Ends update turn original count none =
      save_prefix-Ends (record update { summarize_failed = true }) turn original fallback_summary
        count (content_digest env (take count original))
  with_summary-Ends update turn original count (some summary) =
      save_prefix-Ends update turn original summary count (content_digest env (take count original))

  advance_prefix-Announced :
      (turn : Turn S) (estimated : ℕ) (working : Contents) (prefix inserted : ℕ)
      (has_checkpoint : Bool) (result : Cut)
      → Announced turn.updates
          ((advance_prefix env turn estimated working prefix inserted has_checkpoint
            result).0.updates)
          ((advance_prefix env turn estimated working prefix inserted has_checkpoint result).1)
  advance_prefix-Announced turn estimated working prefix inserted has_checkpoint
        Cut.estimate_failed =
      inl refl
  advance_prefix-Announced turn estimated working prefix inserted has_checkpoint Cut.over_budget =
      inl refl
  advance_prefix-Announced turn estimated working prefix inserted has_checkpoint (Cut.cut_at cut) =
      let count : ℕ = next_count prefix inserted has_checkpoint cut in
      elim (Bool-cases (cut == 0)) [
        | inl nothing ↦ rw nothing (inl refl)
        | inr something ↦ elim (Bool-cases (leb count prefix || ltb (length turn.contents) count)) [
          | inl bad ↦ rw (something, bad) (inl refl)
          | inr good ↦
              rw (something, good)
                (inr (
                  started env turn estimated count,
                  refl,
                  with_summary-Ends (started env turn estimated count)
                      (notify env (started env turn estimated count) turn) turn.contents count
                      (env.summarize (take cut working)),
                ))
        ]
      ]

  cut_working-Announced :
      (turn : Turn S) (estimated : ℕ) (working : Contents) (prefix inserted : ℕ)
      (has_checkpoint : Bool)
      → Announced turn.updates
          ((cut_working env turn estimated working prefix inserted has_checkpoint).0.updates)
          ((cut_working env turn estimated working prefix inserted has_checkpoint).1)
  cut_working-Announced turn estimated working prefix inserted has_checkpoint =
      advance_prefix-Announced turn estimated working prefix inserted has_checkpoint (
        compaction_cut (content_tokens env) (fixed_tokens env turn)
          (input_budget_tokens turn.compactor.max_context_tokens (reserve env turn))
          turn.compactor.summary_output_tokens working has_checkpoint)

  reuse_checkpoint-Announced :
      (turn : Turn S) (estimated : ℕ) (working : Contents) (prefix inserted : ℕ) (tokens : Option ℕ)
      → Announced turn.updates
          ((reuse_checkpoint env turn estimated working prefix inserted tokens).0.updates)
          ((reuse_checkpoint env turn estimated working prefix inserted tokens).1)
  reuse_checkpoint-Announced turn estimated working prefix inserted none = inl refl
  reuse_checkpoint-Announced turn estimated working prefix inserted (some tokens) =
      elim (Bool-cases (slt tokens (trigger_tokens env turn))) [
        | inl below ↦ rw below (inl refl)
        | inr above ↦ rw above (cut_working-Announced turn estimated working prefix inserted true)
      ]

  compact_loaded-Announced :
      (turn : Turn S) (estimated : ℕ) (loaded : Loaded)
      → Announced turn.updates
          ((compact_loaded env turn estimated loaded).0.updates)
          ((compact_loaded env turn estimated loaded).1)
  compact_loaded-Announced turn estimated Loaded.load_failed = inl refl
  compact_loaded-Announced turn estimated Loaded.absent =
      cut_working-Announced turn estimated turn.contents 0 0 false
  compact_loaded-Announced turn estimated (Loaded.found checkpoint) =
      let prefix : ℕ = checkpoint.prefix_content_count in
      let working : Contents =
        contents_with_context_summary checkpoint.summary (drop prefix turn.contents) in
      let retained : ℕ = length turn.contents - prefix in
      elim (Bool-cases (ltb (length working) retained || ltb 1 (length working - retained))) [
        | inl bad ↦ rw bad (inl refl)
        | inr fine ↦ rw fine (
            reuse_checkpoint-Announced turn estimated working prefix (length working - retained)
              (estimate_input_tokens env turn working))
      ]

  -- Compaction sends no update, or exactly two of one number of contents: that it runs, and then
  -- that it completed, when it returns no error, or that it failed or was cancelled, when it does.
  pub compact_request-Announced :
      (turn : Turn S) (estimated : ℕ)
      → Announced turn.updates
          ((compact_request env turn estimated).0.updates)
          ((compact_request env turn estimated).1)
  unfolding compact_request
  compact_request-Announced turn estimated =
      compact_loaded-Announced turn estimated (load_checkpoint env turn.state turn.contents)
