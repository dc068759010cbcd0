-- ===== src/Engine/Compaction/Request/Resume.antt =====
-- What a compaction sends is what its checkpoint stands for.
use materialmind.Common.{
  ℕ, ◌-◌, ◌≤◌, ◌<◌, ◌≡◌, refl, sym, ap, ◌∙◌, String, Bool, true, false, ◌||◌, not, Option, none,
  some, [], inl, inr, ltb, leb, ◌==◌, str_eq, arith, length, take, drop, Bool-cases, append-nil,
}
use materialmind.Common.Int64.{slt}
use materialmind.Common.Text.{trim_space}
use materialmind.Engine.Compaction.Contents.{Contents, contents_with_context_summary}
use materialmind.Engine.Compaction.Cut.{Cut, compaction_cut}
use materialmind.Engine.Compaction.Budget.{input_budget_tokens}
use materialmind.Engine.Compaction.Checkpoint.{
  Checkpoint, Got, Stored, Loaded, Environment, content_digest, load_checkpoint, save_checkpoint,
  checkpointed_contents, contents_after,
}
use materialmind.Engine.Compaction.Checkpoint.Laws.{load-save_checkpoint}
use materialmind.Engine.Compaction.Request.{
  CompactionUpdate, Turn, Outcome, content_tokens, fixed_tokens, reserve, send,
  estimate_input_tokens, complete_update, replace_prefix, save_prefix, with_summary, advance_prefix,
  cut_working, reuse_checkpoint, compact_loaded, compact_request, trigger_tokens,
  estimate_request_tokens, fallback_summary, started, notify, next_count,
}

-- Without an error, the contents that go out are those that the state's checkpoint makes of the
-- original ones.
abbrev pub Resumes : {S : Type 0} → Environment S → Contents → Outcome S → Type 0
Resumes env original outcome =
    (outcome.1 ≡ none) → (outcome.0.contents ≡ checkpointed_contents env outcome.0.state original)

-- A text that is more than space.
abbrev pub is_visible : String → Bool
is_visible summary = not (str_eq (trim_space summary) "")

fallback_summary_visible : is_visible fallback_summary ≡ true
unfolding trim_space
fallback_summary_visible = refl

-- The state gives back what was written, a checkpoint survives its encoding, and the summarizer
-- fails rather than give a text without anything visible.
pub record Lawful {S : Type 0} (env : Environment S) : Type 0 where
  pub get_set :
      (s t : S) (k v : String) → env.set s k v ≡ Stored.stored t → env.get t k ≡ Got.text v
  pub decode_encode :
      (c : Checkpoint) (v : String)
      → env.encode_checkpoint c ≡ some v
      → env.decode_checkpoint v ≡ some c
  pub summarize_visible :
      (cs : Contents) (summary : String)
      → env.summarize cs ≡ some summary
      → is_visible summary ≡ true

advanced :
    (prefix count all : ℕ)
    → (leb count prefix || ltb all count) ≡ false
    → (0 < count) × (count ≤ all)
advanced prefix count all good = (ground arith, ground arith)

module _ {S : Type 0} (env : Environment S) where
  complete_update-Resumes :
      (update : CompactionUpdate) (turn : Turn S) (original : Contents) (tokens : Option ℕ)
      → turn.contents ≡ checkpointed_contents env turn.state original
      → Resumes env original (complete_update env update turn tokens)
  complete_update-Resumes update turn original none h done = h
  complete_update-Resumes update turn original (some tokens) h done = h

  replace_prefix-Resumes :
      (update : CompactionUpdate) (turn : Turn S) (original : Contents) (checkpoint : Checkpoint)
      (result : Stored S)
      → ((later : S)
          → result ≡ Stored.stored later
          → load_checkpoint env later original ≡ Loaded.found checkpoint)
      → Resumes env original (
          replace_prefix env update turn original checkpoint.summary checkpoint.prefix_content_count
            result)
  replace_prefix-Resumes update turn original checkpoint (Stored.refused canceled) h =
      λ done. absurd (ground arith)
  replace_prefix-Resumes update turn original checkpoint (Stored.stored state) h =
      let sent : Turn S =
        send env (record turn { state = state })
          (contents_with_context_summary checkpoint.summary
            (drop checkpoint.prefix_content_count original)) in
      complete_update-Resumes update sent original
        (estimate_request_tokens env sent (sent.contents))
        (sym (ap (contents_after env original) (h state refl)))

  module _ (lawful : Lawful env) where
    save_prefix-Resumes :
        (update : CompactionUpdate) (turn : Turn S) (original : Contents) (summary : String)
        (count : ℕ) (digest : Option String)
        → 0 < count
        → count ≤ length original
        → is_visible summary ≡ true
        → content_digest env (take count original) ≡ digest
        → Resumes env original (save_prefix env update turn original summary count digest)
    save_prefix-Resumes update turn original summary count none pos inside visible digested =
        λ done. absurd (ground arith)
    save_prefix-Resumes update turn original summary count (some digest) pos inside visible
          digested =
        let checkpoint : Checkpoint = record {
          version = 1;
          prefix_content_count = count;
          prefix_digest = digest;
          summary = summary;
        } in
        replace_prefix-Resumes update turn original checkpoint
          (save_checkpoint env turn.state checkpoint)
          (λ later saved.
            ap (load_checkpoint env later) (sym (append-nil original))
            ∙ load-save_checkpoint env lawful.get_set lawful.decode_encode turn.state later original
                [] checkpoint (ground arith) digested saved)

    with_summary-Resumes :
        (update : CompactionUpdate) (turn : Turn S) (original working : Contents) (count : ℕ)
        (summary : Option String)
        → 0 < count
        → count ≤ length original
        → env.summarize working ≡ summary
        → Resumes env original (with_summary env update turn original count summary)
    with_summary-Resumes update turn original working count none pos inside answer =
        save_prefix-Resumes (record update { summarize_failed = true }) turn original
          fallback_summary count (content_digest env (take count original)) pos inside
          fallback_summary_visible refl
    with_summary-Resumes update turn original working count (some summary) pos inside answer =
        save_prefix-Resumes update turn original summary count
          (content_digest env (take count original)) pos inside
          (lawful.summarize_visible working summary answer) refl

    advance_prefix-Resumes :
        (turn : Turn S) (estimated : ℕ) (working : Contents) (prefix inserted : ℕ)
        (has_checkpoint : Bool) (result : Cut)
        → working ≡ checkpointed_contents env turn.state turn.contents
        → Resumes env turn.contents
            (advance_prefix env turn estimated working prefix inserted has_checkpoint result)
    advance_prefix-Resumes turn estimated working prefix inserted has_checkpoint Cut.estimate_failed
          base =
        λ done. absurd (ground arith)
    advance_prefix-Resumes turn estimated working prefix inserted has_checkpoint Cut.over_budget
          base =
        λ done. absurd (ground arith)
    advance_prefix-Resumes turn estimated working prefix inserted has_checkpoint (Cut.cut_at cut)
          base =
        let count : ℕ = next_count prefix inserted has_checkpoint cut in
        elim (Bool-cases (cut == 0)) [
          | inl nothing ↦ rw nothing (λ done. base)
          | inr something ↦
              elim (Bool-cases (leb count prefix || ltb (length turn.contents) count)) [
                | inl bad ↦ rw (something, bad) (λ done. absurd (ground arith))
                | inr good ↦
                    let (pos, inside) = advanced prefix count (length turn.contents) good in
                    rw (something, good)
                      (with_summary-Resumes (started env turn estimated count)
                        (notify env (started env turn estimated count) turn) turn.contents
                        (take cut working) count (env.summarize (take cut working)) pos inside refl)
              ]
        ]

    cut_working-Resumes :
        (turn : Turn S) (estimated : ℕ) (working : Contents) (prefix inserted : ℕ)
        (has_checkpoint : Bool)
        → working ≡ checkpointed_contents env turn.state turn.contents
        → Resumes env turn.contents
            (cut_working env turn estimated working prefix inserted has_checkpoint)
    cut_working-Resumes turn estimated working prefix inserted has_checkpoint =
        advance_prefix-Resumes turn estimated working prefix inserted has_checkpoint (
          compaction_cut (content_tokens env) (fixed_tokens env turn)
            (input_budget_tokens turn.compactor.max_context_tokens (reserve env turn))
            turn.compactor.summary_output_tokens working has_checkpoint)

    reuse_checkpoint-Resumes :
        (turn : Turn S) (estimated : ℕ) (working : Contents) (prefix inserted : ℕ)
        (tokens : Option ℕ)
        → working ≡ checkpointed_contents env turn.state turn.contents
        → Resumes env turn.contents
            (reuse_checkpoint env turn estimated working prefix inserted tokens)
    reuse_checkpoint-Resumes turn estimated working prefix inserted none base =
        λ done. absurd (ground arith)
    reuse_checkpoint-Resumes turn estimated working prefix inserted (some tokens) base =
        elim (Bool-cases (slt tokens (trigger_tokens env turn))) [
          | inl below ↦ rw below (λ done. base)
          | inr above ↦
              rw above (cut_working-Resumes turn estimated working prefix inserted true base)
        ]

    compact_loaded-Resumes :
        (turn : Turn S) (estimated : ℕ) (loaded : Loaded)
        → load_checkpoint env turn.state turn.contents ≡ loaded
        → Resumes env turn.contents (compact_loaded env turn estimated loaded)
    compact_loaded-Resumes turn estimated Loaded.load_failed is_loaded =
        λ done. absurd (ground arith)
    compact_loaded-Resumes turn estimated Loaded.absent is_loaded =
        cut_working-Resumes turn estimated turn.contents 0 0 false
          (sym (ap (contents_after env turn.contents) is_loaded))
    compact_loaded-Resumes turn estimated (Loaded.found checkpoint) is_loaded =
        let prefix : ℕ = checkpoint.prefix_content_count in
        let working : Contents =
          contents_with_context_summary checkpoint.summary (drop prefix turn.contents) in
        let retained : ℕ = length turn.contents - prefix in
        elim (Bool-cases (ltb (length working) retained || ltb 1 (length working - retained))) [
          | inl bad ↦ rw bad (λ done. absurd (ground arith))
          | inr fine ↦ rw fine (
              reuse_checkpoint-Resumes turn estimated working prefix (length working - retained)
                (estimate_input_tokens env turn working)
                (sym (ap (contents_after env turn.contents) is_loaded)))
        ]

    -- With a lawful environment: after a compaction that returns no error, the contents that the
    -- request sends are exactly those that the checkpoint in the new state makes of the original
    -- contents, or the original ones if there is no checkpoint.
    pub compact_request-resumes :
        (turn : Turn S) (estimated : ℕ)
        → (compact_request env turn estimated).1 ≡ none
        → (compact_request env turn estimated).0.contents
          ≡ checkpointed_contents env ((compact_request env turn estimated).0.state) turn.contents
    unfolding compact_request
    compact_request-resumes turn estimated =
        compact_loaded-Resumes turn estimated (load_checkpoint env turn.state turn.contents) refl
