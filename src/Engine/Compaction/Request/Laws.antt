-- ===== src/Engine/Compaction/Request/Laws.antt =====
-- Compaction never fails for an inner reason, and a run of it that starts is seen to end.
use materialmind.Common.{
  ℕ, min, ◌+◌, ◌-◌, ◌≤◌, ◌<◌, ◌≡◌, refl, ap, ◌∙◌, String, Bool, true, false, ◌&&◌, ◌||◌, Option,
  none, some, ◌⊎◌, inl, inr, arith, ltb, leb, ◌==◌, length, take, drop, Bool-cases, length-drop,
}
use materialmind.Common.Int64.{slt}
use materialmind.Engine.Compaction.Contents.{Contents, contents_with_context_summary}
use materialmind.Engine.Compaction.Contents.Laws.{contents_with_context_summary_cases}
use materialmind.Engine.Compaction.Cut.{Cut, compaction_cut, minimum_cut}
use materialmind.Engine.Compaction.Cut.Laws.{compaction_cut_bounds}
use materialmind.Engine.Compaction.Budget.{input_budget_tokens}
use materialmind.Engine.Compaction.Checkpoint.{
  Checkpoint, Stored, Loaded, Environment, content_digest, load_checkpoint, save_checkpoint,
  is_plausible,
}
use materialmind.Engine.Compaction.Checkpoint.Laws.{load_checkpoint-plausible}
use materialmind.Engine.Compaction.Request.{
  CompactionError, CompactionUpdate, Turn, content_tokens, fixed_tokens, reserve, send,
  estimate_input_tokens, complete_update, replace_prefix, save_prefix, with_summary, advance_prefix,
  cut_working, reuse_checkpoint, compact_loaded, compact_request, trigger_tokens,
  estimate_request_tokens, fallback_summary, started, notify, next_count,
}

-- The errors that stand for a broken invariant of compaction itself.
abbrev pub is_inner : Option CompactionError → Bool
is_inner none = false
is_inner (some CompactionError.invalid_summary_count) = true
is_inner (some CompactionError.invalid_advance) = true
is_inner (some CompactionError.load_failed) = false
is_inner (some CompactionError.estimate_failed) = false
is_inner (some CompactionError.over_budget) = false
is_inner (some CompactionError.digest_failed) = false
is_inner (some CompactionError.save_failed) = false

advances :
    (cut prefix count all : ℕ)
    → (cut == 0) ≡ false
    → (leb count prefix || ltb all count) ≡ true
    → (cut ≡ 0) ⊎ ((prefix < count) × (count ≤ all))
    → ⊥
advances cut prefix count all something bad h = ground arith

long_enough : (n : ℕ) → ltb n 2 ≡ false → 2 ≤ n
long_enough n h = ground arith

inside_prefix :
    (checkpoint : Checkpoint) (count : ℕ)
    → is_plausible checkpoint count ≡ true
    → checkpoint.prefix_content_count ≤ count
inside_prefix checkpoint count plausible = ground arith

length-contents_with_context_summary :
    (summary : String) (suffix : Contents)
    → (length suffix ≤ length (contents_with_context_summary summary suffix))
      × (length (contents_with_context_summary summary suffix) ≤ length suffix + 1)
length-contents_with_context_summary summary suffix =
    elim (contents_with_context_summary_cases summary suffix) [
      | inl apart ↦
          let sum : length (contents_with_context_summary summary suffix) ≡ length suffix + 1 =
            ap length apart ∙ omega arith in
          (omega (arith, sum), omega (arith, sum))
      | inr (same, some_contents) ↦ (omega (arith, same), omega (arith, same))
    ]

module _ {S : Type 0} (env : Environment S) where
  complete_update-inner :
      (update : CompactionUpdate) (turn : Turn S) (tokens : Option ℕ)
      → is_inner ((complete_update env update turn tokens).1) ≡ false
  complete_update-inner update turn none = refl
  complete_update-inner update turn (some tokens) = refl

  replace_prefix-inner :
      (update : CompactionUpdate) (turn : Turn S) (original : Contents) (summary : String)
      (count : ℕ) (result : Stored S)
      → is_inner ((replace_prefix env update turn original summary count result).1) ≡ false
  replace_prefix-inner update turn original summary count (Stored.refused canceled) = refl
  replace_prefix-inner update turn original summary count (Stored.stored state) =
      let sent : Turn S =
        send env (record turn { state = state })
          (contents_with_context_summary summary (drop count original)) in
      complete_update-inner update sent (estimate_request_tokens env sent (sent.contents))

  save_prefix-inner :
      (update : CompactionUpdate) (turn : Turn S) (original : Contents) (summary : String)
      (count : ℕ) (digest : Option String)
      → is_inner ((save_prefix env update turn original summary count digest).1) ≡ false
  save_prefix-inner update turn original summary count none = refl
  save_prefix-inner update turn original summary count (some digest) =
      replace_prefix-inner update turn original summary count (
        save_checkpoint env turn.state (record {
          version = 1;
          prefix_content_count = count;
          prefix_digest = digest;
          summary = summary;
        }))

  with_summary-inner :
      (update : CompactionUpdate) (turn : Turn S) (original : Contents) (count : ℕ)
      (summary : Option String)
      → is_inner ((with_summary env update turn original count summary).1) ≡ false
  with_summary-inner update turn original count none =
      save_prefix-inner (record update { summarize_failed = true }) turn original fallback_summary
        count (content_digest env (take count original))
  with_summary-inner update turn original count (some summary) =
      save_prefix-inner update turn original summary count
        (content_digest env (take count original))

  advance_prefix-inner :
      (turn : Turn S) (estimated : ℕ) (working : Contents) (prefix inserted : ℕ)
      (has_checkpoint : Bool) (result : Cut)
      → ((cut : ℕ)
          → result ≡ Cut.cut_at cut
          → (cut ≡ 0)
            ⊎ ((prefix < next_count prefix inserted has_checkpoint cut)
                × (next_count prefix inserted has_checkpoint cut ≤ length turn.contents)))
      → is_inner
          ((advance_prefix env turn estimated working prefix inserted has_checkpoint result).1)
        ≡ false
  advance_prefix-inner turn estimated working prefix inserted has_checkpoint Cut.estimate_failed h =
      refl
  advance_prefix-inner turn estimated working prefix inserted has_checkpoint Cut.over_budget h =
      refl
  advance_prefix-inner turn estimated working prefix inserted has_checkpoint (Cut.cut_at cut) h =
      let count : ℕ = next_count prefix inserted has_checkpoint cut in
      elim (Bool-cases (cut == 0)) [
        | inl nothing ↦ rw nothing refl
        | inr something ↦ elim (Bool-cases (leb count prefix || ltb (length turn.contents) count)) [
          | inl bad ↦
              absurd (advances cut prefix count (length turn.contents) something bad (h cut refl))
          | inr good ↦
              rw (something, good)
                (with_summary-inner (started env turn estimated count)
                  (notify env (started env turn estimated count) turn) turn.contents count
                  (env.summarize (take cut working)))
        ]
      ]

  cut_working-inner :
      (turn : Turn S) (estimated : ℕ) (working : Contents) (prefix inserted : ℕ)
      (has_checkpoint : Bool)
      → ((cut : ℕ)
          → cut ≤ length working
          → min (minimum_cut has_checkpoint) (length working) ≤ cut
          → (has_checkpoint && ltb (length working) 2) ≡ false
          → (cut ≡ 0)
            ⊎ ((prefix < next_count prefix inserted has_checkpoint cut)
                × (next_count prefix inserted has_checkpoint cut ≤ length turn.contents)))
      → is_inner ((cut_working env turn estimated working prefix inserted has_checkpoint).1) ≡ false
  cut_working-inner turn estimated working prefix inserted has_checkpoint h =
      let budget : ℕ = input_budget_tokens turn.compactor.max_context_tokens (reserve env turn) in
      let summary_output : ℕ = turn.compactor.summary_output_tokens in
      advance_prefix-inner turn estimated working prefix inserted has_checkpoint
        (compaction_cut (content_tokens env) (fixed_tokens env turn) budget summary_output working
          has_checkpoint)
        (λ cut e.
          let (high, low, long) =
            compaction_cut_bounds (content_tokens env) (fixed_tokens env turn) budget summary_output
              working has_checkpoint cut e in
          h cut high low long)

  reuse_checkpoint-inner :
      (turn : Turn S) (estimated : ℕ) (working : Contents) (prefix inserted : ℕ) (tokens : Option ℕ)
      → inserted ≤ 1
      → prefix ≤ length turn.contents
      → length working ≡ length turn.contents - prefix + inserted
      → is_inner ((reuse_checkpoint env turn estimated working prefix inserted tokens).1) ≡ false
  reuse_checkpoint-inner turn estimated working prefix inserted none few inside sum = refl
  reuse_checkpoint-inner turn estimated working prefix inserted (some tokens) few inside sum =
      elim (Bool-cases (slt tokens (trigger_tokens env turn))) [
        | inl below ↦ rw below refl
        | inr above ↦ rw above (
            cut_working-inner turn estimated working prefix inserted true (λ cut high low long.
              inr (omega (arith, low, long_enough (length working) long), omega arith)))
      ]

  compact_loaded-inner :
      (turn : Turn S) (estimated : ℕ) (loaded : Loaded)
      → ((checkpoint : Checkpoint)
          → loaded ≡ Loaded.found checkpoint
          → is_plausible checkpoint (length turn.contents) ≡ true)
      → is_inner ((compact_loaded env turn estimated loaded).1) ≡ false
  compact_loaded-inner turn estimated Loaded.load_failed plausible = refl
  compact_loaded-inner turn estimated Loaded.absent plausible =
      cut_working-inner turn estimated turn.contents 0 0 false (λ cut high low long. ground arith)
  compact_loaded-inner turn estimated (Loaded.found checkpoint) plausible =
      let prefix : ℕ = checkpoint.prefix_content_count in
      let suffix : Contents = drop prefix turn.contents in
      let working : Contents = contents_with_context_summary checkpoint.summary suffix in
      let retained : ℕ = length turn.contents - prefix in
      let inside : prefix ≤ length turn.contents =
        inside_prefix checkpoint (length turn.contents) (plausible checkpoint refl) in
      let (more, few) = length-contents_with_context_summary checkpoint.summary suffix in
      let kept = length-drop prefix turn.contents in
      let fine : (ltb (length working) retained || ltb 1 (length working - retained)) ≡ false =
        ground arith in
      rw fine (
        reuse_checkpoint-inner turn estimated working prefix (length working - retained)
          (estimate_input_tokens env turn working) (omega arith) inside (omega arith))

  -- Compaction never fails with an invalid number of summary contents, nor with an invalid advance
  -- of its checkpoint, whatever the state, the contents, the encodings and the summarizer are.
  pub compact_request-inner :
      (turn : Turn S) (estimated : ℕ) → is_inner ((compact_request env turn estimated).1) ≡ false
  unfolding compact_request
  compact_request-inner turn estimated =
      compact_loaded-inner turn estimated (load_checkpoint env turn.state turn.contents)
        (λ checkpoint found.
          load_checkpoint-plausible env turn.state turn.contents checkpoint found)
