-- ===== src/Engine/Compaction/Request/Sent.antt =====
-- What goes out after `beforeModel`.
use materialmind.Common.{
  ℕ, ◌≡◌, refl, ◌⊎◌, inl, inr, Bool, true, false, ◌&&◌, Option, none, some, ◌==◌, Option-cases,
  arith,
}
use materialmind.Common.Int64.{slt}
use materialmind.Engine.Compaction.Checkpoint.{Environment, checkpointed_contents}
use materialmind.Engine.Compaction.Request.{
  Turn, Outcome, CompactionError, compact_request, estimate_request_tokens, reserve, trigger_tokens,
  record_sent_request,
}
use materialmind.Engine.Compaction.Request.Laws.{is_inner, compact_request-inner}
use materialmind.Engine.Compaction.Request.Notices.{Announced, compact_request-Announced}
use materialmind.Engine.Compaction.Request.Resume.{Lawful, compact_request-resumes}
use materialmind.Engine.Compaction.Request.Hooks.{
  sub64, smax, decide_compaction, before_estimated, before_model, projected_input_tokens,
}

-- A maximum is below what both are below.
smax_below : (a b t : ℕ) → slt (smax a b) t ≡ (slt a t && slt b t)
smax_below a b t = ground arith

module _ {S : Type 0} (env : Environment S) where
  -- The input and its projection are below the trigger.
  abbrev pub has_room : Turn S → ℕ → Bool
  has_room turn full_tokens =
      slt (sub64 full_tokens (reserve env turn)) (trigger_tokens env turn)
      && slt (projected_input_tokens env turn (checkpointed_contents env turn.state turn.contents))
          (trigger_tokens env turn)

  -- With room, the original contents, and otherwise an error or what the checkpoint in the state
  -- after it makes of them.
  abbrev pub SentWith : Bool → Turn S → Outcome S → Type 0
  SentWith true turn outcome =
      (outcome.1 ≡ none)
      × (outcome.0.contents ≡ turn.contents)
      × (outcome.0.state ≡ turn.state)
      × (outcome.0.updates ≡ turn.updates)
      × (outcome.0.compactor ≡ record_sent_request env turn.compactor turn.contents)
  SentWith false turn outcome =
      (is_inner outcome.1 ≡ false)
      × Announced turn.updates outcome.0.updates outcome.1
      × (((outcome.1 ≡ none)
            × (outcome.0.contents ≡ checkpointed_contents env outcome.0.state turn.contents))
          ⊎ ((error : CompactionError) × (outcome.1 ≡ some error)))

  abbrev pub SentAt : Turn S → Option ℕ → Outcome S → Type 0
  SentAt turn none outcome = outcome ≡ (turn, some CompactionError.estimate_failed)
  SentAt turn (some full_tokens) outcome = SentWith (has_room turn full_tokens) turn outcome

  -- Without a limit of the context nothing happens.
  abbrev pub SentUnder : Bool → Turn S → Outcome S → Type 0
  SentUnder true turn outcome = outcome ≡ (turn, none)
  SentUnder false turn outcome =
      SentAt turn (estimate_request_tokens env turn turn.contents) outcome

  abbrev pub Sends : Turn S → Outcome S → Type 0
  Sends turn outcome = SentUnder (turn.compactor.max_context_tokens == 0) turn outcome

module _ {S : Type 0} (env : Environment S) (lawful : Lawful env) where
  compact_request-SentWith :
      (turn : Turn S) (tokens : ℕ) → SentWith env false turn (compact_request env turn tokens)
  compact_request-SentWith turn tokens = (
    compact_request-inner env turn tokens,
    compact_request-Announced env turn tokens,
    elim (Option-cases ((compact_request env turn tokens).1)) [
      | inl done ↦ inl (done, compact_request-resumes env lawful turn tokens done)
      | inr (error, e) ↦ inr (error, e)
    ],
  )

  decide_compaction-SentWith :
      (turn : Turn S) (full projected : ℕ) (room : Bool)
      → slt (smax (sub64 full (reserve env turn)) projected) (trigger_tokens env turn) ≡ room
      → SentWith env room turn (decide_compaction env turn full projected)
  decide_compaction-SentWith turn full projected true below =
      rw below (refl, refl, refl, refl, refl)
  decide_compaction-SentWith turn full projected false above =
      rw above (compact_request-SentWith turn full)

  before_estimated-SentAt :
      (turn : Turn S) (estimate : Option ℕ)
      → SentAt env turn estimate (before_estimated env turn estimate)
  before_estimated-SentAt turn none = refl
  before_estimated-SentAt turn (some full) =
      let projected =
        projected_input_tokens env turn (checkpointed_contents env turn.state turn.contents) in
      decide_compaction-SentWith turn full projected (has_room env turn full)
        (smax_below (sub64 full (reserve env turn)) projected (trigger_tokens env turn))

  before_model-SentUnder :
      (turn : Turn S) (is_unlimited : Bool)
      → (turn.compactor.max_context_tokens == 0) ≡ is_unlimited
      → SentUnder env is_unlimited turn (before_model env turn)
  unfolding before_model
  before_model-SentUnder turn true unlimited = rw unlimited refl
  before_model-SentUnder turn false limited =
      rw limited (before_estimated-SentAt turn (estimate_request_tokens env turn turn.contents))

  -- With a lawful environment, before a model call: without a limit of the context nothing happens,
  -- and without an estimate there is an error and nothing else. While both the estimated input and
  -- its projection from measured usage are below the trigger, the request goes out as it is, without
  -- an error, a notice or a change of the state, and is recorded as the last one sent. Otherwise
  -- either there is an error, never one of a broken invariant, or the request goes out with what the
  -- checkpoint in the state after it makes of its contents; and the notices it sends, if any, are of
  -- one compaction that starts and ends as the result says.
  pub before_model-Sends : (turn : Turn S) → Sends env turn (before_model env turn)
  before_model-Sends turn =
      before_model-SentUnder turn (turn.compactor.max_context_tokens == 0) refl
