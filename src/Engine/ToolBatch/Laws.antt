-- ===== src/Engine/ToolBatch/Laws.antt =====
-- A mixed response is split without losing or reordering anything.
use materialmind.Common.{
  ◌≡◌, refl, sym, ap, ◌∙◌, Bool, true, false, ◌||◌, not, Option, none, some, List, [], ◌∷◌, map,
  filter, any, String, Option-cases, Bool-cases, arith, inl, inr,
}
use materialmind.Engine.ToolBatch.{
  CallPart, Parts, ModelResponse, ContextCodec, delegates, calls_ordinary, deferred_ids,
  filter_signature, filter_parts, split_parts, split_mixed_tool_batch,
}

-- A part without its signature.
abbrev pub erase : Option CallPart → Option CallPart
erase none = none
erase (some part) = some (record part { thought_signature = "" })

delegates-erase : (part : Option CallPart) → delegates (erase part) ≡ delegates part
delegates-erase none = refl
delegates-erase (some part) = refl

any-delegates-erase : (parts : Parts) → any delegates (map erase parts) ≡ any delegates parts
any-delegates-erase [] = refl
any-delegates-erase (p ∷ ps) = rw (delegates-erase p, any-delegates-erase ps) refl

any-filter : (parts : Parts) → any delegates (filter (λ part. not (delegates part)) parts) ≡ false
any-filter [] = refl
any-filter (p ∷ ps) = elim (Bool-cases (delegates p)) [
  | inl yes_it ↦ rw yes_it (any-filter ps)
  | inr no_it ↦ rw no_it (rw no_it (any-filter ps))
]

mixed_lem :
    (partial delegated ordinary : Bool)
    → (partial || not delegated || not ordinary) ≡ false
    → (partial ≡ false) × (delegated ≡ true) × (ordinary ≡ true)
mixed_lem partial delegated ordinary h = (ground arith, ground arith, ground arith)

module _ (codec : ContextCodec) where
  -- The filter changes signatures only.
  filter_parts-erase :
      (ids : List String) (parts kept : Parts)
      → filter_parts codec ids parts ≡ some kept
      → map erase kept ≡ map erase parts
  filter_parts-erase ids [] kept h =
      let same : [] ≡ kept = ground arith in ap (map erase) (sym same)
  filter_parts-erase ids (none ∷ parts) kept h =
      elim (Option-cases (filter_parts codec ids parts)) [
        | inl bad ↦ absurd (ground arith)
        | inr (rest, r) ↦
            let same : none ∷ rest ≡ kept = ground arith in
            sym (ap (map erase) same) ∙ ap (λ l. none ∷ l) (filter_parts-erase ids parts rest r)
      ]
  filter_parts-erase ids (some part ∷ parts) kept h =
      elim (Option-cases (filter_signature codec ids part.thought_signature)) [
        | inl bad ↦ absurd (ground arith)
        | inr (signature, e) ↦ elim (Option-cases (filter_parts codec ids parts)) [
          | inl bad ↦ absurd (ground arith)
          | inr (rest, r) ↦
              let same : some (record part { thought_signature = signature }) ∷ rest ≡ kept =
                ground arith in
              sym (ap (map erase) same)
              ∙ ap (λ l. erase (some part) ∷ l) (filter_parts-erase ids parts rest r)
        ]
      ]

  -- What a split gives of these parts.
  abbrev pub IsSplit : ModelResponse → Parts → ModelResponse → ModelResponse → Type 0
  IsSplit response parts immediate deferred =
      (kept : Parts) × (immediate ≡ record response { parts = some kept })
      × (map erase kept ≡ map erase (filter (λ part. not (delegates part)) parts))
      × (any delegates kept ≡ false)
      × (deferred.parts ≡ some (filter delegates parts))
      × (deferred.partial ≡ false)
      × (deferred.turn_complete ≡ true)
      × (deferred.role ≡ response.role)
      × (deferred.model_version ≡ response.model_version)
      × (deferred.finish_reason ≡ response.finish_reason)

  split_parts-IsSplit :
      (response : ModelResponse) (parts : Parts) (immediate deferred : ModelResponse)
      → split_parts codec response parts ≡ some (immediate, some deferred)
      → IsSplit response parts immediate deferred
  split_parts-IsSplit response parts immediate deferred h =
      let ordinary : Parts = filter (λ part. not (delegates part)) parts in
      elim (Option-cases (filter_parts codec (deferred_ids parts) ordinary)) [
        | inl bad ↦ absurd (ground arith)
        | inr (kept, k) ↦
            let same = filter_parts-erase (deferred_ids parts) ordinary kept k in
            (
              kept,
              ground arith,
              same,
              sym (any-delegates-erase kept)
                  ∙ ap (any delegates) same
                  ∙ any-delegates-erase ordinary
                  ∙ any-filter parts,
              ground arith,
              ground arith,
              ground arith,
              ground arith,
              ground arith,
              ground arith,
            )
      ]

  -- A response is split only if it is whole and mixes delegations with ordinary calls. The first
  -- half then has all its other parts, the second one all delegations, each in their order and
  -- changed in nothing but signatures, and only in the first half; no delegation is left in it, and
  -- the second one is whole and complete, with the role, the model and the finish of the response.
  pub split_mixed_tool_batch-IsSplit :
      (response : ModelResponse) (parts : Parts) (immediate deferred : ModelResponse)
      → response.parts ≡ some parts
      → split_mixed_tool_batch codec response ≡ some (immediate, some deferred)
      → (response.partial ≡ false)
        × (any delegates parts ≡ true)
        × (any calls_ordinary parts ≡ true)
        × IsSplit response parts immediate deferred
  unfolding split_mixed_tool_batch
  split_mixed_tool_batch-IsSplit response parts immediate deferred has h =
      elim (Bool-cases
        (response.partial || not (any delegates parts) || not (any calls_ordinary parts))) [
          | inl unmixed ↦ absurd (ground arith)
          | inr mixed ↦
              let (whole, delegated, ordinary) =
                mixed_lem response.partial (any delegates parts) (any calls_ordinary parts) mixed in
              (
                whole,
                delegated,
                ordinary,
                split_parts-IsSplit response parts immediate deferred (ground arith),
              )
        ]
