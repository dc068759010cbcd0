-- ===== src/Engine/ToolBatch.antt =====
-- Splitting a model response that mixes delegations with ordinary tool calls:
-- `splitMixedToolBatch` of internal/engine/tool_batch.go. A part is `none` for a nil pointer.
pub mod Laws
mod Tests
use Prim.Native.String.{◌++◌ as text_append}
use materialmind.Common.Text.{has_prefix}
use materialmind.Common.{
  ℕ, ◌≡◌, filter, map, length, ◌==◌, ◌>>=◌, String, Bool, true, false, ◌&&◌, ◌||◌, not, Option,
  none, some, List, [], ◌∷◌, if◌then◌else◌, str_eq, any,
}

pub record FunctionCall : Type 0 where
  pub name : String
  pub id : String

-- `other` stands for what is copied as it is.
pub record CallPart : Type 0 where
  pub function_call : Option FunctionCall
  pub thought_signature : String
  pub other : String

abbrev pub Parts : Type 0
Parts = List (Option CallPart)

-- `parts` is `none` if the response has no content, and `role` is the content's; `other` stands
-- for what only the first half keeps.
pub record ModelResponse : Type 0 where
  pub partial : Bool
  pub role : String
  pub parts : Option Parts
  pub model_version : String
  pub finish_reason : String
  pub turn_complete : Bool
  pub other : String

-- `builtInSubAgentProfiles`, by their names.
abbrev pub profile_names : List String
profile_names =
    "workspace_explorer" ∷ "code_reviewer" ∷ "security_reviewer" ∷ "performance_reviewer"
    ∷ "test_reviewer" ∷ "style_reviewer" ∷ "compatibility_reviewer" ∷ []

-- `subAgentProfileForName`
abbrev pub is_delegation : String → Bool
is_delegation name = any (λ profile. str_eq profile name) profile_names

abbrev pub delegates : Option CallPart → Bool
delegates none = false
delegates (some part) = elim part.function_call [
  | none ↦ false
  | some call ↦ is_delegation call.name
]

abbrev pub calls_ordinary : Option CallPart → Bool
calls_ordinary none = false
calls_ordinary (some part) = elim part.function_call [
  | none ↦ false
  | some call ↦ not (is_delegation call.name)
]

-- What the adapter of OpenAI's responses keeps in a signature: `rest` is what is not looked at.
pub record PreservedContext : Type 0 where
  pub output : List String
  pub rest : String

pub record Identity : Type 0 where
  pub kind : String
  pub id : String
  pub call_id : String

-- JSON: of a kept context, and of one item's identity.
pub record ContextCodec : Type 0 where
  pub decode : String → Option PreservedContext
  pub inspect : String → Option Identity
  pub encode : PreservedContext → Option String

abbrev pub context_prefix : String
context_prefix = "materialmind.openai-responses.v1:"

abbrev pub has_id : List String → String → Bool
has_id ids id = any (λ i. str_eq i id) ids

abbrev pub is_excluded : List String → Identity → Bool
is_excluded ids identity =
    str_eq identity.kind "function_call"
    && has_id ids (if str_eq identity.call_id "" then identity.id else identity.call_id)

-- The IDs of the delegations.
abbrev pub deferred_ids : Parts → List String
deferred_ids [] = []
deferred_ids (none ∷ parts) = deferred_ids parts
deferred_ids (some part ∷ parts) =
    let ids = deferred_ids parts in
    elim part.function_call [
      | none ↦ ids
      | some call ↦ if is_delegation call.name then call.id ∷ ids else ids
    ]

-- Two responses, the second one unless there is nothing to split.
abbrev pub Split : Type 0
Split = ModelResponse × Option ModelResponse

-- `strings.TrimPrefix` of a text that has the prefix
pub strip_prefix : String → String → String
strip_prefix String.[] s = s
strip_prefix (String.◌∷◌ c prefix) String.[] = String.[]
strip_prefix (String.◌∷◌ c prefix) (String.◌∷◌ d s) = strip_prefix prefix s

module _ (codec : ContextCodec) where
  -- The loop over the items of a kept context.
  abbrev pub filter_output : List String → List String → Option (List String)
  filter_output ids [] = some []
  filter_output ids (raw ∷ output) = codec.inspect raw >>= (λ identity.
      filter_output ids output
      >>= (λ kept. some (if is_excluded ids identity then kept else raw ∷ kept)))

  abbrev pub filter_context : List String → String → PreservedContext → Option String
  filter_context ids signature preserved = filter_output ids preserved.output >>= (λ kept.
      if length kept == length preserved.output
      then some signature
      else (codec.encode (record preserved { output = kept })
          >>= (λ encoded. some (text_append context_prefix encoded))))

  abbrev pub filter_signature : List String → String → Option String
  filter_signature ids signature =
      if str_eq signature "" || not (has_prefix signature context_prefix)
      then some signature
      else (codec.decode (strip_prefix context_prefix signature)
          >>= (λ preserved. filter_context ids signature preserved))

  -- The loop of `FilterPreservedResponseFunctionCalls`
  abbrev pub filter_parts : List String → Parts → Option Parts
  filter_parts ids [] = some []
  filter_parts ids (none ∷ parts) = filter_parts ids parts >>= (λ rest. some (none ∷ rest))
  filter_parts ids (some part ∷ parts) =
      filter_signature ids part.thought_signature >>= (λ signature.
        filter_parts ids parts
        >>= (λ rest. some (some (record part { thought_signature = signature }) ∷ rest)))

  -- The two responses of a mixed one.
  abbrev pub split_parts : ModelResponse → Parts → Option Split
  split_parts response parts =
      filter_parts (deferred_ids parts) (filter (λ part. not (delegates part)) parts) >>= (λ kept.
        some (
          record response { parts = some kept },
          some (record {
            partial = false;
            role = response.role;
            parts = some (filter delegates parts);
            model_version = response.model_version;
            finish_reason = response.finish_reason;
            turn_complete = true;
            other = "";
          }),
        ))

  -- `splitMixedToolBatch`
  unfoldable pub split_mixed_tool_batch : ModelResponse → Option Split
  split_mixed_tool_batch response = elim response.parts [
    | none ↦ some (response, none)
    | some parts ↦
        if response.partial || not (any delegates parts) || not (any calls_ordinary parts)
        then some (response, none)
        else split_parts response parts
  ]
