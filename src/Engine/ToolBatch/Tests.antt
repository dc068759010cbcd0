-- ===== src/Engine/ToolBatch/Tests.antt =====
-- A mixed response on a concrete input.
use materialmind.Common.{◌≡◌, refl, String, true, false, none, some, Option, [], ◌∷◌, any}
use materialmind.Engine.ToolBatch.{
  CallPart, Parts, ModelResponse, ContextCodec, delegates, calls_ordinary, split_mixed_tool_batch,
}
use materialmind.Engine.ToolBatch.Laws.{IsSplit, split_mixed_tool_batch-IsSplit}

-- No signature holds a context.
abbrev codec : ContextCodec
codec = record { decode = λ text. none; inspect = λ text. none; encode = λ context. none }

abbrev call_part : String → String → Option CallPart
call_part name id = some (record {
  function_call = some (record { name = name; id = id });
  thought_signature = "";
  other = "";
})

abbrev mixed : Parts
mixed =
    call_part "code_reviewer" "1"
    ∷ call_part "read_file" "2"
    ∷ none
    ∷ call_part "test_reviewer" "3"
    ∷ []

abbrev with_parts : Parts → ModelResponse
with_parts parts = record {
  partial = false;
  role = "model";
  parts = some parts;
  model_version = "m";
  finish_reason = "stop";
  turn_complete = true;
  other = "";
}

abbrev delegated : ModelResponse
delegated = record {
  partial = false;
  role = "model";
  parts = some (call_part "code_reviewer" "1" ∷ call_part "test_reviewer" "3" ∷ []);
  model_version = "m";
  finish_reason = "stop";
  turn_complete = true;
  other = "";
}

split :
    split_mixed_tool_batch codec (with_parts mixed)
    ≡ some (with_parts (call_part "read_file" "2" ∷ none ∷ []), some delegated)
unfolding split_mixed_tool_batch
split = refl

split_mixed_tool_batch-IsSplit_example :
    (false ≡ false)
    × (any delegates mixed ≡ true)
    × (any calls_ordinary mixed ≡ true)
    × IsSplit codec
        (with_parts mixed)
        mixed
        (with_parts (call_part "read_file" "2" ∷ none ∷ []))
        delegated
split_mixed_tool_batch-IsSplit_example =
    split_mixed_tool_batch-IsSplit codec (with_parts mixed) mixed
      (with_parts (call_part "read_file" "2" ∷ none ∷ [])) delegated refl split
