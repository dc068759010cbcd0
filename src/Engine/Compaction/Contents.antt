-- ===== src/Engine/Compaction/Contents.antt =====
-- The contents of a request, and where they may be cut. A content is `none` for a nil pointer.
-- `other` is, as JSON, what compaction does not read of a part; the parts are not nil.
pub mod Laws
use materialmind.Common.{
  ℕ, zero, suc, String, Bool, true, false, ◌&&◌, ◌||◌, not, Option, none, some, List, [], ◌∷◌, ◌++◌,
  if◌then◌else◌, leb, ◌==◌, str_eq, length, get_elem?, take, drop, any,
}
use materialmind.Common.Text.{trim_space}
use Prim.Native.String.{◌++◌ as text_append}

-- A call and a response are here by their `ID`.
pub record Part : Type 0 where
  pub text : String
  pub function_call : Option String
  pub function_response : Option String
  pub other : String

pub record Content : Type 0 where
  pub role : String
  pub parts : List Part

abbrev pub Contents : Type 0
Contents = List (Option Content)

-- `contentPartsForCompaction`
abbrev pub content_parts : Option Content → List Part
content_parts none = []
content_parts (some content) = content.parts

abbrev pub has_response : Part → Bool
has_response part = elim part.function_response [ none ↦ false | some id ↦ true ]

-- `contentHasFunctionResponse`
abbrev pub content_has_function_response : Option Content → Bool
content_has_function_response content = any has_response (content_parts content)

-- `genai.NewPartFromText` of the text that `contentsWithContextSummary` builds
abbrev pub summary_part : String → Part
summary_part summary = record {
  text =
      text_append "Earlier conversation context was compacted into this summary:\n\n"
        (trim_space summary);
  function_call = none;
  function_response = none;
  other = "";
}

-- The content that holds only the summary.
abbrev pub summary_content : String → Option Content
summary_content summary = some (record { role = "user"; parts = summary_part summary ∷ [] })

-- `contentsWithContextSummary`
unfoldable pub contents_with_context_summary : String → Contents → Contents
contents_with_context_summary summary [] = summary_content summary ∷ []
contents_with_context_summary summary (none ∷ suffix) = summary_content summary ∷ none ∷ suffix
contents_with_context_summary summary (some first ∷ suffix) =
    if not (str_eq first.role "model") && not (content_has_function_response (some first))
    then some (record { role = first.role; parts = summary_part summary ∷ first.parts }) ∷ suffix
    else summary_content summary ∷ some first ∷ suffix

-- The IDs of the calls of some parts, the empty one left out.
abbrev pub part_calls : List Part → List String
part_calls [] = []
part_calls (part ∷ parts) =
    let calls = part_calls parts in
    elim part.function_call [ none ↦ calls | some id ↦ if str_eq id "" then calls else id ∷ calls ]

-- The set `prefixCalls`.
abbrev pub prefix_calls : Contents → List String
prefix_calls [] = []
prefix_calls (content ∷ contents) = part_calls (content_parts content) ++ prefix_calls contents

-- Whether a part responds to one of the calls.
abbrev pub responds_to : List String → Part → Bool
responds_to calls part = elim part.function_response [
  | none ↦ false
  | some id ↦ any (str_eq id) calls
]

-- Whether one of the contents responds to one of the calls.
abbrev pub crosses : List String → Contents → Bool
crosses calls [] = false
crosses calls (content ∷ contents) =
    any (responds_to calls) (content_parts content) || crosses calls contents

abbrev pub starts_with_response : Contents → ℕ → Bool
starts_with_response contents cut = elim (get_elem? contents cut) [
  | none ↦ false
  | some first ↦ content_has_function_response first
]

-- `safeContextCompactionBoundary`
unfoldable pub safe_boundary : Contents → ℕ → Bool
safe_boundary contents cut =
    if cut == 0 || leb (length contents) cut
    then true
    else not (starts_with_response contents cut)
      && not (crosses (prefix_calls (take cut contents)) (drop cut contents))
