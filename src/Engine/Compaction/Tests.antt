-- ===== src/Engine/Compaction/Tests.antt =====
-- Compaction on concrete inputs.
use materialmind.Common.{
  ℕ, sym, ◌+◌, ◌*◌, ◌^◌, ◌≤◌, ◌<◌, ◌⊎◌, ◌≡◌, ◌≢◌, refl, ◌∙◌, ap, String, Bool, true, false, ◌&&◌,
  Option, none, some, List, [], ◌∷◌, ◌++◌, inl, inr, arith, if◌then◌else◌, ◌==◌, str_eq, length,
  lookup, insert, lookup-insert, Bool-cases, eq_iff, All, take,
}
use materialmind.Common.Text.{trim_space}
use materialmind.Engine.Compaction.Sections.{
  Bytes, starts_rune, back_to_rune, last_newline, after_newline, fragment_end, split_loop,
  split_context_section, truncate_context_fragment,
}
use materialmind.Engine.Compaction.Sections.Laws.{join, IsFragment, split-join, truncate_prefix}
use materialmind.Engine.Compaction.Budget.{
  json_tokens, compaction_trigger_tokens, input_budget_tokens,
}
use materialmind.Engine.Compaction.Budget.Laws.{json_tokens_exact, trigger_below_budget}
use materialmind.Engine.Compaction.Contents.{
  Part, Content, Contents, safe_boundary, contents_with_context_summary,
}
use materialmind.Engine.Compaction.Contents.Laws.{safe_boundary-separates}
use materialmind.Engine.Compaction.Cut.{
  Cut, suffix_cut, advance, cut_within, compaction_cut, suffix_budget_tokens,
}
use materialmind.Engine.Compaction.Cut.Laws.{IsLeastCut, compaction_cut-least}
use materialmind.Engine.Compaction.Checkpoint.{
  Checkpoint, Got, Stored, Environment, Loaded, load_checkpoint, save_checkpoint,
  checkpointed_contents, state_key, is_plausible, is_plausible,
}
use materialmind.Engine.Compaction.Checkpoint.Laws.{load-save_checkpoint}
use materialmind.Engine.Compaction.Request.{Turn, new_context_compactor, compact_request}
use materialmind.Engine.Compaction.Request.Laws.{is_inner, compact_request-inner}
use materialmind.Engine.Compaction.Request.Notices.{Announced, compact_request-Announced}
use materialmind.Engine.Compaction.Request.Hooks.{before_model}
use materialmind.Engine.Compaction.Request.Sent.{Sends, before_model-Sends}
use materialmind.Engine.Compaction.Request.Resume.{Lawful, is_visible, compact_request-resumes}

-- "aé\nb" in UTF-8
abbrev section : Bytes
section = 0x61 ∷ 0xc3 ∷ 0xa9 ∷ 10 ∷ 0x62 ∷ []

split_sections :
    split_context_section section 4 ≡ some ((0x61 ∷ 0xc3 ∷ 0xa9 ∷ 10 ∷ []) ∷ (0x62 ∷ []) ∷ [])
unfolding split_context_section split_loop fragment_end after_newline last_newline back_to_rune
split_sections = refl

truncated : truncate_context_fragment section 2 ≡ 0x61 ∷ []
unfolding truncate_context_fragment back_to_rune
truncated = refl

split-join_example :
    (fs : List Bytes) × (split_context_section section 2 ≡ some fs)
    × (join fs ≡ section)
    × All (IsFragment 2) fs
split-join_example = split-join section 2 (omega arith) (omega arith)

json_tokens_exact_example :
    (2 * 7 ≤ 5 * json_tokens 7)
    × (5 * json_tokens 7 < 2 * 7 + 5)
    × (0 < json_tokens 7)
    × (json_tokens 7 < 2 ^ 61)
json_tokens_exact_example = json_tokens_exact 7 (omega arith) (omega arith)

trigger_below_budget_example :
    (compaction_trigger_tokens 105 4 ≤ input_budget_tokens 105 4)
    × (10 * compaction_trigger_tokens 105 4 ≤ 9 * input_budget_tokens 105 4)
    × (9 * input_budget_tokens 105 4 < 10 * compaction_trigger_tokens 105 4 + 10)
trigger_below_budget_example = trigger_below_budget 105 4 (omega arith)

truncate_prefix_example :
    (n : ℕ) × (truncate_context_fragment section 2 ≡ take n section)
    × (length (truncate_context_fragment section 2) ≤ 2)
    × ((n ≡ 0) ⊎ (length section ≤ n) ⊎ (starts_rune section n ≡ true))
truncate_prefix_example = truncate_prefix section 2 (omega arith)

abbrev say : String → Option Content
say message = some (record {
  role = "user";
  parts =
      record { text = message; function_call = none; function_response = none; other = "" } ∷ [];
})

abbrev call_part : String → Part
call_part id = record { text = ""; function_call = some id; function_response = none; other = "" }

abbrev response_part : String → Part
response_part id = record {
  text = "";
  function_call = none;
  function_response = some id;
  other = "";
}

abbrev call : Option Content
call = some (record { role = "model"; parts = call_part "c1" ∷ [] })

abbrev response : Option Content
response = some (record { role = "user"; parts = response_part "c2" ∷ [] })

abbrev talk : Contents
talk = say "a" ∷ say "b" ∷ say "c" ∷ []

abbrev calls : Contents
calls = say "a" ∷ call ∷ response ∷ []

-- The response does not answer the call, but no cut stands right before a response.
before_response : safe_boundary calls 2 ≡ false
unfolding safe_boundary
before_response = refl

safe_talk : safe_boundary (call ∷ say "b" ∷ response ∷ []) 1 ≡ true
unfolding safe_boundary
safe_talk = refl

abbrev first_id : String
first_id = "c1"

abbrev other_id : String
other_id = "c2"

not_empty : first_id ≢ ""
not_empty e = let differ : str_eq first_id "" ≡ true = (eq_iff first_id "").1 e in cc

no_checkpoint : false ≢ true
no_checkpoint e = cc

safe_boundary-separates_example : some other_id ≢ some first_id
safe_boundary-separates_example =
    safe_boundary-separates (call ∷ say "b" ∷ response ∷ []) 1 0 2 call response (call_part "c1")
      (response_part "c2") "c1" safe_talk (omega arith) (omega arith) refl refl (0, refl) (0, refl)
      refl not_empty

-- Every content has a size of 4 tokens.
abbrev four : Option Content → ℕ
four content = 4

compaction_cut-least_example :
    (cut : ℕ) × (compaction_cut (λ content. some (four content)) (some 1) 100 25 talk false
      ≡ Cut.cut_at cut)
    × IsLeastCut four (suffix_budget_tokens 100 1 25) talk false cut
compaction_cut-least_example =
    compaction_cut-least (λ content. some (four content)) four talk 1 100 25 false (λ content. refl)
      (λ content. omega arith) (omega arith) (λ has. absurd (no_checkpoint has))

cut_talk : compaction_cut (λ content. some (four content)) (some 1) 100 25 talk false ≡ Cut.cut_at 2
unfolding compaction_cut cut_within suffix_cut advance safe_boundary
cut_talk = refl

-- A state of texts under keys.
abbrev Store : Type 0
Store = List (String × String)

abbrev got : Option String → Got
got none = Got.missing
got (some value) = Got.text value

-- The checkpoints that this environment can encode are told by the number of contents.
abbrev is_known : Checkpoint → Bool
is_known c =
    c.version == 1
    && c.prefix_content_count == 2
    && str_eq c.prefix_digest "digest"
    && str_eq c.summary "summary"

abbrev known : Checkpoint
known = record {
  version = 1;
  prefix_content_count = 2;
  prefix_digest = "digest";
  summary = "summary";
}

abbrev env : Environment Store
env = record {
  get = λ s k. got (lookup k s);
  set = λ s k v. Stored.stored (insert k v s);
  encode_content = λ content. some (1 ∷ 2 ∷ 3 ∷ 4 ∷ 5 ∷ 6 ∷ 7 ∷ 8 ∷ []);
  sha256_hex = λ input. "digest";
  encode_checkpoint = λ c. if is_known c then some "known" else none;
  decode_checkpoint = λ v. if str_eq v "known" then some known else none;
  encode_usage = λ usage. none;
  decode_usage = λ v. none;
  summarize = λ contents. some "summary";
}

encoded_value :
    (b : Bool) (v : String) → b ≡ true → (if b then some "known" else none) ≡ some v → v ≡ "known"
encoded_value b v k e = ground arith

not_encoded : (b : Bool) (v : String) → b ≡ false → (if b then some "known" else none) ≢ some v
not_encoded b v k e = ground arith

known_lem : (c : Checkpoint) → is_known c ≡ true → known ≡ c
known_lem c k = ground (arith, eq_iff c.prefix_digest "digest", eq_iff c.summary "summary")

lookup_inserted : (k v : String) (s : Store) → lookup k (insert k v s) ≡ some v
lookup_inserted k v s = ground (arith, lookup-insert k k v s, eq_iff k k)

summary_is_visible :
    (summary : String) → Option.some "summary" ≡ some summary → is_visible summary ≡ true
unfolding trim_space
summary_is_visible summary e = let same : "summary" ≡ summary = ground arith in rw (← same) refl

known-decoded :
    (c : Checkpoint) (v : String)
    → env.encode_checkpoint c ≡ some v
    → env.decode_checkpoint v ≡ some c
known-decoded c v e = elim (Bool-cases (is_known c)) [
  | inl k ↦
      let value : v ≡ "known" = encoded_value (is_known c) v k e in
      let decoded : env.decode_checkpoint v ≡ some known = ap env.decode_checkpoint value in
      decoded ∙ ap some (known_lem c k)
  | inr k ↦ absurd (not_encoded (is_known c) v k e)
]

env-get_set :
    (s t : Store) (k v : String) → env.set s k v ≡ Stored.stored t → env.get t k ≡ Got.text v
env-get_set s t k v e =
    let same : insert k v s ≡ t = ground arith in
    ap (λ m. got (lookup k m)) (sym same) ∙ ap got (lookup_inserted k v s)

env-Lawful : Lawful env
env-Lawful = record {
  get_set = env-get_set;
  decode_encode = known-decoded;
  summarize_visible = λ cs summary e. summary_is_visible summary e;
}

abbrev turn : Turn Store
turn = record {
  contents = talk;
  fixed_size = some 2;
  configured_output_tokens = 0;
  compactor = new_context_compactor 100 0;
  state = [];
  updates = [];
}

-- The first two of three contents are summarized.
compacted : (compact_request env turn 95).1 ≡ none
unfolding compact_request load_checkpoint lookup insert compaction_cut cut_within suffix_cut advance
    safe_boundary save_checkpoint contents_with_context_summary
compacted = refl

contents_left : length ((compact_request env turn 95).0.contents) ≡ 1
unfolding compact_request load_checkpoint lookup insert compaction_cut cut_within suffix_cut advance
    safe_boundary save_checkpoint contents_with_context_summary
contents_left = refl

compact_request-inner_example : is_inner ((compact_request env turn 95).1) ≡ false
compact_request-inner_example = compact_request-inner env turn 95

compact_request-Announced_example :
    Announced [] ((compact_request env turn 95).0.updates) ((compact_request env turn 95).1)
compact_request-Announced_example = compact_request-Announced env turn 95

compact_request-resumes_example :
    (compact_request env turn 95).0.contents
    ≡ checkpointed_contents env ((compact_request env turn 95).0.state) talk
compact_request-resumes_example = compact_request-resumes env env-Lawful turn 95 compacted

abbrev after_save : Store
after_save = (state_key, "known") ∷ []

saved : save_checkpoint env [] known ≡ Stored.stored after_save
unfolding save_checkpoint insert
saved = refl

known_plausible : is_plausible known 3 ≡ true
unfolding trim_space
known_plausible = refl

load-save_checkpoint_example :
    load_checkpoint env after_save (talk ++ say "d" ∷ []) ≡ Loaded.found known
load-save_checkpoint_example =
    load-save_checkpoint env env-get_set known-decoded [] after_save talk (say "d" ∷ []) known
      known_plausible refl saved

before_model-Sends_example : Sends env turn (before_model env turn)
before_model-Sends_example = before_model-Sends env env-Lawful turn
