-- ===== src/Engine/Approvals/Tests.antt =====
-- The approvals on concrete inputs.
use materialmind.Common.{
  ◌+◌, ◌<◌, ◌^◌, ◌≤◌, ◌≡◌, ◌≢◌, refl, false, true, Option, none, some, List, [], ◌∷◌, String, arith,
  All, lookup, insert,
}
use materialmind.Engine.Approvals.{
  ToolApprovalRequest, ToolApprovalResolution, PendingToolApproval, ActiveRun, Engine, ok, err,
  not_pending, unresolved_tool_approval_count, max_pending_tool_approvals, decide, choose_option,
  approval_response_payload, settle, resolve_locked, scan, poll, zero_resolution,
}
use materialmind.Engine.Approvals.Invariant.{EntryOk}
use materialmind.Engine.Approvals.Runs.{
  Section, started, registered, resolved, polled, finished, run_sections,
  run_sections-empty_never_panics,
}
use materialmind.Engine.Approvals.Arrival.{resolve_locked-poll}
use materialmind.Engine.Approvals.Answers.{In, resolve_twice, NotAfter, scan-first}

abbrev as_text : String → String
as_text s = s

abbrev session_of : String → Option String
session_of run_id = some "session"

abbrev request : ToolApprovalRequest String
request = record {
  id = "a";
  tool_call_id = "call";
  tool_name = "edit_file";
  input = [];
  payload = ("kind", "file_patch") ∷ [];
  hint = "";
  options =
      (record { id = "once"; name = "Allow once"; kind = "allow_once" })
      ∷ (record { id = "never"; name = "Reject"; kind = "reject_once" })
      ∷ [];
  invocation_id = "";
}

abbrev script : List (Section String)
script =
    started "session" "run"
    ∷ registered "session" "run" request
    ∷ resolved "run" "a" true "" "never"
    ∷ resolved "run" "a" true "" ""
    ∷ polled "session" "run" ("a" ∷ []) false
    ∷ finished "session"
    ∷ []

run_sections-empty_never_panics_example :
    (e : Engine String) × (run_sections as_text session_of script
        (record { active = []; published = []; next_address = 0 })
      ≡ some e)
    × ((session_id : String) (run : ActiveRun String)
        → lookup session_id e.active ≡ some run
        → (unresolved_tool_approval_count run.pending_approvals ≤ max_pending_tool_approvals)
          × All EntryOk run.pending_approvals)
run_sections-empty_never_panics_example =
    run_sections-empty_never_panics as_text session_of script (omega arith)

abbrev waiting : PendingToolApproval String
waiting = record {
  address = 0;
  request = request;
  resolved = false;
  resolution = zero_resolution;
  resolution_order = 0;
}

abbrev run : ActiveRun String
run = record {
  run_id = "run";
  cancelled = none;
  pending_approvals = ("a", waiting) ∷ [];
  approval_failure = none;
  next_approval_resolution = 4;
}

abbrev engine : Engine String
engine = record { active = ("session", run) ∷ []; published = []; next_address = 1 }

abbrev refusal : ToolApprovalResolution String
refusal = record {
  id = "a";
  tool_call_id = "call";
  approved = false;
  reason = "too risky";
  option_id = "never";
  payload = ("kind", "file_patch") ∷ ("reason", "too risky") ∷ [];
}

abbrev refused : Engine String
refused = (resolve_locked as_text "session" "run" "a" true "too risky" "never" engine).0

-- The option decides, whatever the caller says.
refuses :
    resolve_locked as_text "session" "run" "a" true "too risky" "never" engine
    ≡ (refused, ok refusal)
unfolding resolve_locked settle decide choose_option approval_response_payload lookup insert
refuses = refl

small_counter :
    (r : ActiveRun String)
    → lookup "session" engine.active ≡ some r
    → r.next_approval_resolution + 1 < 2 ^ 64
unfolding lookup
small_counter r h = ground arith

resolve_locked-poll_example :
    ((r : ActiveRun String) × (a : PendingToolApproval String) × (lookup "session" engine.active
        ≡ some r)
      × (lookup "a" r.pending_approvals ≡ some a)
      × (a.resolution_order ≡ 0)
      × (decide "never" a.request.options true ≡ some refusal.approved)
      × (refusal.tool_call_id ≡ a.request.tool_call_id))
    × ((poll "session" "run" ("a" ∷ []) false refused).1 ≡ ok (some refusal))
    × ((poll "session" "run" ("a" ∷ []) false (poll "session" "run" ("a" ∷ []) false refused).0).1
        ≡ err not_pending)
resolve_locked-poll_example =
    resolve_locked-poll as_text engine refused "session" "run" "a" true "too risky" "never" refusal
      small_counter refuses

resolve_twice_example :
    resolve_locked as_text "session" "run" "a" true "" "once" refused ≡ (refused, err not_pending)
resolve_twice_example =
    resolve_twice as_text engine refused "session" "run" "a" true true "too risky" "" "never" "once"
      refusal small_counter refuses

abbrev third : PendingToolApproval String
third = record waiting { resolution_order = 3 }

abbrev second : PendingToolApproval String
second = record waiting { resolution_order = 2 }

abbrev answers : List (String × PendingToolApproval String)
answers = ("a", third) ∷ ("b", waiting) ∷ ("c", second) ∷ []

scans : scan ("a" ∷ "b" ∷ "c" ∷ []) answers none ≡ ok (some second)
unfolding scan lookup
scans = refl

scan-first_example :
    ((id : String) × In id ("a" ∷ "b" ∷ "c" ∷ []) × (lookup id answers ≡ some second))
    × (second.resolution_order ≢ 0)
    × All
        (λ id. (a : PendingToolApproval String) → lookup id answers ≡ some a → NotAfter second a)
        ("a" ∷ "b" ∷ "c" ∷ [])
scan-first_example = scan-first ("a" ∷ "b" ∷ "c" ∷ []) answers second scans
