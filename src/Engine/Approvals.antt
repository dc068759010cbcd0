-- ===== src/Engine/Approvals.antt =====
-- Tool approvals (internal/engine/approvals.go): requests that a run waits on, and their answers.
-- Each function is one critical section of the engine's lock. `V` is Go's `any`, with `text` for a
-- string in it; `get_run` is the store's lookup of a run's session.
mod Invariant
pub mod Operations
pub mod Runs
pub mod Answers
pub mod Arrival
mod Tests
use Prim.Native.String.{count}
use materialmind.Common.{
  ℕ, zero, suc, ◌+◌, ◌≡◌, String, Bool, true, false, ◌&&◌, ◌||◌, not, Option, none, some, List, [],
  ◌∷◌, ◌++◌, if◌then◌else◌, ltb, leb, ◌==◌, str_eq, lookup, insert, delete,
}
use materialmind.Common.Int64.{add64}
use materialmind.Common.Text.{trim_space, has_prefix}

abbrev pub max_pending_tool_approvals : ℕ
max_pending_tool_approvals = 32

pub data ApprovalError : Type 0 where
  not_pending too_many_pending invalid_input not_found context_done : ApprovalError

pub record ToolApprovalOption : Type 0 where
  pub id : String
  pub name : String
  pub kind : String

pub record ToolApprovalRequest (V : Type 0) : Type 0 where
  pub id : String
  pub tool_call_id : String
  pub tool_name : String
  pub input : List (String × V)
  pub payload : List (String × V)
  pub hint : String
  pub options : List ToolApprovalOption
  pub invocation_id : String

pub record ToolApprovalResolution (V : Type 0) : Type 0 where
  pub id : String
  pub tool_call_id : String
  pub approved : Bool
  pub reason : String
  pub option_id : String
  pub payload : List (String × V)

-- `resolution` is Go's zero value until `resolution_order` is set; `address` tells pointers apart, and
-- `resolved` says whether the channel is closed.
pub record PendingToolApproval (V : Type 0) : Type 0 where
  pub address : ℕ
  pub request : ToolApprovalRequest V
  pub resolved : Bool
  pub resolution : ToolApprovalResolution V
  pub resolution_order : ℕ  -- uint64

pub record ActiveRun (V : Type 0) : Type 0 where
  pub run_id : String
  pub cancelled : Option ApprovalError
  pub pending_approvals : List (String × PendingToolApproval V)
  pub approval_failure : Option ApprovalError
  pub next_approval_resolution : ℕ  -- uint64

-- What the engine publishes to the hub about approvals.
pub data Notice (V : Type 0) : Type 0 where
  tool_approval : String → ToolApprovalRequest V → Notice V
  tool_approval_resolved : String → ToolApprovalResolution V → Notice V
  tool_approval_started : String → String → String → Notice V

pub record Engine (V : Type 0) : Type 0 where
  pub active : List (String × ActiveRun V)
  pub published : List (Notice V)
  pub next_address : ℕ

pub data Result {ℓ} (A : Type ℓ) : Type ℓ where
  ok : A → Result A
  err : ApprovalError → Result A
  panic : Result A

-- The loop over the options: whether the chosen one approves; `none` if it is not there.
pub choose_option : String → List ToolApprovalOption → Option Bool
choose_option option_id [] = none
choose_option option_id (option ∷ rest) =
    if str_eq option.id option_id
    then some (has_prefix option.kind "allow_")
    else choose_option option_id rest

-- `approved` after the options are looked at
pub decide : String → List ToolApprovalOption → Bool → Option Bool
unfolding choose_option
decide option_id options approved =
    if str_eq option_id "" then some approved else choose_option option_id options

module _ {V : Type 0} where
  -- `e.active[sessionID]`, if it is the run that is meant
  abbrev active_run : Engine V → String → String → Option (ActiveRun V)
  active_run e session_id run_id = elim (lookup session_id e.active) [
    | none ↦ none
    | some run ↦ if str_eq run.run_id run_id then some run else none
  ]

  abbrev zero_resolution : ToolApprovalResolution V
  zero_resolution = record {
    id = "";
    tool_call_id = "";
    approved = false;
    reason = "";
    option_id = "";
    payload = [];
  }

  abbrev put_run : String → ActiveRun V → Engine V → Engine V
  put_run session_id run e = record e { active = insert session_id run e.active }

  pub unresolved_tool_approval_count : List (String × PendingToolApproval V) → ℕ
  unresolved_tool_approval_count [] = 0
  unresolved_tool_approval_count ((id, approval) ∷ rest) =
      if approval.resolution_order == 0
      then suc (unresolved_tool_approval_count rest)
      else unresolved_tool_approval_count rest

  admit :
      String
      → String
      → ToolApprovalRequest V
      → ActiveRun V
      → Engine V
      → Engine V × Result (PendingToolApproval V)
  admit session_id run_id request run e =
      let pending : PendingToolApproval V = record {
        address = e.next_address;
        request = request;
        resolved = false;
        resolution = zero_resolution;
        resolution_order = 0;
      } in
      let run' : ActiveRun V = record run {
        pending_approvals = insert request.id pending run.pending_approvals;
      } in
      (
        record e {
          active = insert session_id run' e.active;
          published = e.published ++ tool_approval run_id request ∷ [];
          next_address = e.next_address + 1;
        },
        ok pending,
      )

  overflow : String → ActiveRun V → Engine V → Engine V × Result (PendingToolApproval V)
  overflow session_id run e = (
    put_run session_id
        (record run { approval_failure = some too_many_pending; cancelled = some too_many_pending })
        e,
    err too_many_pending,
  )

  -- `registerPendingToolApproval`
  pub register_pending_tool_approval :
      String → String → ToolApprovalRequest V → Engine V → Engine V × Result (PendingToolApproval V)
  register_pending_tool_approval session_id run_id request e =
      elim (active_run e session_id run_id) [
        | none ↦ (e, err not_pending)
        | some run ↦ (elim run.approval_failure [
          | some failure ↦ (e, err failure)
          | none ↦ (elim (lookup request.id run.pending_approvals) [
            | some pending ↦ (e, ok pending)
            | none ↦
                if leb max_pending_tool_approvals
                  (unresolved_tool_approval_count run.pending_approvals)
                then overflow session_id run e
                else admit session_id run_id request run e
          ])
        ])
      ]

  -- `removePendingToolApproval`
  pub remove_pending_tool_approval :
      String → String → String → PendingToolApproval V → Engine V → Engine V
  remove_pending_tool_approval session_id run_id approval_id pending e =
      elim (active_run e session_id run_id) [
        | none ↦ e
        | some run ↦ (elim (lookup approval_id run.pending_approvals) [
          | none ↦ e
          | some current ↦
              if current.address == pending.address
              then put_run session_id
                  (record run { pending_approvals = delete approval_id run.pending_approvals }) e
              else e
        ])
      ]

module _ {V : Type 0} (text : String → V) where
  pub approval_response_payload : List (String × V) → String → List (String × V)
  approval_response_payload payload reason = insert "reason" (text reason) payload

  abbrev resolution_of :
      String → ToolApprovalRequest V → Bool → String → String → ToolApprovalResolution V
  resolution_of approval_id request approved reason option_id =
      let given : String = if approved then "" else reason in
      record {
        id = approval_id;
        tool_call_id = request.tool_call_id;
        approved = approved;
        reason = given;
        option_id = option_id;
        payload = approval_response_payload request.payload given;
      }

  -- The resolution is recorded and published, and the channel closed; a second close panics.
  pub settle :
      String
      → String
      → String
      → ActiveRun V
      → PendingToolApproval V
      → ToolApprovalResolution V
      → Engine V
      → Engine V × Result (ToolApprovalResolution V)
  settle session_id run_id approval_id run pending resolution e =
      let order = add64 run.next_approval_resolution 1 in
      let pending' : PendingToolApproval V = record pending {
        resolution = resolution;
        resolution_order = order;
        resolved = true;
      } in
      let run' : ActiveRun V = record run {
        next_approval_resolution = order;
        pending_approvals = insert approval_id pending' run.pending_approvals;
      } in
      let e' : Engine V = record e {
        active = insert session_id run' e.active;
        published = e.published ++ tool_approval_resolved run_id resolution ∷ [];
      } in
      if pending.resolved then (e', panic) else (e', ok resolution)

  -- `ResolveToolApproval`, under the lock
  pub resolve_locked :
      String
      → String
      → String
      → Bool
      → String
      → String
      → Engine V
      → Engine V × Result (ToolApprovalResolution V)
  resolve_locked session_id run_id approval_id approved reason option_id e =
      elim (active_run e session_id run_id) [
        | none ↦ (e, err not_pending)
        | some run ↦ (elim run.approval_failure [
          | some failure ↦ (e, err failure)
          | none ↦ (elim (lookup approval_id run.pending_approvals) [
            | none ↦ (e, err not_pending)
            | some pending ↦
                if not (pending.resolution_order == 0)
                then (e, err not_pending)
                else (elim (decide option_id pending.request.options approved) [
                  | none ↦ (e, err invalid_input)
                  | some decision ↦
                      settle session_id run_id approval_id run pending
                        (resolution_of approval_id pending.request decision reason option_id) e
                ])
          ])
        ])
      ]

  pub resolve_tool_approval :
      (String → Option String)
      → String
      → String
      → Bool
      → String
      → String
      → Engine V
      → Engine V × Result (ToolApprovalResolution V)
  resolve_tool_approval get_run run_id approval_id approved reason option_id e =
      if ltb 2000 (count (trim_space reason))
      then (e, err invalid_input)
      else (elim (get_run run_id) [
        | none ↦ (e, err not_found)
        | some session_id ↦
            resolve_locked session_id run_id approval_id approved (trim_space reason)
              (trim_space option_id) e
      ])

module _ {V : Type 0} where
  -- Whether a pending approval comes before the best one so far.
  abbrev is_next : PendingToolApproval V → Option (PendingToolApproval V) → Bool
  is_next current none = not (current.resolution_order == 0)
  is_next current (some next) =
      not (current.resolution_order == 0) && ltb current.resolution_order next.resolution_order

  -- The loop of `waitForNextToolApproval` over the requests, whatever their order.
  pub scan :
      List String
      → List (String × PendingToolApproval V)
      → Option (PendingToolApproval V)
      → Result (Option (PendingToolApproval V))
  scan [] pending next = ok next
  scan (id ∷ ids) pending next = elim (lookup id pending) [
    | none ↦ err not_pending
    | some current ↦ scan ids pending (if is_next current next then some current else next)
  ]

  -- One round of `waitForNextToolApproval` under the lock: `ok none` is a round that ends in the
  -- wait for a channel, and `done` is `ctx.Err() != nil`.
  pub poll :
      String
      → String
      → List String
      → Bool
      → Engine V
      → Engine V × Result (Option (ToolApprovalResolution V))
  poll session_id run_id [] done e = (e, err not_pending)
  poll session_id run_id (id ∷ ids) done e = elim (active_run e session_id run_id) [
    | none ↦ (e, err not_pending)
    | some run ↦ (elim run.approval_failure [
      | some failure ↦ (e, err failure)
      | none ↦
          if done
          then (e, err context_done)
          else (elim (scan (id ∷ ids) run.pending_approvals none) [
            | err error ↦ (e, err error)
            | panic ↦ (e, panic)
            | ok none ↦ (e, ok none)
            | ok (some next) ↦ (
              put_run session_id
                  (record run {
                    pending_approvals = delete next.resolution.id run.pending_approvals;
                  })
                  e,
              ok (some next.resolution),
            )
          ])
    ])
  ]

  pub publish_tool_approval_started : String → ToolApprovalResolution V → Engine V → Engine V
  publish_tool_approval_started run_id decision e =
      if decision.approved
      then record e {
        published =
            e.published ++ tool_approval_started run_id decision.id decision.tool_call_id ∷ [];
      }
      else e

  -- `hasApprovalForInvocation`
  pub has_approval_for_invocation : List (String × ToolApprovalRequest V) → String → Bool
  has_approval_for_invocation [] invocation_id = false
  has_approval_for_invocation ((id, request) ∷ rest) invocation_id =
      str_eq invocation_id ""
      || str_eq request.invocation_id invocation_id
      || has_approval_for_invocation rest invocation_id
