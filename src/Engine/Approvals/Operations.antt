-- ===== src/Engine/Approvals/Operations.antt =====
-- Every critical section of the approvals keeps what holds of them.
use materialmind.Common.{
  ℕ, ◌<◌, ◌≡◌, refl, ◌⊎◌, inl, inr, Bool, true, false, Option, none, some, List, [], ◌∷◌, String,
  arith, Bool-cases, Option-cases, lookup, insert, delete, leb,
}
use materialmind.Engine.Approvals.{
  ToolApprovalRequest, PendingToolApproval, ActiveRun, Engine, Result, ok, err, panic,
  max_pending_tool_approvals, unresolved_tool_approval_count, register_pending_tool_approval,
  remove_pending_tool_approval, admit, overflow, scan, poll, active_run, put_run, zero_resolution,
  too_many_pending,
}
use materialmind.Engine.Approvals.Invariant.{
  IsRun, IsConsistent, put_run-IsConsistent, admit-IsRun, delete-IsRun,
}

module _ {V : Type 0} where
  -- The run that a section works on, if there is one.
  pub active_run-cases :
      (e : Engine V) (session_id run_id : String)
      → (active_run e session_id run_id ≡ none)
        ⊎ ((run : ActiveRun V) × (active_run e session_id run_id ≡ some run)
            × (lookup session_id e.active ≡ some run))
  active_run-cases e session_id run_id = ground arith

  admit-IsConsistent :
      (n : ℕ) (e : Engine V) (session_id run_id : String) (request : ToolApprovalRequest V)
      (run : ActiveRun V)
      → IsConsistent n e
      → IsRun n run
      → unresolved_tool_approval_count run.pending_approvals < max_pending_tool_approvals
      → IsConsistent n (admit session_id run_id request run e).0
  unfolding admit
  admit-IsConsistent n e session_id run_id request run inv r room =
      let a : PendingToolApproval V = record {
        address = e.next_address;
        request = request;
        resolved = false;
        resolution = zero_resolution;
        resolution_order = 0;
      } in
      put_run-IsConsistent session_id
        (record run { pending_approvals = insert request.id a run.pending_approvals }) (omega arith)
        inv (admit-IsRun n e.next_address run request a r room refl refl) refl

  overflow-IsConsistent :
      (n : ℕ) (e : Engine V) (session_id : String) (run : ActiveRun V)
      → IsConsistent n e
      → IsRun n run
      → IsConsistent n (overflow session_id run e).0
  unfolding overflow
  overflow-IsConsistent n e session_id run inv r =
      put_run-IsConsistent session_id
        (record run { approval_failure = some too_many_pending; cancelled = some too_many_pending })
        (omega arith) inv
        (record { bounded = r.bounded; entries = r.entries; numbered = r.numbered }) refl

  register-cases :
      (e : Engine V) (session_id run_id : String) (request : ToolApprovalRequest V)
      → ((register_pending_tool_approval session_id run_id request e).0 ≡ e)
        ⊎ ((run : ActiveRun V) × (lookup session_id e.active ≡ some run)
            × (((register_pending_tool_approval session_id run_id request e).0
                  ≡ (overflow session_id run e).0)
                ⊎ ((unresolved_tool_approval_count run.pending_approvals
                      < max_pending_tool_approvals)
                    × ((register_pending_tool_approval session_id run_id request e).0
                        ≡ (admit session_id run_id request run e).0))))
  unfolding register_pending_tool_approval
  register-cases e session_id run_id request = elim (active_run-cases e session_id run_id) [
    | inl missing ↦ inl (ground arith)
    | inr (run, found, at) ↦ (elim (Option-cases run.approval_failure) [
      | inr (failure, failed) ↦ inl (ground arith)
      | inl fine ↦ (elim (Option-cases (lookup request.id run.pending_approvals)) [
        | inr (old, known) ↦ inl (ground arith)
        | inl new ↦
            (elim (Bool-cases (
              leb max_pending_tool_approvals
                (unresolved_tool_approval_count run.pending_approvals))) [
                  | inl full ↦ inr (run, at, inl (ground arith))
                  | inr room ↦ inr (run, at, inr (ground arith, ground arith))
                ])
      ])
    ])
  ]

  pub register-IsConsistent :
      (n : ℕ) (e : Engine V) (session_id run_id : String) (request : ToolApprovalRequest V)
      → IsConsistent n e
      → IsConsistent n (register_pending_tool_approval session_id run_id request e).0
  register-IsConsistent n e session_id run_id request inv =
      elim (register-cases e session_id run_id request) [
        | inl same ↦ rw same inv
        | inr (run, at, inl full) ↦
            rw full (overflow-IsConsistent n e session_id run inv (inv.runs session_id run at))
        | inr (run, at, inr (room, admitted)) ↦ rw admitted (
            admit-IsConsistent n e session_id run_id request run inv (inv.runs session_id run at)
              room)
      ]

  remove-cases :
      (e : Engine V) (session_id run_id approval_id : String) (pending : PendingToolApproval V)
      → (remove_pending_tool_approval session_id run_id approval_id pending e ≡ e)
        ⊎ ((run : ActiveRun V) × (lookup session_id e.active ≡ some run)
            × (remove_pending_tool_approval session_id run_id approval_id pending e
                ≡ put_run session_id
                    (record run { pending_approvals = delete approval_id run.pending_approvals })
                    e))
  unfolding remove_pending_tool_approval
  remove-cases e session_id run_id approval_id pending = ground arith

  -- The run of a session without one of its approvals.
  removed-IsConsistent :
      (n : ℕ) (e : Engine V) (session_id k : String) (run : ActiveRun V)
      → IsConsistent n e
      → lookup session_id e.active ≡ some run
      → IsConsistent n
          (put_run session_id (record run { pending_approvals = delete k run.pending_approvals }) e)
  removed-IsConsistent n e session_id k run inv found =
      put_run-IsConsistent session_id
        (record run { pending_approvals = delete k run.pending_approvals }) (omega arith) inv
        (delete-IsRun n run k (inv.runs session_id run found)) refl

  pub remove-IsConsistent :
      (n : ℕ) (e : Engine V) (session_id run_id approval_id : String)
      (pending : PendingToolApproval V)
      → IsConsistent n e
      → IsConsistent n (remove_pending_tool_approval session_id run_id approval_id pending e)
  remove-IsConsistent n e session_id run_id approval_id pending inv =
      elim (remove-cases e session_id run_id approval_id pending) [
        | inl same ↦ rw same inv
        | inr (run, found, left) ↦
            rw left (removed-IsConsistent n e session_id approval_id run inv found)
      ]

  -- A scan that found an approval, or one that did not.
  abbrev found_none : Result (Option (PendingToolApproval V)) → Bool
  found_none (ok (some next)) = false
  found_none _ = true

  scan-cases :
      (r : Result (Option (PendingToolApproval V)))
      → ((next : PendingToolApproval V) × (r ≡ ok (some next))) ⊎ (found_none r ≡ true)
  scan-cases (ok (some next)) = inl (next, refl)
  scan-cases (ok none) = inr refl
  scan-cases (err e) = inr refl
  scan-cases panic = inr refl

  poll-cases :
      (e : Engine V) (session_id run_id : String) (ids : List String) (done : Bool)
      → ((poll session_id run_id ids done e).0 ≡ e)
        ⊎ ((run : ActiveRun V) × (k : String) × (lookup session_id e.active ≡ some run)
            × ((poll session_id run_id ids done e).0
                ≡ put_run session_id
                    (record run { pending_approvals = delete k run.pending_approvals })
                    e))
  unfolding poll
  poll-cases e session_id run_id [] done = inl refl
  poll-cases e session_id run_id (id ∷ ids) done = elim (active_run-cases e session_id run_id) [
    | inl missing ↦ inl (ground arith)
    | inr (run, found, at) ↦ (elim (Option-cases run.approval_failure) [
      | inr (failure, failed) ↦ inl (ground arith)
      | inl fine ↦ (elim (scan-cases (scan (id ∷ ids) run.pending_approvals none)) [
        | inr nothing ↦ inl (ground arith)
        | inl (next, e) ↦ (elim (Bool-cases done) [
          | inl over ↦ inl (ground arith)
          | inr going ↦ inr (run, next.resolution.id, at, ground arith)
        ])
      ])
    ])
  ]

  pub poll-IsConsistent :
      (n : ℕ) (e : Engine V) (session_id run_id : String) (ids : List String) (done : Bool)
      → IsConsistent n e
      → IsConsistent n (poll session_id run_id ids done e).0
  poll-IsConsistent n e session_id run_id ids done inv =
      elim (poll-cases e session_id run_id ids done) [
        | inl same ↦ rw same inv
        | inr (run, k, found, left) ↦ rw left (removed-IsConsistent n e session_id k run inv found)
      ]
