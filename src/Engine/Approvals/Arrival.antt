-- ===== src/Engine/Approvals/Arrival.antt =====
-- An answer on its way from the user to the tool that waits for it.
use materialmind.Common.{
  ◌+◌, ◌<◌, ◌^◌, ◌≡◌, ◌≢◌, refl, sym, ap, ◌∙◌, inl, inr, Bool, true, false, none, some, [], ◌∷◌,
  String, arith, str_eq, lookup, insert, delete, lookup-delete, eq_iff,
}
use materialmind.Common.Int64.{add64}
use materialmind.Engine.Approvals.{
  not_pending, ToolApprovalResolution, PendingToolApproval, ActiveRun, Engine, ok, err, decide,
  resolve_locked, resolution_of, scan, poll,
}
use materialmind.Engine.Approvals.Runs.{resolve-cases}
use materialmind.Engine.Approvals.Answers.{settle-active, lookup-insert_self}

module _ {V : Type 0} where
  -- A tool that waits for one approval, which is resolved.
  poll-resolved :
      (e : Engine V) (session_id run_id k : String) (run : ActiveRun V) (a : PendingToolApproval V)
      → lookup session_id e.active ≡ some run
      → str_eq run.run_id run_id ≡ true
      → run.approval_failure ≡ none
      → lookup k run.pending_approvals ≡ some a
      → a.resolution_order ≢ 0
      → poll session_id run_id (k ∷ []) false e ≡ (
        record e {
          active =
              insert session_id
                (record run { pending_approvals = delete a.resolution.id run.pending_approvals })
                e.active;
        },
        ok (some a.resolution),
      )
  unfolding poll scan
  poll-resolved e session_id run_id k run a at this fine known answered = ground arith

  -- A tool that waits for an approval that is gone.
  poll_gone :
      (e : Engine V) (session_id run_id k : String) (run : ActiveRun V)
      → lookup session_id e.active ≡ some run
      → str_eq run.run_id run_id ≡ true
      → run.approval_failure ≡ none
      → lookup k run.pending_approvals ≡ none
      → (poll session_id run_id (k ∷ []) false e).1 ≡ err not_pending
  unfolding poll scan
  poll_gone e session_id run_id k run at this fine gone = ground arith

module _ {V : Type 0} (text : String → V) where
  -- An answer that is accepted carries the tool call of a request that waits and what its options
  -- make of the answer, and a tool that waits for this approval alone gets exactly this answer
  -- next, and a second time none, while the run's counter has not wrapped around.
  pub resolve_locked-poll :
      (e e' : Engine V) (session_id run_id k : String) (approved : Bool) (reason option_id : String)
      (r : ToolApprovalResolution V)
      → ((run : ActiveRun V)
          → lookup session_id e.active ≡ some run
          → run.next_approval_resolution + 1 < 2 ^ 64)
      → resolve_locked text session_id run_id k approved reason option_id e ≡ (e', ok r)
      → ((run : ActiveRun V) × (a : PendingToolApproval V) × (lookup session_id e.active ≡ some run)
          × (lookup k run.pending_approvals ≡ some a)
          × (a.resolution_order ≡ 0)
          × (decide option_id a.request.options approved ≡ some r.approved)
          × (r.tool_call_id ≡ a.request.tool_call_id))
        × ((poll session_id run_id (k ∷ []) false e').1 ≡ ok (some r))
        × ((poll session_id run_id (k ∷ []) false (poll session_id run_id (k ∷ []) false e').0).1
            ≡ err not_pending)
  resolve_locked-poll e e' session_id run_id k approved reason option_id r small h =
      elim (resolve-cases text e session_id run_id k approved reason option_id) [
        | inl (error, failed) ↦ cc
        | inr (run, a, decision, found, fine, at, known, waiting, settled, decided) ↦
            let resolution : ToolApprovalResolution V =
              resolution_of text k a.request decision reason option_id in
            let (same, active') =
              settle-active text e e' session_id run_id k run a resolution r (sym settled ∙ h) in
            let a' : PendingToolApproval V = record a {
              resolution = resolution;
              resolution_order = add64 run.next_approval_resolution 1;
              resolved = true;
            } in
            let run' : ActiveRun V = record run {
              next_approval_resolution = add64 run.next_approval_resolution 1;
              pending_approvals = insert k a' run.pending_approvals;
            } in
            let this : str_eq run.run_id run_id ≡ true = ground arith in
            let left : ActiveRun V = record run' {
              pending_approvals = delete k run'.pending_approvals;
            } in
            let after : Engine V = record e' { active = insert session_id left e'.active } in
            let got : poll session_id run_id (k ∷ []) false e' ≡ (after, ok (some resolution)) =
              poll-resolved e' session_id run_id k run' a'
                (ap (lookup session_id) active' ∙ lookup-insert_self session_id run' e.active) this
                fine (lookup-insert_self k a' run.pending_approvals)
                (omega (arith, small run at)) in
            (
              (run, a, at, known, waiting, rw same decided, rw same refl),
              rw got (rw same refl),
              rw got (
                  poll_gone after session_id run_id k left
                    (lookup-insert_self session_id left e'.active) this fine
                    (ground (arith, lookup-delete k k run'.pending_approvals, eq_iff k k))),
            )
      ]
