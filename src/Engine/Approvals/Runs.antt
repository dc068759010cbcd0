-- ===== src/Engine/Approvals/Runs.antt =====
-- Resolving an approval, and every sequence of critical sections.
use Prim.Native.String.{count}
use native.Mathlib.Nat.{add-zero}
use materialmind.Common.{
  ℕ, suc, ◌+◌, ◌≤◌, ◌<◌, ◌^◌, ◌≡◌, ◌≢◌, refl, ◌⊎◌, inl, inr, Bool, true, false, Option, none, some,
  List, [], ◌∷◌, String, arith, Bool-cases, Option-cases, ◌==◌, lookup, insert, delete, All, length,
  ltb, lookup-delete, ◌>>=◌,
}
use materialmind.Common.Int64.{add64}
use materialmind.Common.Text.{trim_space}
use materialmind.Engine.Approvals.{
  ApprovalError, not_pending, invalid_input, ToolApprovalRequest, ToolApprovalResolution,
  PendingToolApproval, ActiveRun, Engine, Result, ok, err, panic, max_pending_tool_approvals,
  unresolved_tool_approval_count, register_pending_tool_approval, remove_pending_tool_approval,
  decide, settle, resolve_locked, resolve_tool_approval, poll, resolution_of, active_run, put_run,
}
use materialmind.Engine.Approvals.Invariant.{
  All-lookup, EntryOk, IsRun, IsConsistent, put_run-IsConsistent, same-IsConsistent, settle-IsRun,
}
use materialmind.Engine.Approvals.Operations.{
  active_run-cases, register-IsConsistent, remove-IsConsistent, poll-IsConsistent,
}

module _ {V : Type 0} (text : String → V) where
  abbrev Answer : Type 0
  Answer = Engine V × Result (ToolApprovalResolution V)

  -- What a resolution does to the state and answers is sound.
  abbrev Sound : ℕ → Answer → Type 0
  Sound n answer = IsConsistent (n + 1) answer.0 × (answer.1 ≢ panic)

  unresolved-open :
      (n : ℕ) (run : ActiveRun V) (k : String) (a : PendingToolApproval V)
      → IsRun n run
      → lookup k run.pending_approvals ≡ some a
      → a.resolution_order ≡ 0
      → a.resolved ≡ false
  unresolved-open n run k a r found zero_order =
      ground (arith, All-lookup EntryOk k run.pending_approvals a r.entries found)

  settle-Sound :
      (n : ℕ) (e : Engine V) (session_id run_id k : String) (run : ActiveRun V)
      (a : PendingToolApproval V) (resolution : ToolApprovalResolution V)
      → IsConsistent n e
      → n + 1 < 2 ^ 64
      → lookup session_id e.active ≡ some run
      → lookup k run.pending_approvals ≡ some a
      → a.resolution_order ≡ 0
      → resolution.id ≡ k
      → Sound n (settle text session_id run_id k run a resolution e)
  unfolding settle
  settle-Sound n e session_id run_id k run a resolution inv small at found zero_order named =
      let r = inv.runs session_id run at in
      let order : add64 run.next_approval_resolution 1 ≡ run.next_approval_resolution + 1 =
        omega (arith, r.numbered) in
      let a' : PendingToolApproval V = record a {
        resolution = resolution;
        resolution_order = add64 run.next_approval_resolution 1;
        resolved = true;
      } in
      let run' : ActiveRun V = record run {
        next_approval_resolution = a'.resolution_order;
        pending_approvals = insert k a' run.pending_approvals;
      } in
      let settled = settle-IsRun n run k a' r order refl named in
      let open_a = unresolved-open n run k a r found zero_order in
      rw open_a (put_run-IsConsistent session_id run' (omega arith) inv settled refl, λ p. cc)

  -- A resolution that changes nothing answers with an error; any other settles an approval that is
  -- pending and not resolved.
  pub resolve-cases :
      (e : Engine V) (session_id run_id k : String) (approved : Bool) (reason option_id : String)
      → ((error : ApprovalError) × (resolve_locked text session_id run_id k approved reason
              option_id e
            ≡ (e, err error)))
        ⊎ ((run : ActiveRun V) × (a : PendingToolApproval V) × (decision : Bool) × (active_run e
                session_id run_id
              ≡ some run)
            × (run.approval_failure ≡ none)
            × (lookup session_id e.active ≡ some run)
            × (lookup k run.pending_approvals ≡ some a)
            × (a.resolution_order ≡ 0)
            × (resolve_locked text session_id run_id k approved reason option_id e
                ≡ settle text session_id run_id k run a
                    (resolution_of text k a.request decision reason option_id)
                    e)
            × (decide option_id a.request.options approved ≡ some decision))
  unfolding resolve_locked
  resolve-cases e session_id run_id k approved reason option_id =
      elim (active_run-cases e session_id run_id) [
        | inl missing ↦ inl (not_pending, ground arith)
        | inr (run, found, at) ↦ (elim (Option-cases run.approval_failure) [
          | inr (failure, failed) ↦ inl (failure, ground arith)
          | inl fine ↦ (elim (Option-cases (lookup k run.pending_approvals)) [
            | inl unknown ↦ inl (not_pending, ground arith)
            | inr (a, known) ↦ (elim (Bool-cases (a.resolution_order == 0)) [
              | inr answered ↦ inl (not_pending, ground arith)
              | inl waiting ↦ (elim (Option-cases (decide option_id a.request.options approved)) [
                | inl unavailable ↦ inl (invalid_input, ground arith)
                | inr (decision, decided) ↦
                    inr (
                      run,
                      a,
                      decision,
                      found,
                      fine,
                      at,
                      known,
                      ground arith,
                      ground arith,
                      decided,
                    )
              ])
            ])
          ])
        ])
      ]

  resolve_locked-Sound :
      (n : ℕ) (e : Engine V) (session_id run_id k : String) (approved : Bool)
      (reason option_id : String)
      → IsConsistent n e
      → n + 1 < 2 ^ 64
      → Sound n (resolve_locked text session_id run_id k approved reason option_id e)
  resolve_locked-Sound n e session_id run_id k approved reason option_id inv small =
      elim (resolve-cases e session_id run_id k approved reason option_id) [
        | inl (error, failed) ↦ rw failed (same-IsConsistent (omega arith) inv, λ p. cc)
        | inr (run, a, decision, found, fine, at, known, waiting, settled, decided) ↦ rw settled (
            settle-Sound n e session_id run_id k run a
              (resolution_of text k a.request decision reason option_id) inv small at known waiting
              refl)
      ]

  pub resolve-Sound :
      (n : ℕ) (e : Engine V) (get_run : String → Option String) (run_id k : String)
      (approved : Bool) (reason option_id : String)
      → IsConsistent n e
      → n + 1 < 2 ^ 64
      → Sound n (resolve_tool_approval text get_run run_id k approved reason option_id e)
  unfolding resolve_tool_approval
  resolve-Sound n e get_run run_id k approved reason option_id inv small =
      elim (Bool-cases (ltb 2000 (count (trim_space reason)))) [
        | inl long ↦ rw long (same-IsConsistent (omega arith) inv, λ p. cc)
        | inr short ↦ (elim (Option-cases (get_run run_id)) [
          | inl missing ↦ rw (short, missing) (same-IsConsistent (omega arith) inv, λ p. cc)
          | inr (session_id, found) ↦
              rw (short, found)
                (resolve_locked-Sound n e session_id run_id k approved (trim_space reason)
                  (trim_space option_id) inv small)
        ])
      ]

-- What may happen to the approvals of an engine. A run starts in a session that has none, and goes
-- when it is over.
pub data Section (V : Type 0) : Type 0 where
  started : String → String → Section V
  finished : String → Section V
  registered : String → String → ToolApprovalRequest V → Section V
  removed : String → String → String → PendingToolApproval V → Section V
  resolved : String → String → Bool → String → String → Section V
  polled : String → String → List String → Bool → Section V

module _ {V : Type 0} (text : String → V) (get_run : String → Option String) where
  abbrev new_run : String → ActiveRun V
  new_run run_id = record {
    run_id = run_id;
    cancelled = none;
    pending_approvals = [];
    approval_failure = none;
    next_approval_resolution = 0;
  }

  abbrev unless_panic : Result (ToolApprovalResolution V) → Engine V → Option (Engine V)
  unless_panic panic e = none
  unless_panic _ e = some e

  -- The engine after a section, or `none` if it panics.
  unfoldable pub apply : Section V → Engine V → Option (Engine V)
  apply (started session_id run_id) e = elim (lookup session_id e.active) [
    | some busy ↦ some e
    | none ↦ some (put_run session_id (new_run run_id) e)
  ]
  apply (finished session_id) e = some (record e { active = delete session_id e.active })
  apply (registered session_id run_id request) e =
      some (register_pending_tool_approval session_id run_id request e).0
  apply (removed session_id run_id k pending) e =
      some (remove_pending_tool_approval session_id run_id k pending e)
  apply (resolved run_id k approved reason option_id) e =
      let (e', answer) = resolve_tool_approval text get_run run_id k approved reason option_id e in
      unless_panic answer e'
  apply (polled session_id run_id ids done) e = some (poll session_id run_id ids done e).0

  unfoldable pub run_sections : List (Section V) → Engine V → Option (Engine V)
  run_sections [] e = some e
  run_sections (s ∷ ss) e = do e' ← apply s e; run_sections ss e'

  unless_panic-some :
      (r : Result (ToolApprovalResolution V)) (e : Engine V) → r ≢ panic → unless_panic r e ≡ some e
  unless_panic-some (ok a) e h = refl
  unless_panic-some (err x) e h = refl
  unless_panic-some panic e h = absurd (h refl)

  start-IsConsistent :
      (n : ℕ) (e : Engine V) (session_id run_id : String)
      → IsConsistent n e
      → IsConsistent n (put_run session_id (new_run run_id) e)
  unfolding unresolved_tool_approval_count
  start-IsConsistent n e session_id run_id inv =
      put_run-IsConsistent session_id (new_run run_id) (omega arith) inv
        (record { bounded = omega arith; entries = tt; numbered = omega arith }) refl

  finish-IsConsistent :
      (n : ℕ) (e : Engine V) (session_id : String)
      → IsConsistent n e
      → IsConsistent n (record e { active = delete session_id e.active })
  finish-IsConsistent n e session_id inv = record {
    runs = λ s r found. inv.runs s r (ground (arith, lookup-delete session_id s e.active));
  }

  apply-IsConsistent :
      (n : ℕ) (s : Section V) (e : Engine V)
      → IsConsistent n e
      → n + 1 < 2 ^ 64
      → (e' : Engine V) × (apply s e ≡ some e') × IsConsistent (n + 1) e'
  unfolding apply
  apply-IsConsistent n (started session_id run_id) e inv small =
      elim (Option-cases (lookup session_id e.active)) [
        | inl free ↦ (
          put_run session_id (new_run run_id) e,
          ground arith,
          same-IsConsistent (omega arith) (start-IsConsistent n e session_id run_id inv),
        )
        | inr (busy, found) ↦ (e, ground arith, same-IsConsistent (omega arith) inv)
      ]
  apply-IsConsistent n (finished session_id) e inv small = (
    record e { active = delete session_id e.active },
    refl,
    same-IsConsistent (omega arith) (finish-IsConsistent n e session_id inv),
  )
  apply-IsConsistent n (registered session_id run_id request) e inv small = (
    (register_pending_tool_approval session_id run_id request e).0,
    refl,
    same-IsConsistent (omega arith) (register-IsConsistent n e session_id run_id request inv),
  )
  apply-IsConsistent n (removed session_id run_id k pending) e inv small = (
    remove_pending_tool_approval session_id run_id k pending e,
    refl,
    same-IsConsistent (omega arith) (remove-IsConsistent n e session_id run_id k pending inv),
  )
  apply-IsConsistent n (resolved run_id k approved reason option_id) e inv small =
      let (kept, calm) =
        resolve-Sound text n e get_run run_id k approved reason option_id inv small in
      let (e', answer) = resolve_tool_approval text get_run run_id k approved reason option_id e in
      (e', unless_panic-some answer e' calm, kept)
  apply-IsConsistent n (polled session_id run_id ids done) e inv small = (
    (poll session_id run_id ids done e).0,
    refl,
    same-IsConsistent (omega arith) (poll-IsConsistent n e session_id run_id ids done inv),
  )

  run_sections-IsConsistent :
      (n : ℕ) (ss : List (Section V)) (e : Engine V)
      → IsConsistent n e
      → n + length ss < 2 ^ 64
      → (e' : Engine V) × (run_sections ss e ≡ some e') × IsConsistent (n + length ss) e'
  unfolding run_sections
  run_sections-IsConsistent n [] e inv small = (e, refl, rw add-zero inv)
  run_sections-IsConsistent n (s ∷ ss) e inv small =
      let (e', applied, inv') = apply-IsConsistent n s e inv (omega arith) in
      let (e'', rest, inv'') = run_sections-IsConsistent (n + 1) ss e' inv' (omega arith) in
      let count : n + 1 + length ss ≡ n + suc (length ss) = omega arith in
      (e'', rw applied rest, rw count at inv'')

  -- From an engine with no run, fewer than 2^64 critical sections of the approvals, in any order,
  -- never panic: no channel is closed twice. In the engine that results, no run has more than 32
  -- approvals that wait for an answer, and a run's approval has its channel closed exactly when it
  -- is resolved.
  pub run_sections-empty_never_panics :
      (ss : List (Section V))
      → length ss < 2 ^ 64
      → (e : Engine V) × (run_sections ss (record { active = []; published = []; next_address = 0 })
          ≡ some e)
        × ((session_id : String) (run : ActiveRun V)
            → lookup session_id e.active ≡ some run
            → (unresolved_tool_approval_count run.pending_approvals ≤ max_pending_tool_approvals)
              × All EntryOk run.pending_approvals)
  unfolding lookup
  run_sections-empty_never_panics ss small =
      let (e, ran, inv) =
        run_sections-IsConsistent 0 ss (record { active = []; published = []; next_address = 0 })
          (record { runs = λ s r h. cc }) (omega arith) in
      (e, ran, λ s r found. ((inv.runs s r found).bounded, (inv.runs s r found).entries))
