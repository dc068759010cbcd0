-- ===== src/Engine/Approvals/Invariant.antt =====
-- What holds of a run's approvals between two critical sections: at most 32 wait for an answer, and
-- the channel of an approval is closed exactly when it is resolved.
use materialmind.Common.{
  ℕ, suc, ◌+◌, ◌≤◌, ◌<◌, ◌≡◌, ◌≢◌, ◌⊎◌, inl, inr, true, false, not, some, List, [], ◌∷◌, String,
  arith, Bool-cases, ◌==◌, str_eq, lookup, insert, delete, lookup-insert, All, eq_iff,
}
use materialmind.Engine.Approvals.{
  ToolApprovalRequest, PendingToolApproval, ActiveRun, Engine, max_pending_tool_approvals,
  unresolved_tool_approval_count,
}

module _ {A : Type 0} (P : String × A → Type 0) where
  All-insert :
      (k : String) (v : A) (m : List (String × A)) → P (k, v) → All P m → All P (insert k v m)
  unfolding insert
  All-insert k v [] p h = (p, tt)
  All-insert k v ((j, w) ∷ m) p (hj, h) = elim (Bool-cases (str_eq j k)) [
    | inl q ↦ rw q (p, h)
    | inr q ↦ rw q (hj, All-insert k v m p h)
  ]

  All-delete : (k : String) (m : List (String × A)) → All P m → All P (delete k m)
  unfolding delete
  All-delete k [] h = tt
  All-delete k ((j, w) ∷ m) (hj, h) = elim (Bool-cases (str_eq j k)) [
    | inl q ↦ rw q (All-delete k m h)
    | inr q ↦ rw q (hj, All-delete k m h)
  ]

  pub All-lookup :
      (k : String) (m : List (String × A)) (v : A) → All P m → lookup k m ≡ some v → P (k, v)
  unfolding lookup
  All-lookup k [] v h e = cc
  All-lookup k ((j, w) ∷ m) v (hj, h) e = elim (Bool-cases (str_eq j k)) [
    | inl q ↦
        let same : j ≡ k = (eq_iff j k).0 q in
        let found : w ≡ v = ground arith in rw (← same, ← found) hj
    | inr q ↦ All-lookup k m v h (rw q at e)
  ]

module _ {V : Type 0} where
  count-insert :
      (k : String) (a : PendingToolApproval V) (m : List (String × PendingToolApproval V))
      → unresolved_tool_approval_count (insert k a m) ≤ suc (unresolved_tool_approval_count m)
  unfolding unresolved_tool_approval_count insert
  count-insert k a [] = ground arith
  count-insert k a ((j, b) ∷ m) = ground (arith, count-insert k a m)

  count-insert_resolved :
      (k : String) (a : PendingToolApproval V) (m : List (String × PendingToolApproval V))
      → a.resolution_order ≢ 0
      → unresolved_tool_approval_count (insert k a m) ≤ unresolved_tool_approval_count m
  unfolding unresolved_tool_approval_count insert
  count-insert_resolved k a [] h = ground arith
  count-insert_resolved k a ((j, b) ∷ m) h = ground (arith, count-insert_resolved k a m)

  count-delete :
      (k : String) (m : List (String × PendingToolApproval V))
      → unresolved_tool_approval_count (delete k m) ≤ unresolved_tool_approval_count m
  unfolding unresolved_tool_approval_count delete
  count-delete k [] = ground arith
  count-delete k ((j, b) ∷ m) = ground (arith, count-delete k m)

  -- An entry of the map of pending approvals: its channel is closed exactly when it is resolved,
  -- and its resolution carries the entry's key.
  abbrev pub EntryOk : String × PendingToolApproval V → Type 0
  EntryOk (k, a) =
      (a.resolved ≡ not (a.resolution_order == 0))
      × ((a.resolution_order ≡ 0) ⊎ (a.resolution.id ≡ k))

  -- `n` bounds the number of resolutions so far.
  pub record IsRun (n : ℕ) (run : ActiveRun V) : Type 0 where
    pub bounded : unresolved_tool_approval_count run.pending_approvals ≤ max_pending_tool_approvals
    pub entries : All EntryOk run.pending_approvals
    pub numbered : run.next_approval_resolution ≤ n

  pub record IsConsistent (n : ℕ) (e : Engine V) : Type 0 where
    pub runs :
        (session_id : String) (run : ActiveRun V)
        → lookup session_id e.active ≡ some run
        → IsRun n run

  -- A new value for one run.
  pub put_run-IsConsistent :
      {n n' : ℕ} {e e' : Engine V} (session_id : String) (run : ActiveRun V)
      → n ≤ n'
      → IsConsistent n e
      → IsRun n' run
      → e'.active ≡ insert session_id run e.active
      → IsConsistent n' e'
  put_run-IsConsistent {n} {n'} {e} {e'} session_id run grows inv new put = record {
    runs = λ s r found. at s r (rw put at found);
  }
    where
      at :
          (s : String) (r : ActiveRun V)
          → lookup s (insert session_id run e.active) ≡ some r
          → IsRun n' r
      at s r found = elim (Bool-cases (str_eq session_id s)) [
        | inl q ↦
            let same : run ≡ r = ground (arith, lookup-insert session_id s run e.active) in
            rw (← same) new
        | inr q ↦
            let old : lookup s e.active ≡ some r =
              ground (arith, lookup-insert session_id s run e.active) in
            record {
              bounded = (inv.runs s r old).bounded;
              entries = (inv.runs s r old).entries;
              numbered = omega (arith, (inv.runs s r old).numbered);
            }
      ]

  pub same-IsConsistent : {n n' : ℕ} {e : Engine V} → n ≤ n' → IsConsistent n e → IsConsistent n' e
  same-IsConsistent grows inv = record {
    runs = λ s r found. record {
      bounded = (inv.runs s r found).bounded;
      entries = (inv.runs s r found).entries;
      numbered = omega (arith, (inv.runs s r found).numbered);
    };
  }

  pub admit-IsRun :
      (n address : ℕ) (run : ActiveRun V) (request : ToolApprovalRequest V)
      (a : PendingToolApproval V)
      → IsRun n run
      → unresolved_tool_approval_count run.pending_approvals < max_pending_tool_approvals
      → a.resolution_order ≡ 0
      → a.resolved ≡ false
      → IsRun n (record run { pending_approvals = insert request.id a run.pending_approvals })
  admit-IsRun n address run request a r room zero_order unresolved = record {
    bounded = omega (arith, count-insert request.id a run.pending_approvals);
    entries =
        All-insert EntryOk request.id a run.pending_approvals (ground arith, inl zero_order)
          r.entries;
    numbered = r.numbered;
  }

  pub delete-IsRun :
      (n : ℕ) (run : ActiveRun V) (k : String)
      → IsRun n run
      → IsRun n (record run { pending_approvals = delete k run.pending_approvals })
  delete-IsRun n run k r = record {
    bounded = omega (arith, count-delete k run.pending_approvals, r.bounded);
    entries = All-delete EntryOk k run.pending_approvals r.entries;
    numbered = r.numbered;
  }

  pub settle-IsRun :
      (n : ℕ) (run : ActiveRun V) (k : String) (a : PendingToolApproval V)
      → IsRun n run
      → a.resolution_order ≡ run.next_approval_resolution + 1
      → a.resolved ≡ true
      → a.resolution.id ≡ k
      → IsRun (n + 1) (record run {
        next_approval_resolution = a.resolution_order;
        pending_approvals = insert k a run.pending_approvals;
      })
  settle-IsRun n run k a r order closed named = record {
    bounded =
        omega (arith, count-insert_resolved k a run.pending_approvals (omega arith), r.bounded);
    entries = All-insert EntryOk k a run.pending_approvals (ground arith, inr named) r.entries;
    numbered = omega (arith, r.numbered);
  }
