-- ===== src/Engine/Approvals/Answers.antt =====
-- What an answer to an approval is, and which answer a waiting tool gets.
use materialmind.Common.{
  ◌+◌, ◌≤◌, ◌<◌, ◌^◌, ◌≡◌, ◌≢◌, refl, sym, ap, ◌∙◌, ◌⊎◌, inl, inr, Bool, true, false, Option, none,
  some, List, [], ◌∷◌, String, arith, Option-cases, if◌then◌else◌, str_eq, lookup, insert,
  lookup-insert, eq_iff, All,
}
use materialmind.Common.Int64.{add64}
use materialmind.Engine.Approvals.{
  not_pending, ToolApprovalResolution, PendingToolApproval, ActiveRun, Engine, ok, err, settle,
  resolve_locked, scan, is_next, resolution_of,
}
use materialmind.Engine.Approvals.Runs.{resolve-cases}

pub lookup-insert_self :
    {A : Type 0} (k : String) (v : A) (m : List (String × A)) → lookup k (insert k v m) ≡ some v
lookup-insert_self k v m = ground (arith, lookup-insert k k v m, eq_iff k k)

module _ {V : Type 0} (text : String → V) where
  -- A settled approval has a number of its own, unless the counter wraps around.
  pub settle-active :
      (e e' : Engine V) (session_id run_id k : String) (run : ActiveRun V)
      (a : PendingToolApproval V) (resolution r : ToolApprovalResolution V)
      → settle text session_id run_id k run a resolution e ≡ (e', ok r)
      → (r ≡ resolution)
        × (e'.active
            ≡ insert session_id
                (record run {
                  next_approval_resolution = add64 run.next_approval_resolution 1;
                  pending_approvals =
                      insert k
                        (record a {
                          resolution = resolution;
                          resolution_order = add64 run.next_approval_resolution 1;
                          resolved = true;
                        })
                        run.pending_approvals;
                })
                e.active)
  unfolding settle
  settle-active e e' session_id run_id k run a resolution r h = ground arith

  -- An approval that is resolved is not resolved again.
  resolve_answered :
      (e : Engine V) (session_id run_id k : String) (run : ActiveRun V) (a : PendingToolApproval V)
      (approved : Bool) (reason option_id : String)
      → lookup session_id e.active ≡ some run
      → str_eq run.run_id run_id ≡ true
      → run.approval_failure ≡ none
      → lookup k run.pending_approvals ≡ some a
      → a.resolution_order ≢ 0
      → resolve_locked text session_id run_id k approved reason option_id e ≡ (e, err not_pending)
  unfolding resolve_locked
  resolve_answered e session_id run_id k run a approved reason option_id at this fine known
        answered =
      ground arith

  -- An approval is answered once: after an answer, every other answer is refused and changes
  -- nothing, while the run's counter has not wrapped around.
  pub resolve_twice :
      (e e' : Engine V) (session_id run_id k : String) (approved approved' : Bool)
      (reason reason' option_id option_id' : String) (r : ToolApprovalResolution V)
      → ((run : ActiveRun V)
          → lookup session_id e.active ≡ some run
          → run.next_approval_resolution + 1 < 2 ^ 64)
      → resolve_locked text session_id run_id k approved reason option_id e ≡ (e', ok r)
      → resolve_locked text session_id run_id k approved' reason' option_id' e'
        ≡ (e', err not_pending)
  resolve_twice e e' session_id run_id k approved approved' reason reason' option_id option_id' r
        small h =
      elim (resolve-cases text e session_id run_id k approved reason option_id) [
        | inl (error, failed) ↦ cc
        | inr (run, a, decision, found, fine, at, known, waiting, settled, decided) ↦
            let resolution = resolution_of text k a.request decision reason option_id in
            let active' =
              (settle-active e e' session_id run_id k run a resolution r (sym settled ∙ h)).1 in
            let a' : PendingToolApproval V = record a {
              resolution = resolution;
              resolution_order = add64 run.next_approval_resolution 1;
              resolved = true;
            } in
            let run' : ActiveRun V = record run {
              next_approval_resolution = add64 run.next_approval_resolution 1;
              pending_approvals = insert k a' run.pending_approvals;
            } in
            let this : str_eq run.run_id run_id ≡ true = ground arith in
            resolve_answered e' session_id run_id k run' a' approved' reason' option_id'
              (ap (lookup session_id) active' ∙ lookup-insert_self session_id run' e.active) this
              fine (lookup-insert_self k a' run.pending_approvals) (omega (arith, small run at))
      ]

-- One of the requests that a tool waits for.
abbrev pub In : String → List String → Type 0
In id [] = ⊥
In id (other ∷ ids) = (id ≡ other) ⊎ In id ids

module _ {V : Type 0} where
  -- The best approval so far is resolved, and `next` is not later than it.
  abbrev IsAnswered : Option (PendingToolApproval V) → Type 0
  IsAnswered none = Unit
  IsAnswered (some b) = b.resolution_order ≢ 0

  abbrev BeforeBest : PendingToolApproval V → Option (PendingToolApproval V) → Type 0
  BeforeBest next none = Unit
  BeforeBest next (some b) = next.resolution_order ≤ b.resolution_order

  -- `next` was resolved before `a`, or `a` is not resolved, or they are the same in order.
  abbrev pub NotAfter : PendingToolApproval V → PendingToolApproval V → Type 0
  NotAfter next a = (a.resolution_order ≡ 0) ⊎ (next.resolution_order ≤ a.resolution_order)

  is_next-IsAnswered :
      (c : PendingToolApproval V) (best : Option (PendingToolApproval V))
      → IsAnswered best
      → IsAnswered (if is_next c best then some c else best)
  is_next-IsAnswered c none h = ground arith
  is_next-IsAnswered c (some b) h = ground arith

  is_next-BeforeBest :
      (next c : PendingToolApproval V) (best : Option (PendingToolApproval V))
      → BeforeBest next (if is_next c best then some c else best)
      → BeforeBest next best × NotAfter next c
  is_next-BeforeBest next c none h = ground arith
  is_next-BeforeBest next c (some b) h = ground arith

  scan-found :
      (id : String) (ids : List String) (m : List (String × PendingToolApproval V))
      (best : Option (PendingToolApproval V)) (c : PendingToolApproval V)
      → lookup id m ≡ some c
      → scan (id ∷ ids) m best ≡ scan ids m (if is_next c best then some c else best)
  unfolding scan
  scan-found id ids m best c found = ground arith

  scan-missing :
      (id : String) (ids : List String) (m : List (String × PendingToolApproval V))
      (best : Option (PendingToolApproval V))
      → lookup id m ≡ none
      → scan (id ∷ ids) m best ≡ err not_pending
  unfolding scan
  scan-missing id ids m best missing = ground arith

  -- `next` is the best so far, or an approval that is waited for.
  abbrev IsFrom :
      List String
      → List (String × PendingToolApproval V)
      → Option (PendingToolApproval V)
      → PendingToolApproval V
      → Type 0
  IsFrom ids m best next =
      (best ≡ some next) ⊎ ((id : String) × In id ids × (lookup id m ≡ some next))

  is_next-IsFrom :
      (id : String) (ids : List String) (m : List (String × PendingToolApproval V))
      (best : Option (PendingToolApproval V)) (c next : PendingToolApproval V) (b : Bool)
      → lookup id m ≡ some c
      → IsFrom ids m (if b then some c else best) next
      → IsFrom (id ∷ ids) m best next
  is_next-IsFrom id ids m best c next b found (inr (other, there, at)) = inr (other, inr there, at)
  is_next-IsFrom id ids m best c next true found (inl same) = inr (id, inl refl, found ∙ same)
  is_next-IsFrom id ids m best c next false found (inl same) = inl same

  scan-IsFrom :
      (ids : List String) (m : List (String × PendingToolApproval V))
      (best : Option (PendingToolApproval V)) (next : PendingToolApproval V)
      → scan ids m best ≡ ok (some next)
      → IsFrom ids m best next
  unfolding scan
  scan-IsFrom [] m best next h = inl (ground arith)
  scan-IsFrom (id ∷ ids) m best next h = elim (Option-cases (lookup id m)) [
    | inl missing ↦ cc (scan-missing id ids m best missing)
    | inr (c, found) ↦ is_next-IsFrom id ids m best c next (is_next c best) found (
        scan-IsFrom ids m (if is_next c best then some c else best) next
          (sym (scan-found id ids m best c found) ∙ h))
  ]

  scan_from-first :
      (ids : List String) (m : List (String × PendingToolApproval V))
      (best : Option (PendingToolApproval V)) (next : PendingToolApproval V)
      → IsAnswered best
      → scan ids m best ≡ ok (some next)
      → (next.resolution_order ≢ 0)
        × BeforeBest next best
        × All (λ id. (a : PendingToolApproval V) → lookup id m ≡ some a → NotAfter next a) ids
  unfolding scan
  scan_from-first [] m none next good h = cc
  scan_from-first [] m (some b) next good h = ground arith
  scan_from-first (id ∷ ids) m best next good h = elim (Option-cases (lookup id m)) [
    | inl missing ↦ cc (scan-missing id ids m best missing)
    | inr (c, found) ↦
        let (answered, before, rest) =
          scan_from-first ids m (if is_next c best then some c else best) next
            (is_next-IsAnswered c best good) (sym (scan-found id ids m best c found) ∙ h) in
        let (old, this) = is_next-BeforeBest next c best before in
        let same : (a : PendingToolApproval V) → lookup id m ≡ some a → NotAfter next a =
          λ a e. let q : c ≡ a = cc in rw (← q) this in
        (answered, old, (same, rest))
  ]

  -- A tool that waits for several approvals gets one of these, which is resolved, and none of the
  -- others of these that are resolved was resolved before it.
  pub scan-first :
      (ids : List String) (m : List (String × PendingToolApproval V)) (next : PendingToolApproval V)
      → scan ids m none ≡ ok (some next)
      → ((id : String) × In id ids × (lookup id m ≡ some next))
        × (next.resolution_order ≢ 0)
        × All (λ id. (a : PendingToolApproval V) → lookup id m ≡ some a → NotAfter next a) ids
  scan-first ids m next h =
      let (answered, _, rest) = scan_from-first ids m none next tt h in
      (
        elim (scan-IsFrom ids m none next h) [
          | inl nothing ↦ absurd (ground arith)
          | inr one ↦ one
        ],
        answered,
        rest,
      )
