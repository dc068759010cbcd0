-- ===== src/Engine/Hub/Timers.antt =====
-- The timer that `Complete` sets, and what may happen to the hub before it fires.
use materialmind.Common.{
  ℕ, ◌≤◌, ◌<◌, ◌≡◌, ◌∙◌, sym, ap, refl, true, false, Option, none, some, List, [], ◌∷◌, String,
  arith, length, get_elem?, set, length-set, length-append, lookup, lookup-insert, lookup-delete,
  get_elem?-set_self, Bool-cases, Option-cases, inl, inr, eq_iff, str_eq,
}
use materialmind.Engine.Hub.{
  Stream, Hub, Channel, find_stream, create, publish, complete, expire, subscribe_replay, cancel,
  ReplaySubscription, empty_stream,
}
use materialmind.Engine.Hub.Invariant.{get_elem?-lt}
use mathlib.Core.Path.{subst}
use materialmind.Engine.Hub.Runs.{expire-cases}
use materialmind.Engine.Hub.Safety.{find_stream-at}
use materialmind.Engine.Hub.Operations.{
  Operation, created, published, completed, expired, subscribed, cancelled, received, apply, run,
  receive_at, receive_from,
}

some_inj {ℓ} : {A : Type ℓ} (a b : A) → some a ≡ some b → a ≡ b
some_inj a b h = ground arith

module _ {ℓ} {D : Type ℓ} where
  -- The run's name leads to no stream from before `bound`.
  abbrev IsLater : String → ℕ → Hub D → Type 0
  IsLater run_id bound h =
      (bound ≤ length h.heap) × ((q : ℕ) → lookup run_id h.streams ≡ some q → bound ≤ q)

  -- The names stay, and streams are only added.
  abbrev Stays : Hub D → Hub D → Type 0
  Stays h h' = (h'.streams ≡ h.streams) × (length h.heap ≤ length h'.heap)

  publish-Stays :
      (run_id kind : String) (payload : D) (h h' : Hub D)
      → publish run_id kind payload h ≡ some h'
      → Stays h h'
  unfolding publish
  publish-Stays run_id kind payload h h' e = grind (arith, length-set)

  complete-Stays :
      (run_id : String) (h h' : Hub D) (timer : Option ℕ)
      → complete run_id h ≡ some (h', timer)
      → Stays h h'
  unfolding complete
  complete-Stays run_id h h' timer e = grind (arith, length-set)

  subscribe_replay-Stays :
      (run_id : String) (after : ℕ) (h h' : Hub D) (answer : Option ReplaySubscription)
      → subscribe_replay run_id after h ≡ some (h', answer)
      → Stays h h'
  unfolding subscribe_replay
  subscribe_replay-Stays run_id after h h' answer e = grind (arith, length-set)

  cancel-Stays :
      (run_id : String) (id : ℕ) (h h' : Hub D) → cancel run_id id h ≡ some h' → Stays h h'
  unfolding cancel
  cancel-Stays run_id id h h' e = grind (arith, length-set)

  receive_from-Stays : (c : Option (Channel D)) (id : ℕ) (h : Hub D) → Stays h (receive_from c id h)
  receive_from-Stays none id h = (refl, omega arith)
  receive_from-Stays (some c) id h = (refl, omega arith)

  Stays-IsLater :
      (run_id : String) (bound : ℕ) (h h' : Hub D)
      → Stays h h'
      → IsLater run_id bound h
      → IsLater run_id bound h'
  Stays-IsLater run_id bound h h' (same, more) (below, later) =
      (omega arith, λ q at. later q (ap (lookup run_id) (sym same) ∙ at))

  create-IsLater :
      (run_id other : String) (bound : ℕ) (h : Hub D)
      → bound ≤ length h.heap
      → ((q : ℕ) → lookup run_id h.streams ≡ some q → (str_eq other run_id ≡ false) → bound ≤ q)
      → IsLater run_id bound (create other h)
  unfolding create
  create-IsLater run_id other bound h below later = (
    omega (arith, length-append h.heap (empty_stream ∷ [])),
    λ q at. elim (Bool-cases (str_eq other run_id)) [
      | inl same ↦ ground (arith, at, lookup-insert other run_id (length h.heap) h.streams)
      | inr apart ↦
          later q (ground (arith, at, lookup-insert other run_id (length h.heap) h.streams)) apart
    ],
  )

  expire-IsLater :
      (run_id other : String) (captured bound : ℕ) (h : Hub D)
      → IsLater run_id bound h
      → IsLater run_id bound (expire other captured h)
  expire-IsLater run_id other captured bound h (below, later) =
      elim (expire-cases h other captured) [
        | inl same ↦ rw same (below, later)
        | inr gone ↦ rw gone (
          below,
          λ q at. elim (Bool-cases (str_eq other run_id)) [
            | inl same ↦ absurd (ground (arith, at, lookup-delete other run_id h.streams))
            | inr apart ↦ later q (ground (arith, at, lookup-delete other run_id h.streams))
          ],
        )
      ]

  apply-IsLater :
      (run_id : String) (bound : ℕ) (o : Operation D) (h h' : Hub D)
      → IsLater run_id bound h
      → apply o h ≡ some h'
      → IsLater run_id bound h'
  unfolding apply
  apply-IsLater run_id bound (created other) h h' later e =
      subst (IsLater run_id bound) (some_inj (create other h) h' e)
        (create-IsLater run_id other bound h later.0 (λ q at apart. later.1 q at))
  apply-IsLater run_id bound (published other kind payload) h h' later e =
      Stays-IsLater run_id bound h h' (publish-Stays other kind payload h h' e) later
  apply-IsLater run_id bound (completed other) h h' later e =
      elim (Option-cases (complete other h)) [
        | inl panics ↦ absurd (ground arith)
        | inr ((h1, timer), done) ↦
            let same : h1 ≡ h' = ground arith in
            Stays-IsLater run_id bound h h'
              (subst (Stays h) same (complete-Stays other h h1 timer done)) later
      ]
  apply-IsLater run_id bound (expired other captured) h h' later e =
      subst (IsLater run_id bound) (some_inj (expire other captured h) h' e)
        (expire-IsLater run_id other captured bound h later)
  apply-IsLater run_id bound (subscribed other after) h h' later e =
      elim (Option-cases (subscribe_replay other after h)) [
        | inl panics ↦ absurd (ground arith)
        | inr ((h1, answer), done) ↦
            let same : h1 ≡ h' = ground arith in
            Stays-IsLater run_id bound h h'
              (subst (Stays h) same (subscribe_replay-Stays other after h h1 answer done)) later
      ]
  apply-IsLater run_id bound (cancelled other id) h h' later e =
      Stays-IsLater run_id bound h h' (cancel-Stays other id h h' e) later
  apply-IsLater run_id bound (received id) h h' later e =
      subst (IsLater run_id bound) (some_inj (receive_at id h) h' e) (
        Stays-IsLater run_id bound h (receive_at id h)
          (receive_from-Stays (get_elem? h.channels id) id h) later)

  run-IsLater :
      (run_id : String) (bound : ℕ) (os : List (Operation D)) (h h' : Hub D)
      → IsLater run_id bound h
      → run os h ≡ some h'
      → IsLater run_id bound h'
  unfolding run
  run-IsLater run_id bound [] h h' later e = subst (IsLater run_id bound) (some_inj h h' e) later
  run-IsLater run_id bound (o ∷ os) h h' later e = elim (Option-cases (apply o h)) [
    | inl panics ↦ absurd (ground arith)
    | inr (h1, done) ↦
        run-IsLater run_id bound os h1 h' (apply-IsLater run_id bound o h h1 later done)
          (ground arith)
  ]

  -- A name that leads to no stream from before `bound` is left by the timers of those.
  IsLater-expire :
      (run_id : String) (p bound : ℕ) (h : Hub D)
      → p < bound
      → IsLater run_id bound h
      → expire run_id p h ≡ h
  unfolding expire find_stream
  IsLater-expire run_id p bound h old (below, later) =
      elim (Option-cases (lookup run_id h.streams)) [
        | inl missing ↦ ground arith
        | inr (q, at) ↦ let above = later q at in ground arith
      ]

  -- A call of `Complete` that sets a timer has marked the stream that the timer captures.
  complete-timer :
      (run_id : String) (h h1 : Hub D) (p : ℕ)
      → complete run_id h ≡ some (h1, some p)
      → (s : Stream D) × (find_stream h run_id ≡ some (p, s))
        × (h1.streams ≡ h.streams)
        × (h1.heap ≡ set h.heap p (record s { done = true; subscribers = [] }))
  unfolding complete
  complete-timer run_id h h1 p e = elim (Option-cases (find_stream h run_id)) [
    | inl missing ↦ absurd (ground arith)
    | inr ((q, s), found) ↦
        let same : q ≡ p = ground arith in
        (s, rw (← same) found, ground arith, rw (← same) (ground arith))
  ]

  find_stream-lookup :
      (h : Hub D) (run_id : String) (p : ℕ) (s : Stream D)
      → find_stream h run_id ≡ some (p, s)
      → lookup run_id h.streams ≡ some p
  unfolding find_stream
  find_stream-lookup h run_id p s found = ground arith

  -- The timer removes the name of a stream that is done.
  expire-find_stream :
      (run_id : String) (h : Hub D) (p : ℕ) (s : Stream D)
      → lookup run_id h.streams ≡ some p
      → get_elem? h.heap p ≡ some s
      → s.done ≡ true
      → find_stream (expire run_id p h) run_id ≡ none
  unfolding expire find_stream
  expire-find_stream run_id h p s named at done =
      ground (arith, lookup-delete run_id run_id h.streams, eq_iff run_id run_id)

  -- The timer that the end of a run sets removes the run's stream. If the run is started anew
  -- first, and whatever happens to the hub after that, even the end of the new stream, the timer
  -- changes nothing.
  pub complete-run-expire :
      (run_id : String) (h h1 h2 : Hub D) (p : ℕ) (os : List (Operation D))
      → complete run_id h ≡ some (h1, some p)
      → run os (create run_id h1) ≡ some h2
      → (find_stream (expire run_id p h1) run_id ≡ none) × (expire run_id p h2 ≡ h2)
  complete-run-expire run_id h h1 h2 p os ended ran =
      let (s, found, names, heap) = complete-timer run_id h h1 p ended in
      let ending : Stream D = record s { done = true; subscribers = [] } in
      let inside : p < length h.heap =
        get_elem?-lt h.heap p s (find_stream-at h run_id p s found) in
      let size : length h1.heap ≡ length h.heap = ap length heap ∙ length-set h.heap p ending in
      (
        expire-find_stream run_id h1 p ending
            (ap (lookup run_id) names ∙ find_stream-lookup h run_id p s found)
            (ap (λ (l : List (Stream D)). get_elem? l p) heap
              ∙ get_elem?-set_self h.heap p ending inside)
            refl,
        IsLater-expire run_id p (length h1.heap) h2 (omega arith) (
            run-IsLater run_id (length h1.heap) os (create run_id h1) h2
              (create-IsLater run_id run_id (length h1.heap) h1 (omega arith)
                (λ q at apart. absurd (ground (arith, eq_iff run_id run_id))))
              ran),
      )
