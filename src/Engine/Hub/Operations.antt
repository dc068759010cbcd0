-- ===== src/Engine/Hub/Operations.antt =====
-- Every sequence of operations on a hub: publishers, subscribers, timers and consumers interleaved
-- at the hub's lock.
use native.Mathlib.Nat.{add-zero, zero-add}
use native.Mathlib.Decide.{ℕ_discrete}
use materialmind.Common.{
  ℕ, suc, ◌+◌, ◌<◌, ◌^◌, ◌≡◌, refl, ◌∙◌, inl, inr, true, false, not, Option, none, some, List, [],
  ◌∷◌, String, arith, length, get_elem?, set, filter, Bool-cases, Option-cases, ◌==◌, any,
  get_elem?-set_self, ◌>>=◌,
}
use materialmind.Engine.Hub.{
  Channel, Stream, Hub, new_hub_with_limits, find_stream, create, publish, close_all, complete,
  expire, subscribe_replay, cancel, receive,
}
use materialmind.Engine.Hub.Ring.{IsRing-subscribers}
use materialmind.Engine.Hub.Invariant.{
  In, Nodup, get_elem?-lt, IsOpen, IsConsistent, update-IsConsistent, channels-IsConsistent,
}
use materialmind.Engine.Hub.Safety.{
  find_stream-at, publish-IsConsistent, close_all-some, number_up, IsOpen-set,
}
use materialmind.Engine.Hub.Runs.{
  new_hub-IsConsistent, create-IsConsistent, complete-IsConsistent, expire-IsConsistent,
}
use materialmind.Engine.Hub.Subscribers.{subscribe_replay-IsConsistent}

abbrev others : ℕ → List ℕ → List ℕ
others id = filter (λ j. not (j == id))

In-others : (id j : ℕ) (ids : List ℕ) → In j (others id ids) → In j ids × (¬ (j ≡ id))
In-others id j [] h = absurd h
In-others id j (i ∷ ids) h = elim (Bool-cases (i == id)) [
  | inl q ↦ let (old, ne) = In-others id j ids (rw q at h) in (inr old, ne)
  | inr q ↦ (elim (rw q at h) [
    | inl e ↦ (inl e, ground arith)
    | inr rest ↦ let (old, ne) = In-others id j ids rest in (inr old, ne)
  ])
]

Nodup-others : (id : ℕ) (ids : List ℕ) → Nodup ids → Nodup (others id ids)
Nodup-others id [] h = tt
Nodup-others id (i ∷ ids) (notin, h) = elim (Bool-cases (i == id)) [
  | inl q ↦ rw q (Nodup-others id ids h)
  | inr q ↦ rw q ((λ s. notin (In-others id i ids s).0), Nodup-others id ids h)
]

any-In : (id : ℕ) (ids : List ℕ) → any (λ j. j == id) ids ≡ true → In id ids
any-In id [] h = cc
any-In id (i ∷ ids) h = elim (Bool-cases (i == id)) [
  | inl q ↦ inl (ground arith)
  | inr q ↦ inr (any-In id ids (rw q at h))
]

module _ {ℓ} {D : Type ℓ} where
  cancel-eq :
      (h : Hub D) (run_id : String) (id p : ℕ) (s : Stream D) (channels : List (Channel D))
      → find_stream h run_id ≡ some (p, s)
      → s.done ≡ false
      → any (λ j. j == id) s.subscribers ≡ true
      → close_all (id ∷ []) h.channels ≡ some channels
      → cancel run_id id h
        ≡ some (record h {
          heap = set h.heap p (record s { subscribers = others id s.subscribers });
          channels = channels;
        })
  unfolding cancel
  cancel-eq h run_id id p s channels found open_s subscribed closed = ground arith

  cancel_found :
      (n : ℕ) (h : Hub D) (run_id : String) (id p : ℕ) (s : Stream D)
      → IsConsistent n h
      → find_stream h run_id ≡ some (p, s)
      → s.done ≡ false
      → any (λ j. j == id) s.subscribers ≡ true
      → (h' : Hub D) × (cancel run_id id h ≡ some h') × IsConsistent n h'
  cancel_found n h run_id id p s inv found open_s subscribed =
      let at = find_stream-at h run_id p s found in
      let there = any-In id s.subscribers subscribed in
      let (channels, closed, untouched) =
        close_all-some (id ∷ []) h.channels ((λ e. e), tt)
          (λ j. elim [ inl q ↦ rw q (inv.subscribers_open p s at id there) | inr e ↦ absurd e ]) in
      let left = others id s.subscribers in
      let apart : (j : ℕ) → ¬ (j ≡ id) → ¬ In j (id ∷ []) =
        λ j ne. elim [ inl q ↦ ne q | inr e ↦ e ] in
      (
        record h { heap = set h.heap p (record s { subscribers = left }); channels = channels },
        cancel-eq h run_id id p s channels found open_s subscribed closed,
        update-IsConsistent (omega arith) inv p s (record s { subscribers = left }) at
            (record {
              ring = IsRing-subscribers h.event_limit s left s.done (inv.rings p s at);
              number = inv.numbers p s at;
              nodup = Nodup-others id s.subscribers (inv.subscribers_nodup p s at);
              from_old = λ j js. inl (In-others id j s.subscribers js).0;
              still_open = λ j js.
                  let (old, ne) = In-others id j s.subscribers js in
                  let (c, before, open_c) = inv.subscribers_open p s at j old in
                  (c, untouched j (apart j ne) ∙ before, open_c);
              others_kept = λ j c nj before. untouched j (apart j (λ q. nj (rw q there))) ∙ before;
            }),
      )

  pub cancel-IsConsistent :
      (n : ℕ) (h : Hub D) (run_id : String) (id : ℕ)
      → IsConsistent n h
      → (h' : Hub D) × (cancel run_id id h ≡ some h') × IsConsistent n h'
  unfolding cancel
  cancel-IsConsistent n h run_id id inv = elim (Option-cases (find_stream h run_id)) [
    | inl missing ↦ (h, ground arith, inv)
    | inr ((p, s), found) ↦ (elim (Bool-cases s.done) [
      | inl done ↦ (h, ground arith, inv)
      | inr open_s ↦ (elim (Bool-cases (any (λ j. j == id) s.subscribers)) [
        | inl there ↦ cancel_found n h run_id id p s inv found open_s there
        | inr gone ↦ (h, ground arith, inv)
      ])
    ])
  ]

-- What may happen to a hub: the engine's calls, the timer of a completed run, the end of a
-- subscriber's context, and a consumer that takes an event from a channel.
pub data Operation {ℓ} (D : Type ℓ) : Type ℓ where
  created : String → Operation D
  published : String → String → D → Operation D
  completed : String → Operation D
  expired : String → ℕ → Operation D
  subscribed : String → ℕ → Operation D
  cancelled : String → ℕ → Operation D
  received : ℕ → Operation D

module _ {ℓ} {D : Type ℓ} where
  -- A consumer of the channel at an index takes its next event.
  abbrev pub receive_from : Option (Channel D) → ℕ → Hub D → Hub D
  receive_from none id h = h
  receive_from (some c) id h = record h { channels = set h.channels id (receive c).0 }

  abbrev pub receive_at : ℕ → Hub D → Hub D
  receive_at id h = receive_from (get_elem? h.channels id) id h

  unfoldable pub apply : Operation D → Hub D → Option (Hub D)
  apply (created run_id) h = some (create run_id h)
  apply (published run_id kind payload) h = publish run_id kind payload h
  apply (completed run_id) h = do done ← complete run_id h; some done.0
  apply (expired run_id captured) h = some (expire run_id captured h)
  apply (subscribed run_id after) h = do answer ← subscribe_replay run_id after h; some answer.0
  apply (cancelled run_id id) h = cancel run_id id h
  apply (received id) h = some (receive_at id h)

  unfoldable pub run : List (Operation D) → Hub D → Option (Hub D)
  run [] h = some h
  run (o ∷ os) h = do h' ← apply o h; run os h'

  closed-receive : (c : Channel D) → (receive c).0.closed ≡ c.closed
  unfolding receive
  closed-receive c = ground arith

  IsOpen-receive :
      (channels : List (Channel D)) (id j : ℕ) (c : Channel D)
      → get_elem? channels id ≡ some c
      → IsOpen channels j
      → IsOpen (set channels id (receive c).0) j
  IsOpen-receive channels id j c there (c', at, open_c) = elim (ℕ_discrete id j) [
    | yes e ↦ rw (← e) (
      (receive c).0,
      get_elem?-set_self channels id (receive c).0 (get_elem?-lt channels id c there),
      closed-receive c ∙ cc (there, at, open_c, e),
    )
    | no ne ↦ IsOpen-set channels id j (receive c).0 ne (c', at, open_c)
  ]

  receive_at-IsConsistent :
      (n : ℕ) (id : ℕ) (h : Hub D) → IsConsistent n h → IsConsistent n (receive_at id h)
  receive_at-IsConsistent n id h inv = elim (Option-cases (get_elem? h.channels id)) [
    | inl missing ↦ rw missing inv
    | inr (c, there) ↦ rw there (
        channels-IsConsistent (set h.channels id (receive c).0) inv
          (λ j. IsOpen-receive h.channels id j c there))
  ]

  apply-IsConsistent :
      (n : ℕ) (o : Operation D) (h : Hub D)
      → IsConsistent n h
      → n + 1 < 2 ^ 63
      → (h' : Hub D) × (apply o h ≡ some h') × IsConsistent (n + 1) h'
  unfolding apply
  apply-IsConsistent n (created run_id) h inv small =
      (create run_id h, refl, number_up (create-IsConsistent n h run_id inv))
  apply-IsConsistent n (published run_id kind payload) h inv small =
      publish-IsConsistent n h run_id kind payload inv small
  apply-IsConsistent n (completed run_id) h inv small =
      let (h', timer, e, inv') = complete-IsConsistent n h run_id inv in (h', rw e, number_up inv')
  apply-IsConsistent n (expired run_id captured) h inv small =
      (expire run_id captured h, refl, number_up (expire-IsConsistent n h run_id captured inv))
  apply-IsConsistent n (subscribed run_id after) h inv small =
      let (h', answer, e, inv') = subscribe_replay-IsConsistent n h run_id after inv in
      (h', rw e, number_up inv')
  apply-IsConsistent n (cancelled run_id id) h inv small =
      let (h', e, inv') = cancel-IsConsistent n h run_id id inv in (h', e, number_up inv')
  apply-IsConsistent n (received id) h inv small =
      (receive_at id h, refl, number_up (receive_at-IsConsistent n id h inv))

  pub run-IsConsistent :
      (n : ℕ) (os : List (Operation D)) (h : Hub D)
      → IsConsistent n h
      → n + length os < 2 ^ 63
      → (h' : Hub D) × (run os h ≡ some h') × IsConsistent (n + length os) h'
  unfolding run
  run-IsConsistent n [] h inv small = (h, refl, rw add-zero inv)
  run-IsConsistent n (o ∷ os) h inv small =
      let (h', e, inv') = apply-IsConsistent n o h inv (omega arith) in
      let (h'', e', inv'') = run-IsConsistent (n + 1) os h' inv' (omega arith) in
      let count : n + 1 + length os ≡ n + suc (length os) = omega arith in
      (h'', rw e e', rw count at inv'')

  -- Whatever fewer than 2^63 operations happen to a new hub, in whatever order, none of them
  -- panics: no event is sent on a closed channel, no channel is closed twice, no index is out of
  -- range. In the hub that results, every stream's events form a ring, and every subscribed channel
  -- is open and belongs to one stream.
  pub run-new_hub_never_panics :
      (limit buffer : ℕ) (os : List (Operation D))
      → length os < 2 ^ 63
      → (h : Hub D) × (run os (new_hub_with_limits limit buffer) ≡ some h)
        × IsConsistent (length os) h
  run-new_hub_never_panics limit buffer os small =
      let (h, e, inv) =
        run-IsConsistent 0 os (new_hub_with_limits limit buffer) (new_hub-IsConsistent limit buffer)
          (omega arith) in
      (h, e, rw zero-add at inv)
