-- ===== src/Engine/Hub/Runs.antt =====
-- The other operations of a hub keep what holds of it, and so does every sequence of operations.
use materialmind.Common.{
  delete, get_elem?-some, ℕ, ◌≤◌, ◌≡◌, refl, ◌∙◌, ◌⊎◌, inl, inr, true, false, Option, none, some,
  List, [], ◌∷◌, String, ◌++◌, arith, length, set, get_elem?-append_left, Bool-cases, ltb,
  Option-cases,
}
use materialmind.Common.Int64.{add64}
use materialmind.Engine.Hub.{
  Channel, Stream, Hub, new_hub_with_limits, empty_stream, find_stream, create, close_all, complete,
  expire, oldest_sequence,
}
use materialmind.Engine.Hub.Ring.{IsRing, IsRing-subscribers, window}
use materialmind.Engine.Hub.Invariant.{
  In, Nodup, get_elem?-lt, get_elem?-append-cases, IsOpen, IsConsistent, update-IsConsistent,
  streams-IsConsistent,
}
use materialmind.Engine.Hub.Safety.{find_stream-at, close_all-some}

module _ {ℓ} {D : Type ℓ} where
  pub new_hub-IsConsistent :
      (limit buffer : ℕ) → IsConsistent 0 (new_hub_with_limits {D = D} limit buffer)
  unfolding new_hub_with_limits
  new_hub-IsConsistent limit buffer = record {
    limit_pos = omega arith;
    rings = λ p s h. cc;
    numbers = λ p s h. cc;
    subscribers_open = λ p s h. cc;
    subscribers_nodup = λ p s h. cc;
    subscribers_apart = λ p q s t j h. cc;
  }

  complete-eq :
      (h : Hub D) (run_id : String) (p : ℕ) (s : Stream D) (channels : List (Channel D))
      → find_stream h run_id ≡ some (p, s)
      → s.done ≡ false
      → close_all s.subscribers h.channels ≡ some channels
      → complete run_id h
        ≡ some (
          record h {
            heap = set h.heap p (record s { done = true; subscribers = [] });
            channels = channels;
          },
          some p,
        )
  unfolding complete
  complete-eq h run_id p s channels found open_s closed = ground arith

  pub complete-IsConsistent :
      (n : ℕ) (h : Hub D) (run_id : String)
      → IsConsistent n h
      → (h' : Hub D) × (timer : Option ℕ) × (complete run_id h ≡ some (h', timer))
        × IsConsistent n h'
  unfolding complete
  complete-IsConsistent n h run_id inv = elim (Option-cases (find_stream h run_id)) [
    | inl missing ↦ (h, none, ground arith, inv)
    | inr ((p, s), found) ↦ (elim (Bool-cases s.done) [
      | inl done ↦ (h, none, ground arith, inv)
      | inr open_s ↦
          let at = find_stream-at h run_id p s found in
          let (channels, closed, untouched) =
            close_all-some s.subscribers h.channels (inv.subscribers_nodup p s at)
              (inv.subscribers_open p s at) in
          (
            record h {
              heap = set h.heap p (record s { done = true; subscribers = [] });
              channels = channels;
            },
            some p,
            complete-eq h run_id p s channels found open_s closed,
            update-IsConsistent (omega arith) inv p s (record s { done = true; subscribers = [] })
                at
                (record {
                  ring = IsRing-subscribers h.event_limit s [] true (inv.rings p s at);
                  number = inv.numbers p s at;
                  nodup = tt;
                  from_old = λ j h. absurd h;
                  still_open = λ j h. absurd h;
                  others_kept = λ j c nj there. untouched j nj ∙ there;
                }),
          )
    ])
  ]

  pub expire-cases :
      (h : Hub D) (run_id : String) (captured : ℕ)
      → (expire run_id captured h ≡ h)
        ⊎ (expire run_id captured h ≡ record h { streams = delete run_id h.streams })
  unfolding expire
  expire-cases h run_id captured = ground arith

  pub expire-IsConsistent :
      (n : ℕ) (h : Hub D) (run_id : String) (captured : ℕ)
      → IsConsistent n h
      → IsConsistent n (expire run_id captured h)
  expire-IsConsistent n h run_id captured inv = elim (expire-cases h run_id captured) [
    | inl same ↦ rw same inv
    | inr gone ↦ rw gone (streams-IsConsistent (delete run_id h.streams) inv)
  ]

  IsRing-empty : (limit : ℕ) → IsRing limit (empty_stream {D = D})
  unfolding empty_stream window
  IsRing-empty limit = record {
    fits = omega arith;
    start_below = inl refl;
    unwrapped = λ _. refl;
    numbered = tt;
    counted = refl;
  }

  no_subscribers : (t : Stream D) (j : ℕ) → t ≡ empty_stream → ¬ In j t.subscribers
  unfolding empty_stream
  no_subscribers t j e h = rw e at h

  fresh-number : (t : Stream D) (n : ℕ) → t ≡ empty_stream → t.next_sequence ≤ n
  unfolding empty_stream
  fresh-number t n e = rw e (omega arith)

  fresh-Nodup : (t : Stream D) → t ≡ empty_stream → Nodup t.subscribers
  unfolding empty_stream
  fresh-Nodup t e = rw e tt

  pub create-IsConsistent :
      (n : ℕ) (h : Hub D) (run_id : String) → IsConsistent n h → IsConsistent n (create run_id h)
  unfolding create
  create-IsConsistent n h run_id inv = record {
    limit_pos = inv.limit_pos;
    rings = λ p s at. elim (get_elem?-append-cases h.heap p empty_stream s at) [
      | inl old ↦ inv.rings p s old
      | inr (_, e) ↦ rw e (IsRing-empty h.event_limit)
    ];
    numbers = λ p s at. elim (get_elem?-append-cases h.heap p empty_stream s at) [
      | inl old ↦ inv.numbers p s old
      | inr (_, e) ↦ fresh-number s n e
    ];
    subscribers_open = λ p s at j js. elim (get_elem?-append-cases h.heap p empty_stream s at) [
      | inl old ↦ inv.subscribers_open p s old j js
      | inr (_, e) ↦ absurd (no_subscribers s j e js)
    ];
    subscribers_nodup = λ p s at. elim (get_elem?-append-cases h.heap p empty_stream s at) [
      | inl old ↦ inv.subscribers_nodup p s old
      | inr (_, e) ↦ fresh-Nodup s e
    ];
    subscribers_apart = λ p q s t j atp atq js jt.
        elim (get_elem?-append-cases h.heap p empty_stream s atp) [
          | inl old ↦ (elim (get_elem?-append-cases h.heap q empty_stream t atq) [
            | inl old' ↦ inv.subscribers_apart p q s t j old old' js jt
            | inr (_, e) ↦ absurd (no_subscribers t j e jt)
          ])
          | inr (_, e) ↦ absurd (no_subscribers s j e js)
        ];
  }

  pub oldest_sequence-some :
      (limit : ℕ) (s : Stream D) → IsRing limit s → (o : ℕ) × (oldest_sequence s ≡ some o)
  unfolding oldest_sequence
  oldest_sequence-some limit s r = elim (Bool-cases (ltb 0 (length s.events))) [
    | inl some_events ↦
        let (e, at) = get_elem?-some s.events s.event_start (ground (arith, r.start_below)) in
        (e.sequence, rw (some_events, at))
    | inr no_events ↦ (add64 s.next_sequence 1, rw no_events)
  ]

  pub IsOpen-append :
      (channels : List (Channel D)) (c : Channel D) (j : ℕ)
      → IsOpen channels j
      → IsOpen (channels ++ c ∷ []) j
  IsOpen-append channels c j (c', there, open_c) = (
    c',
    get_elem?-append_left channels (c ∷ []) j (get_elem?-lt channels j c' there) ∙ there,
    open_c,
  )
