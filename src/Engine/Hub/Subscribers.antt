-- ===== src/Engine/Hub/Subscribers.antt =====
-- Subscribing and cancelling keep what holds of a hub, and a new subscriber is sent what it missed.
use materialmind.Common.{
  ℕ, ◌+◌, ◌<◌, ◌≡◌, refl, ◌∙◌, inl, inr, true, false, Option, none, some, List, [], ◌∷◌, String,
  ◌++◌, arith, length, get_elem?, set, filter, get_elem?-append_left, get_elem?-append_length,
  Bool-cases, Option-cases,
}
use materialmind.Common.Int64.{slt}
use materialmind.Engine.Hub.{
  StreamEvent, Channel, Stream, Hub, find_stream, events_after, oldest_sequence, subscribe_replay,
  ReplaySubscription, is_truncated,
}
use materialmind.Engine.Hub.Ring.{IsRing-subscribers, window, events_after-eq-filter}
use materialmind.Engine.Hub.Invariant.{
  In, get_elem?-lt, IsConsistent, IsUpdate, update-IsConsistent, channels-IsConsistent,
}
use materialmind.Engine.Hub.Safety.{find_stream-at}
use materialmind.Engine.Hub.Runs.{oldest_sequence-some, IsOpen-append}

get_elem?-length {ℓ} : {A : Type ℓ} (xs : List A) → get_elem? xs (length xs) ≡ none
get_elem?-length [] = refl
get_elem?-length (x ∷ xs) = get_elem?-length xs

module _ {ℓ} {D : Type ℓ} where
  -- The channel that a subscriber gets, and the hub after it.
  abbrev pub replay_channel : Hub D → Stream D → List (StreamEvent D) → Channel D
  replay_channel h s replay = record {
    buffer = replay;
    capacity = length replay + h.subscriber_buffer;
    closed = s.done;
  }

  abbrev pub with_channel : Hub D → Channel D → Hub D
  with_channel h c = record h { channels = h.channels ++ c ∷ [] }

  abbrev pub subscription : Hub D → Stream D → ℕ → ℕ → ReplaySubscription
  subscription h s after oldest = record {
    events = length h.channels;
    truncated = is_truncated s after;
    oldest_sequence = oldest;
  }

  subscribe-done_eq :
      (h : Hub D) (run_id : String) (after p oldest : ℕ) (s : Stream D)
      (replay : List (StreamEvent D))
      → find_stream h run_id ≡ some (p, s)
      → events_after s after ≡ some replay
      → oldest_sequence s ≡ some oldest
      → s.done ≡ true
      → subscribe_replay run_id after h
        ≡ some (with_channel h (replay_channel h s replay), some (subscription h s after oldest))
  unfolding subscribe_replay
  subscribe-done_eq h run_id after p oldest s replay found read first done = ground arith

  subscribe-open_eq :
      (h : Hub D) (run_id : String) (after p oldest : ℕ) (s : Stream D)
      (replay : List (StreamEvent D))
      → find_stream h run_id ≡ some (p, s)
      → events_after s after ≡ some replay
      → oldest_sequence s ≡ some oldest
      → s.done ≡ false
      → subscribe_replay run_id after h
        ≡ some (
          record h {
            heap = set h.heap p (record s { subscribers = length h.channels ∷ s.subscribers });
            channels = h.channels ++ replay_channel h s replay ∷ [];
          },
          some (subscription h s after oldest),
        )
  unfolding subscribe_replay
  subscribe-open_eq h run_id after p oldest s replay found read first open_s = ground arith

  subscribe-IsUpdate :
      (n : ℕ) (h : Hub D) (p : ℕ) (s : Stream D) (replay : List (StreamEvent D))
      → IsConsistent n h
      → get_elem? h.heap p ≡ some s
      → s.done ≡ false
      → IsUpdate n h s
          (record s { subscribers = length h.channels ∷ s.subscribers })
          (h.channels ++ replay_channel h s replay ∷ [])
  subscribe-IsUpdate n h p s replay inv at open_s =
      let fresh : (j : ℕ) → In j s.subscribers → j < length h.channels = λ j js.
        let (c, there, _) = inv.subscribers_open p s at j js in get_elem?-lt h.channels j c there in
      record {
        ring =
            IsRing-subscribers h.event_limit s (length h.channels ∷ s.subscribers) s.done
              (inv.rings p s at);
        number = inv.numbers p s at;
        nodup = (
          (λ js. absurd (omega (arith, fresh (length h.channels) js))),
          inv.subscribers_nodup p s at,
        );
        from_old = λ j. elim [ inl q ↦ inr (rw q (get_elem?-length h.channels)) | inr js ↦ inl js ];
        still_open = λ j. elim [
          | inl q ↦
              rw q (replay_channel h s replay, get_elem?-append_length h.channels _ [], open_s)
          | inr js ↦
              IsOpen-append h.channels (replay_channel h s replay) j
                (inv.subscribers_open p s at j js)
        ];
        others_kept = λ j c nj there.
            get_elem?-append_left h.channels (replay_channel h s replay ∷ []) j
              (get_elem?-lt h.channels j c there)
            ∙ there;
      }

  -- Subscribing never panics, and keeps what holds of a hub.
  pub subscribe_replay-IsConsistent :
      (n : ℕ) (h : Hub D) (run_id : String) (after : ℕ)
      → IsConsistent n h
      → (h' : Hub D) × (answer : Option ReplaySubscription) × (subscribe_replay run_id after h
          ≡ some (h', answer))
        × IsConsistent n h'
  unfolding subscribe_replay
  subscribe_replay-IsConsistent n h run_id after inv = elim (Option-cases (find_stream h run_id)) [
    | inl missing ↦ (h, none, ground arith, inv)
    | inr ((p, s), found) ↦
        let at = find_stream-at h run_id p s found in
        let read = events_after-eq-filter h.event_limit s after (inv.rings p s at) in
        let (oldest, first) = oldest_sequence-some h.event_limit s (inv.rings p s at) in
        let replay : List (StreamEvent D) = filter (λ e. slt after e.sequence) (window s) in
        elim (Bool-cases s.done) [
          | inl done ↦ (
            with_channel h (replay_channel h s replay),
            some (subscription h s after oldest),
            subscribe-done_eq h run_id after p oldest s replay found read first done,
            channels-IsConsistent (h.channels ++ replay_channel h s replay ∷ []) inv
                (IsOpen-append h.channels (replay_channel h s replay)),
          )
          | inr open_s ↦ (
            record h {
              heap = set h.heap p (record s { subscribers = length h.channels ∷ s.subscribers });
              channels = h.channels ++ replay_channel h s replay ∷ [];
            },
            some (subscription h s after oldest),
            subscribe-open_eq h run_id after p oldest s replay found read first open_s,
            update-IsConsistent (omega arith) inv p s
                (record s { subscribers = length h.channels ∷ s.subscribers }) at
                (subscribe-IsUpdate n h p s replay inv at open_s),
          )
        ]
  ]
