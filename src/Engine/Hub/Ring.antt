-- ===== src/Engine/Hub/Ring.antt =====
-- The ring of a stream is a window on the sequence of its events: the most recent ones, in order.
use materialmind.Common.{
  ℕ, zero, suc, ◌+◌, ◌-◌, ◌%◌, ◌≤◌, ◌<◌, ◌≡◌, some, List, [], ◌∷◌, ◌++◌, arith, length, get_elem?,
  filter, take, drop, get_elem?-rotate, drop-eq-cons, drop_all, length-append, length-take,
  length-drop, get_elem?-some, ◌⊎◌, Bool, zero,
}
use materialmind.Common.Int64.{slt}
use materialmind.Engine.Hub.{StreamEvent, Stream, events_loop, events_after}

-- The last `n` of a list.
abbrev pub last {ℓ} : {A : Type ℓ} → ℕ → List A → List A
last n xs = drop (length xs - n) xs

module _ {ℓ} {D : Type ℓ} where
  -- The events of the ring, oldest first.
  unfoldable pub window : Stream D → List (StreamEvent D)
  window s = drop s.event_start s.events ++ take s.event_start s.events

  -- The events are numbered `n + 1`, `n + 2`, ….
  abbrev pub Numbered : ℕ → List (StreamEvent D) → Type 0
  Numbered n [] = Unit
  Numbered n (e ∷ es) = (e.sequence ≡ n + 1) × Numbered (n + 1) es

  -- What holds of a stream's ring between two operations of a hub with this event limit.
  pub record IsRing (limit : ℕ) (s : Stream D) : Type 0 where
    pub fits : length s.events ≤ limit
    pub start_below : (s.event_start ≡ 0) ⊎ (s.event_start < length s.events)
    pub unwrapped : length s.events < limit → s.event_start ≡ 0
    pub numbered : Numbered s.dropped_through (window s)
    pub counted : s.next_sequence ≡ s.dropped_through + length s.events

  pub length-window :
      (s : Stream D) → s.event_start ≤ length s.events → length (window s) ≡ length s.events
  unfolding window
  length-window s h = omega (
    arith,
    length-append (drop s.event_start s.events) (take s.event_start s.events),
    length-drop s.event_start s.events,
    length-take s.event_start s.events,
  )

  -- The ring's index arithmetic reads the window in order.
  pub get_elem?-window :
      (s : Stream D) (o : ℕ)
      → (s.event_start ≡ 0) ⊎ (s.event_start < length s.events)
      → o < length s.events
      → get_elem? s.events ((s.event_start + o) % length s.events) ≡ get_elem? (window s) o
  unfolding window
  get_elem?-window s o below h = get_elem?-rotate s.events s.event_start o below h

  -- The loop of a replay, from a round on, keeps what is newer than `after`.
  events_loop-eq-filter :
      (s : Stream D) (after : ℕ)
      → (s.event_start ≡ 0) ⊎ (s.event_start < length s.events)
      → (rounds offset : ℕ) → offset + rounds ≡ length s.events
      → events_loop s after offset rounds
        ≡ some (filter (λ e. slt after e.sequence) (drop offset (window s)))
  unfolding events_loop
  events_loop-eq-filter s after below zero offset h =
      rw (drop_all offset (window s) (omega (arith, length-window s (omega arith))))
  events_loop-eq-filter s after below (suc rounds) offset h =
      let (e, at) =
        get_elem?-some s.events ((s.event_start + offset) % length s.events) (omega arith) in
      rw (at, events_loop-eq-filter s after below rounds (offset + 1) (omega arith))
        (ground (arith, drop-eq-cons offset (window s) e, get_elem?-window s offset below))

  -- A replay never reads outside the ring, and returns what is newer than `after`, in order.
  pub events_after-eq-filter :
      (limit : ℕ) (s : Stream D) (after : ℕ)
      → IsRing limit s
      → events_after s after ≡ some (filter (λ e. slt after e.sequence) (window s))
  unfolding events_after
  events_after-eq-filter limit s after r =
      events_loop-eq-filter s after r.start_below (length s.events) 0 (omega arith)

  -- A ring does not depend on who subscribes, or on whether the stream is done.
  pub IsRing-subscribers :
      (limit : ℕ) (s : Stream D) (subscribers : List ℕ) (done : Bool)
      → IsRing limit s
      → IsRing limit (record s { subscribers = subscribers; done = done })
  unfolding window
  IsRing-subscribers limit s subscribers done r = record {
    fits = r.fits;
    start_below = r.start_below;
    unwrapped = r.unwrapped;
    numbered = r.numbered;
    counted = r.counted;
  }
