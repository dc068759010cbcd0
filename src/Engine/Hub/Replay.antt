-- ===== src/Engine/Hub/Replay.antt =====
-- What a replay holds.
use native.Mathlib.Decide.{dec_lt}
use materialmind.Common.{
  ℕ, ◌+◌, ◌-◌, ◌≤◌, ◌<◌, ◌^◌, ◌≡◌, refl, false, some, List, [], ◌∷◌, arith, length, filter,
}
use materialmind.Common.Int64.{slt, slt_nonneg}
use materialmind.Engine.Hub.{StreamEvent, Stream, events_after}
use materialmind.Engine.Hub.Ring.{IsRing, Numbered, window, length-window, events_after-eq-filter}

module _ {ℓ} {D : Type ℓ} where
  abbrev newer : ℕ → List (StreamEvent D) → List (StreamEvent D)
  newer after = filter (λ e. slt after e.sequence)

  -- All events are newer than `after`.
  newer_all :
      (after n : ℕ) (es : List (StreamEvent D))
      → Numbered n es
      → after ≤ n
      → n + length es < 2 ^ 63
      → newer after es ≡ es
  newer_all after n [] h le small = refl
  newer_all after n (e ∷ es) (here, rest) le small =
      ground (arith, newer_all after (n + 1) es rest, slt_nonneg after e.sequence)

  -- Of consecutive events, those newer than `after` are again consecutive, from `after` on.
  newer-Numbered :
      (after n : ℕ) (es : List (StreamEvent D))
      → Numbered n es
      → n ≤ after
      → after ≤ n + length es
      → n + length es < 2 ^ 63
      → Numbered after (newer after es) × (length (newer after es) ≡ n + length es - after)
  newer-Numbered after n [] h le ge small = (tt, omega arith)
  newer-Numbered after n (e ∷ es) (here, rest) le ge small = elim (dec_lt n after) [
    | yes older ↦
        let skipped : slt after e.sequence ≡ false = ground (arith, slt_nonneg after e.sequence) in
        let (numbered, count) =
          newer-Numbered after (n + 1) es rest (omega arith) (omega arith) (omega arith) in
        rw skipped (numbered, omega (arith, count))
    | no newest ↦
        let same : n ≡ after = omega arith in
        rw (newer_all after n (e ∷ es) (here, rest) (omega arith) small)
          (rw same at (let all : Numbered n (e ∷ es) = (here, rest) in all), omega arith)
  ]

  -- Of a ring whose event numbers are below 2^63: a replay of what is newer than `after`, where
  -- `after` is one of the run's numbers and nothing newer is lost, holds every newer event, in
  -- order, with no gap up to the newest.
  pub replay_complete :
      (limit : ℕ) (s : Stream D) (after : ℕ)
      → IsRing limit s
      → s.next_sequence < 2 ^ 63
      → s.dropped_through ≤ after
      → after ≤ s.next_sequence
      → (replay : List (StreamEvent D)) × (events_after s after ≡ some replay)
        × Numbered after replay
        × (length replay ≡ s.next_sequence - after)
  replay_complete limit s after r small kept reached =
      let size = length-window s (omega (arith, r.start_below)) in
      let (numbered, count) =
        newer-Numbered after s.dropped_through (window s) r.numbered kept
          (omega (arith, size, r.counted)) (omega (arith, size, r.counted)) in
      (
        newer after (window s),
        events_after-eq-filter limit s after r,
        numbered,
        omega (arith, count, size, r.counted),
      )
