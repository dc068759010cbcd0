-- ===== src/Engine/Hub/Lost.antt =====
-- Which events of a run are lost, and what a subscriber is told of it.
use native.Mathlib.Decide.{dec_lt}
use materialmind.Common.{
  ℕ, zero, suc, ◌+◌, ◌-◌, ◌%◌, ◌≤◌, ◌<◌, ◌^◌, ◌≡◌, ◌≢◌, ◌↔◌, ◌∙◌, sym, ap, true, some, List, [],
  ◌∷◌, String, arith, length, get_elem?, take, drop, get_elem?-append_left, get_elem?-append_right,
  get_elem?-drop, get_elem?-take, get_elem?-some, length-drop,
}
use materialmind.Common.Int64.{slt_nonneg}
use materialmind.Engine.Hub.{
  StreamEvent, Stream, Hub, new_hub_with_limits, find_stream, is_truncated,
}
use materialmind.Engine.Hub.Ring.{IsRing, Numbered, window, length-window, get_elem?-window}
use mathlib.Core.Path.{subst}
use materialmind.Engine.Hub.Invariant.{get_elem?-lt, IsConsistent}
use materialmind.Engine.Hub.Safety.{find_stream-at}
use materialmind.Engine.Hub.Operations.{Operation, run, run-new_hub_never_panics}

module _ {ℓ} {D : Type ℓ} where
  -- A number of the run after `after` that no event of the ring has any more.
  abbrev pub IsLost : Stream D → ℕ → ℕ → Type ℓ
  IsLost s after k =
      (after < k)
      × (k ≤ s.next_sequence)
      × ((i : ℕ) (e : StreamEvent D) → get_elem? s.events i ≡ some e → e.sequence ≢ k)

  Numbered-at :
      (n i : ℕ) (es : List (StreamEvent D)) (e : StreamEvent D)
      → Numbered n es
      → get_elem? es i ≡ some e
      → e.sequence ≡ n + i + 1
  Numbered-at n i [] e h at = absurd (ground arith)
  Numbered-at n zero (x ∷ es) e (here, rest) at =
      let same : x ≡ e = ground arith in ap StreamEvent.sequence (sym same) ∙ here ∙ omega arith
  Numbered-at n (suc i) (x ∷ es) e (here, rest) at =
      omega (arith, Numbered-at (n + 1) i es e rest at)

  -- Every event of the ring is in its window.
  in-window :
      (s : Stream D) (i : ℕ) (e : StreamEvent D)
      → s.event_start ≤ length s.events
      → get_elem? s.events i ≡ some e
      → (o : ℕ) × (get_elem? (window s) o ≡ some e)
  unfolding window
  in-window s i e fits at =
      let start : ℕ = s.event_start in
      let old : List (StreamEvent D) = drop start s.events in
      let new : List (StreamEvent D) = take start s.events in
      elim (dec_lt i start) [
        | yes before ↦ (
          length old + i,
          get_elem?-append_right old new (length old + i) (omega arith)
              ∙ ap (get_elem? new) (omega arith)
              ∙ get_elem?-take start s.events i before
              ∙ at,
        )
        | no behind ↦
            let inside : i < length s.events = get_elem?-lt s.events i e at in
            (
              i - start,
              get_elem?-append_left old new (i - start) (omega (arith, length-drop start s.events))
                  ∙ get_elem?-drop start s.events (i - start)
                  ∙ ap (get_elem? s.events) (omega arith)
                  ∙ at,
            )
      ]

  -- A number of the run that no event of the ring has is not one of the ring's.
  IsLost-dropped :
      (limit : ℕ) (s : Stream D) (after k : ℕ)
      → IsRing limit s
      → IsLost s after k
      → k ≤ s.dropped_through
  IsLost-dropped limit s after k r (newer, reached, gone) = elim (dec_lt s.dropped_through k) [
    | no below ↦ omega arith
    | yes above ↦
        let o : ℕ = k - s.dropped_through - 1 in
        let fits : s.event_start ≤ length s.events = omega (arith, r.start_below) in
        let inside : o < length s.events = omega (arith, r.counted) in
        let (e, there) = get_elem?-some (window s) o (omega (arith, length-window s fits)) in
        let number : e.sequence ≡ k =
          Numbered-at s.dropped_through o (window s) e r.numbered there ∙ omega arith in
        absurd (
          gone ((s.event_start + o) % length s.events) e
            (get_elem?-window s o r.start_below inside ∙ there) number)
  ]

  dropped-IsLost :
      (limit : ℕ) (s : Stream D) (after : ℕ)
      → IsRing limit s
      → after < s.dropped_through
      → IsLost s after (after + 1)
  dropped-IsLost limit s after r below = (
    omega arith,
    omega (arith, r.counted),
    λ i e at same.
        let (o, there) = in-window s i e (omega (arith, r.start_below)) at in
        omega (arith, same, Numbered-at s.dropped_through o (window s) e r.numbered there),
  )

  -- In a hub that fewer than 2^63 operations made of a new one: a subscriber that has seen events
  -- of a run up to a number, from 1 to 2^63 - 1, is told `Truncated` exactly when a later number of
  -- the run has no event in the run's stream any more.
  pub is_truncated_iff :
      (limit buffer : ℕ) (os : List (Operation D)) (h : Hub D) (run_id : String) (p : ℕ)
      (s : Stream D) (after : ℕ)
      → length os < 2 ^ 63
      → run os (new_hub_with_limits limit buffer) ≡ some h
      → find_stream h run_id ≡ some (p, s)
      → 0 < after
      → after < 2 ^ 63
      → (is_truncated s after ≡ true) ↔ ((k : ℕ) × IsLost s after k)
  unfolding is_truncated
  is_truncated_iff limit buffer os h run_id p s after short ran found seen bounded =
      let (h', ran', inv) = run-new_hub_never_panics limit buffer os short in
      let same : h' ≡ h = ground arith in
      let inv' : IsConsistent (length os) h = subst (IsConsistent (length os)) same inv in
      let at = find_stream-at h run_id p s found in
      let r : IsRing h.event_limit s = inv'.rings p s at in
      let counted = r.counted in
      let small : s.next_sequence ≤ length os = inv'.numbers p s at in
      (
        (λ t. (
          after + 1,
          dropped-IsLost h.event_limit s after r
              (ground (arith, slt_nonneg 0 after, slt_nonneg after s.dropped_through)),
        )),
        (λ (k, lost).
            let below = IsLost-dropped h.event_limit s after k r lost in
            let newer : after < k = lost.0 in
            ground (arith, slt_nonneg 0 after, slt_nonneg after s.dropped_through)),
      )
