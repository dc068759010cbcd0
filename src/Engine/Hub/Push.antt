-- ===== src/Engine/Hub/Push.antt =====
-- What one `Publish` does to the ring: the window slides over the events.
use materialmind.Common.{
  ℕ, suc, ◌+◌, ◌-◌, ◌%◌, ◌^◌, ◌<◌, ◌≡◌, refl, String, some, Option, List, [], inl, inr, ◌∷◌, ◌++◌,
  arith, length, get_elem?, set, take, drop, append-nil, append_assoc, drop-eq-cons, drop-set,
  take-set, drop_all, take_all, length-append, sym, ◌∙◌, length-set, get_elem?-some, ap,
}
use native.Mathlib.Decide.{dec_lt}
use native.Mathlib.Nat.{mod-eq_of_lt, mod_self, mod-lt}
use native.Mathlib.Numerals.{add-one}
use materialmind.Engine.Hub.{StreamEvent, Stream, push_event}
use materialmind.Engine.Hub.Ring.{window, IsRing, Numbered, last, length-window}

-- The list after its first element is overwritten, as a ring that starts one further on.
overwrite-ring {ℓ} :
    {A : Type ℓ} (xs : List A) (i : ℕ) (v : A)
    → i < length xs
    → drop ((i + 1) % length xs) (set xs i v) ++ take ((i + 1) % length xs) (set xs i v)
      ≡ drop (suc i) xs ++ take i xs ++ v ∷ []
overwrite-ring xs i v h = elim (dec_lt (i + 1) (length xs)) [
  | yes p ↦ rw (mod-eq_of_lt p, add-one i, drop-set i xs v, take-set i xs v h, append_assoc)
  | no p ↦
      let end : i + 1 ≡ length xs = omega arith in
      let wrapped : (i + 1) % length xs ≡ 0 = ap (λ t. t % length xs) end ∙ mod_self (length xs) in
      rw (wrapped, drop_all (suc i) xs (omega arith), append-nil)
        (sym (take_all (suc i) (set xs i v) (omega (arith, length-set xs i v))) ∙ take-set i xs v h)
]

module _ {ℓ} {D : Type ℓ} where
  Numbered-append :
      (n : ℕ) (es : List (StreamEvent D)) (e : StreamEvent D)
      → Numbered n es
      → e.sequence ≡ n + length es + 1
      → Numbered n (es ++ e ∷ [])
  Numbered-append n [] e h q = (omega arith, tt)
  Numbered-append n (x ∷ es) e (hx, hes) q = (hx, Numbered-append (n + 1) es e hes (omega arith))

  -- The event that a push makes.
  abbrev pub next_event : Stream D → String → D → StreamEvent D
  next_event s kind payload = record {
    sequence = s.next_sequence + 1;
    kind = kind;
    payload = payload;
  }

  -- The stream after a push that had room, and after one that wrote over the oldest event.
  abbrev appended : Stream D → StreamEvent D → Stream D
  appended s e = record s { next_sequence = e.sequence; events = s.events ++ e ∷ [] }

  abbrev overwritten : Stream D → StreamEvent D → ℕ → Stream D
  overwritten s e dropped = record s {
    next_sequence = e.sequence;
    dropped_through = dropped;
    events = set s.events s.event_start e;
    event_start = (s.event_start + 1) % length s.events;
  }

  -- What a push promises: it does not panic, the window slides, and the ring stays a ring.
  abbrev pub Slides : ℕ → Stream D → StreamEvent D → Option (Stream D × StreamEvent D) → Type ℓ
  Slides limit s e result =
      (s' : Stream D) × (result ≡ some (s', e))
      × (window s' ≡ last limit (window s ++ e ∷ []))
      × IsRing limit s'
      × (s'.subscribers ≡ s.subscribers)
      × (s'.done ≡ s.done)
      × (s'.next_sequence ≡ e.sequence)

  window-appended :
      (s : Stream D) (e : StreamEvent D)
      → s.event_start ≡ 0
      → window (appended s e) ≡ window s ++ e ∷ []
  unfolding window
  window-appended s e start = simp (start, append-nil)

  window-overwritten :
      (s : Stream D) (e oldest : StreamEvent D)
      → get_elem? s.events s.event_start ≡ some oldest
      → s.event_start < length s.events
      → (rest : List (StreamEvent D)) × (window s ≡ oldest ∷ rest)
        × (window (overwritten s e oldest.sequence) ≡ rest ++ e ∷ [])
  unfolding window
  window-overwritten s e oldest at inside = (
    drop (suc s.event_start) s.events ++ take s.event_start s.events,
    rw (drop-eq-cons s.event_start s.events oldest at),
    overwrite-ring s.events s.event_start e inside,
  )

  window-appended-last :
      (limit : ℕ) (s : Stream D) (e : StreamEvent D)
      → IsRing limit s
      → length s.events < limit
      → window (appended s e) ≡ last limit (window s ++ e ∷ [])
  window-appended-last limit s e r room =
      let zero_start : s.event_start ≡ 0 = r.unwrapped room in
      let short : length (window s ++ e ∷ []) - limit ≡ 0 =
        omega (arith, length-append (window s) (e ∷ []), length-window s (omega arith)) in
      window-appended s e zero_start ∙ ap (λ n. drop n (window s ++ e ∷ [])) (sym short)

  appended-IsRing :
      (limit : ℕ) (s : Stream D) (e : StreamEvent D)
      → IsRing limit s
      → length s.events < limit
      → e.sequence ≡ s.next_sequence + 1
      → IsRing limit (appended s e)
  appended-IsRing limit s e r room q =
      let zero_start : s.event_start ≡ 0 = r.unwrapped room in
      record {
        fits = omega (arith, length-append s.events (e ∷ []));
        start_below = inl zero_start;
        unwrapped = λ _. zero_start;
        numbered = rw (window-appended s e zero_start) (
            Numbered-append s.dropped_through (window s) e r.numbered
              (omega (arith, length-window s (omega arith))));
        counted = omega (arith, length-append s.events (e ∷ []));
      }

  push_room :
      (limit : ℕ) (s : Stream D) (kind : String) (payload : D)
      → IsRing limit s
      → s.next_sequence + 1 < 2 ^ 63
      → length s.events < limit
      → Slides limit s (next_event s kind payload) (push_event limit s kind payload)
  unfolding push_event
  push_room limit s kind payload r small room = (
    appended s (next_event s kind payload),
    ground arith,
    window-appended-last limit s (next_event s kind payload) r room,
    appended-IsRing limit s (next_event s kind payload) r room refl,
    refl,
    refl,
    refl,
  )

  overwritten-IsRing :
      (limit : ℕ) (s : Stream D) (e oldest : StreamEvent D) (rest : List (StreamEvent D))
      → IsRing limit s
      → length s.events ≡ limit
      → s.event_start < length s.events
      → e.sequence ≡ s.next_sequence + 1
      → window s ≡ oldest ∷ rest
      → window (overwritten s e oldest.sequence) ≡ rest ++ e ∷ []
      → IsRing limit (overwritten s e oldest.sequence)
  overwritten-IsRing limit s e oldest rest r full inside q before after =
      let size : length s.events ≡ suc (length rest) =
        omega (arith, ap length before, length-window s (omega arith)) in
      let kept : Numbered s.dropped_through (oldest ∷ rest) = rw before at r.numbered in
      let moved : Numbered oldest.sequence rest = rw (kept.0) (kept.1) in
      record {
        fits = omega (arith, length-set s.events s.event_start e);
        start_below =
            inr
              (rw (length-set s.events s.event_start e) (mod-lt (s.event_start + 1) (omega arith)));
        unwrapped = λ h. absurd (omega (arith, length-set s.events s.event_start e));
        numbered = rw after (Numbered-append oldest.sequence rest e moved (omega arith));
        counted = omega (arith, length-set s.events s.event_start e);
      }

  window-overwritten-last :
      (limit : ℕ) (s : Stream D) (e oldest : StreamEvent D) (rest : List (StreamEvent D))
      → IsRing limit s
      → length s.events ≡ limit
      → s.event_start < length s.events
      → window s ≡ oldest ∷ rest
      → window (overwritten s e oldest.sequence) ≡ rest ++ e ∷ []
      → window (overwritten s e oldest.sequence) ≡ last limit (window s ++ e ∷ [])
  window-overwritten-last limit s e oldest rest r full inside before after =
      let size : length (oldest ∷ rest ++ e ∷ []) - limit ≡ 1 =
        omega
          (arith, length-append rest (e ∷ []), ap length before, length-window s (omega arith)) in
      rw (after, before, size)

  push_full :
      (limit : ℕ) (s : Stream D) (kind : String) (payload : D)
      → IsRing limit s
      → 0 < limit
      → s.next_sequence + 1 < 2 ^ 63
      → length s.events ≡ limit
      → Slides limit s (next_event s kind payload) (push_event limit s kind payload)
  unfolding push_event
  push_full limit s kind payload r pos small full =
      let e = next_event s kind payload in
      let inside : s.event_start < length s.events = omega arith in
      let (oldest, at) = get_elem?-some s.events s.event_start inside in
      let (rest, before, after) = window-overwritten s e oldest at inside in
      (
        overwritten s e oldest.sequence,
        ground arith,
        window-overwritten-last limit s e oldest rest r full inside before after,
        overwritten-IsRing limit s e oldest rest r full inside refl before after,
        refl,
        refl,
        refl,
      )

  -- A push to a ring never panics. The ring's window becomes the last `limit` events of the window
  -- and the new event, which carries the next number; the ring stays a ring.
  pub push_event-Slides :
      (limit : ℕ) (s : Stream D) (kind : String) (payload : D)
      → IsRing limit s
      → 0 < limit
      → s.next_sequence + 1 < 2 ^ 63
      → Slides limit s (next_event s kind payload) (push_event limit s kind payload)
  push_event-Slides limit s kind payload r pos small = elim (dec_lt (length s.events) limit) [
    | yes room ↦ push_room limit s kind payload r small room
    | no full ↦ push_full limit s kind payload r pos small (omega arith)
  ]
