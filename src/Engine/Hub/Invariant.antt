-- ===== src/Engine/Hub/Invariant.antt =====
-- What holds of a hub between two operations: every stream's events form a ring, and the channels
-- that a stream subscribes are open, distinct, and subscribed by no other stream.
use native.Mathlib.Nat.{le_trans}
use materialmind.Common.{
  ℕ, zero, suc, ◌≤◌, ◌<◌, ◌≡◌, sym, ap, ◌∙◌, ◌⊎◌, inl, inr, false, none, some, String, List, [],
  ◌∷◌, ◌++◌, arith, length, get_elem?, set,
}
use materialmind.Engine.Hub.{Channel, Stream, Hub}
use materialmind.Engine.Hub.Ring.{IsRing}

abbrev pub In : ℕ → List ℕ → Type 0
In j [] = ⊥
In j (i ∷ is) = (j ≡ i) ⊎ In j is

abbrev pub Nodup : List ℕ → Type 0
Nodup [] = Unit
Nodup (i ∷ is) = (¬ In i is) × Nodup is

pub get_elem?-lt {ℓ} :
    {A : Type ℓ} (xs : List A) (i : ℕ) (x : A) → get_elem? xs i ≡ some x → i < length xs
get_elem?-lt [] i x h = ground arith
get_elem?-lt (y ∷ xs) zero x h = omega arith
get_elem?-lt (y ∷ xs) (suc i) x h = omega (arith, get_elem?-lt xs i x h)

-- What stands at an index of a list after a write: the new value, or what stood there.
pub get_elem?-set-cases {ℓ} :
    {A : Type ℓ} (xs : List A) (i j : ℕ) (v x : A)
    → get_elem? (set xs i v) j ≡ some x
    → ((j ≡ i) × (x ≡ v)) ⊎ ((¬ (i ≡ j)) × (get_elem? xs j ≡ some x))
get_elem?-set-cases [] i j v x h = ground arith
get_elem?-set-cases (y ∷ xs) zero zero v x h = ground arith
get_elem?-set-cases (y ∷ xs) zero (suc j) v x h = inr (omega arith, h)
get_elem?-set-cases (y ∷ xs) (suc i) zero v x h = inr (omega arith, h)
get_elem?-set-cases (y ∷ xs) (suc i) (suc j) v x h = elim (get_elem?-set-cases xs i j v x h) [
  | inl (e, f) ↦ inl (ap suc e, f)
  | inr (e, f) ↦ inr (omega arith, f)
]

-- What stands at an index of a list after one more element: an old one, or the new one.
pub get_elem?-append-cases {ℓ} :
    {A : Type ℓ} (xs : List A) (j : ℕ) (v x : A)
    → get_elem? (xs ++ v ∷ []) j ≡ some x
    → (get_elem? xs j ≡ some x) ⊎ ((j ≡ length xs) × (x ≡ v))
get_elem?-append-cases [] zero v x h = ground arith
get_elem?-append-cases [] (suc j) v x h = ground arith
get_elem?-append-cases (y ∷ xs) zero v x h = inl h
get_elem?-append-cases (y ∷ xs) (suc j) v x h = elim (get_elem?-append-cases xs j v x h) [
  | inl old ↦ inl old
  | inr (e, f) ↦ inr (ap suc e, f)
]

module _ {ℓ} {D : Type ℓ} where
  abbrev pub IsOpen : List (Channel D) → ℕ → Type ℓ
  IsOpen channels j = (c : Channel D) × (get_elem? channels j ≡ some c) × (c.closed ≡ false)

  -- `n` bounds the numbers of all events so far.
  pub record IsConsistent (n : ℕ) (h : Hub D) : Type ℓ where
    pub limit_pos : 0 < h.event_limit
    pub rings : (p : ℕ) (s : Stream D) → get_elem? h.heap p ≡ some s → IsRing h.event_limit s
    pub numbers : (p : ℕ) (s : Stream D) → get_elem? h.heap p ≡ some s → s.next_sequence ≤ n
    pub subscribers_open :
        (p : ℕ) (s : Stream D)
        → get_elem? h.heap p ≡ some s
        → (j : ℕ) → In j s.subscribers
        → IsOpen h.channels j
    pub subscribers_nodup :
        (p : ℕ) (s : Stream D) → get_elem? h.heap p ≡ some s → Nodup s.subscribers
    pub subscribers_apart :
        (p q : ℕ) (s t : Stream D) (j : ℕ)
        → get_elem? h.heap p ≡ some s
        → get_elem? h.heap q ≡ some t
        → In j s.subscribers
        → In j t.subscribers
        → p ≡ q

  -- A stream `s` becomes `s'` while the channels become `channels`: no channel but those of `s` and
  -- those that are new is touched.
  pub record IsUpdate (n : ℕ) (h : Hub D) (s s' : Stream D) (channels : List (Channel D))
      : Type ℓ where
    pub ring : IsRing h.event_limit s'
    pub number : s'.next_sequence ≤ n
    pub nodup : Nodup s'.subscribers
    pub from_old :
        (j : ℕ) → In j s'.subscribers → In j s.subscribers ⊎ (get_elem? h.channels j ≡ none)
    pub still_open : (j : ℕ) → In j s'.subscribers → IsOpen channels j
    pub others_kept :
        (j : ℕ) (c : Channel D)
        → ¬ In j s.subscribers
        → get_elem? h.channels j ≡ some c
        → get_elem? channels j ≡ some c

  module _ {n n' : ℕ} {h : Hub D} (grows : n ≤ n') (inv : IsConsistent n h) (p : ℕ)
      (s s' : Stream D) (at : get_elem? h.heap p ≡ some s) {channels : List (Channel D)}
      (up : IsUpdate n' h s s' channels) where
    -- A subscriber of another stream is no subscriber of the new one.
    not_shared :
        (q : ℕ) (t : Stream D) (j : ℕ)
        → ¬ (p ≡ q)
        → get_elem? h.heap q ≡ some t
        → In j t.subscribers
        → ¬ In j s'.subscribers
    not_shared q t j ne atq jt js = elim (up.from_old j js) [
      | inl old ↦ ne (inv.subscribers_apart p q s t j at atq old jt)
      | inr fresh ↦ let (c, there, _) = inv.subscribers_open q t atq j jt in cc
    ]

    kept-IsOpen :
        (q : ℕ) (t : Stream D) (j : ℕ)
        → ¬ (p ≡ q)
        → get_elem? h.heap q ≡ some t
        → In j t.subscribers
        → IsOpen channels j
    kept-IsOpen q t j ne atq jt =
        let (c, there, open_c) = inv.subscribers_open q t atq j jt in
        (
          c,
          up.others_kept j c (λ js. ne (inv.subscribers_apart p q s t j at atq js jt)) there,
          open_c,
        )

    pub update-IsConsistent :
        IsConsistent n' (record h { heap = set h.heap p s'; channels = channels })
    update-IsConsistent = record {
      limit_pos = inv.limit_pos;
      rings = λ q t atq. elim (get_elem?-set-cases h.heap p q s' t atq) [
        | inl (_, e) ↦ rw e up.ring
        | inr (_, old) ↦ inv.rings q t old
      ];
      numbers = λ q t atq. elim (get_elem?-set-cases h.heap p q s' t atq) [
        | inl (_, e) ↦ rw e up.number
        | inr (_, old) ↦ le_trans (inv.numbers q t old) grows
      ];
      subscribers_open = λ q t atq j jt. elim (get_elem?-set-cases h.heap p q s' t atq) [
        | inl (_, e) ↦ up.still_open j (rw e at jt)
        | inr (ne, old) ↦ kept-IsOpen q t j ne old jt
      ];
      subscribers_nodup = λ q t atq. elim (get_elem?-set-cases h.heap p q s' t atq) [
        | inl (_, e) ↦ rw e up.nodup
        | inr (_, old) ↦ inv.subscribers_nodup q t old
      ];
      subscribers_apart = λ q r t u j atq atr jt ju.
          elim (get_elem?-set-cases h.heap p q s' t atq) [
            | inl (e, f) ↦ (elim (get_elem?-set-cases h.heap p r s' u atr) [
              | inl (e', _) ↦ e ∙ sym e'
              | inr (ne, old) ↦ absurd (not_shared r u j ne old ju (rw f at jt))
            ])
            | inr (ne, old) ↦ (elim (get_elem?-set-cases h.heap p r s' u atr) [
              | inl (_, f) ↦ absurd (not_shared q t j ne old jt (rw f at ju))
              | inr (_, old') ↦ inv.subscribers_apart q r t u j old old' jt ju
            ])
          ];
    }

  -- The channels change, and the subscribed ones stay open.
  pub channels-IsConsistent :
      {n : ℕ} {h : Hub D} (channels : List (Channel D))
      → IsConsistent n h
      → ((j : ℕ) → IsOpen h.channels j → IsOpen channels j)
      → IsConsistent n (record h { channels = channels })
  channels-IsConsistent channels inv keep = record {
    limit_pos = inv.limit_pos;
    rings = inv.rings;
    numbers = inv.numbers;
    subscribers_open = λ p s at j js. keep j (inv.subscribers_open p s at j js);
    subscribers_nodup = inv.subscribers_nodup;
    subscribers_apart = inv.subscribers_apart;
  }

  -- The names of the streams play no part.
  pub streams-IsConsistent :
      {n : ℕ} {h : Hub D} (streams : List (String × ℕ))
      → IsConsistent n h
      → IsConsistent n (record h { streams = streams })
  streams-IsConsistent streams inv = record {
    limit_pos = inv.limit_pos;
    rings = inv.rings;
    numbers = inv.numbers;
    subscribers_open = inv.subscribers_open;
    subscribers_nodup = inv.subscribers_nodup;
    subscribers_apart = inv.subscribers_apart;
  }
