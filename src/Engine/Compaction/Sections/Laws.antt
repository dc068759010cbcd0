-- ===== src/Engine/Compaction/Sections/Laws.antt =====
-- Nothing of a section is lost or sent twice, and no fragment is too long.
use materialmind.Common.{
  ℕ, zero, suc, ◌≤◌, ◌<◌, ◌≡◌, refl, ap, min, true, ◌&&◌, ◌||◌, not, some, List, [], ◌∷◌, ◌++◌, ◌⊎◌,
  inl, inr, arith, if◌then◌else◌, ltb, leb, ◌==◌, length, take, drop, length-take, length-drop,
  take-append-drop, take_all, sym, Option-cases, Bool-cases, All, append-nil,
}
use materialmind.Engine.Compaction.Sections.{
  Bytes, starts_rune, back_to_rune, last_newline, after_newline, fragment_end, split_loop,
  put_first, split_context_section, truncate_context_fragment,
}

back_to_rune-le : (s : Bytes) (e : ℕ) → back_to_rune s e ≤ e
unfolding back_to_rune
back_to_rune-le s zero = omega arith
back_to_rune-le s (suc e) = ground (arith, back_to_rune-le s e)

last_newline-lt : (s : Bytes) (i : ℕ) → last_newline s ≡ some i → i < length s
unfolding last_newline
last_newline-lt [] i h = cc
last_newline-lt (b ∷ s) i h = elim (Option-cases (last_newline s)) [
  | inl e ↦ ground arith
  | inr (j, e) ↦ ground (arith, last_newline-lt s j e)
]

after_newline_bounds :
    (s : Bytes) (end : ℕ) → 0 < end → (0 < after_newline s end) × (after_newline s end ≤ end)
unfolding after_newline
after_newline_bounds s end pos = elim (Option-cases (last_newline (take end s))) [
  | inl e ↦ ground arith
  | inr (i, e) ↦
      let inside : i < end = omega (arith, last_newline-lt (take end s) i e, length-take end s) in
      ground arith
]

-- A fragment has at least one byte and at most `max_chars`.
fragment_end_bounds :
    (s : Bytes) (max_chars : ℕ)
    → 0 < max_chars
    → 0 < length s
    → (0 < fragment_end s max_chars) × (fragment_end s max_chars ≤ max_chars)
unfolding fragment_end
fragment_end_bounds s max_chars pos nonempty =
    let limit : ℕ = min max_chars (length s) in
    let moved : ℕ = back_to_rune s limit in
    let first : ℕ = if moved == 0 then limit else moved in
    let bounds : (0 < first) × (first ≤ max_chars) = ground (arith, back_to_rune-le s limit) in
    let (positive, short) = after_newline_bounds s first (bounds.0) in
    (positive, omega (arith, short, bounds.1))

-- The fragments of a text, put together.
abbrev pub join : List Bytes → Bytes
join [] = []
join (f ∷ fs) = f ++ join fs

-- A fragment that is not empty and not longer than the limit.
abbrev pub IsFragment : ℕ → Bytes → Type 0
IsFragment max_chars f = (0 < length f) × (length f ≤ max_chars)

split_loop-nil : (fuel max_chars : ℕ) → split_loop fuel [] max_chars ≡ some []
unfolding split_loop
split_loop-nil zero max_chars = refl
split_loop-nil (suc fuel) max_chars = refl

split_loop-cons :
    (fuel b : ℕ) (s : Bytes) (max_chars : ℕ) (rest : List Bytes)
    → split_loop fuel (drop (fragment_end (b ∷ s) max_chars) (b ∷ s)) max_chars ≡ some rest
    → split_loop (suc fuel) (b ∷ s) max_chars
      ≡ some (take (fragment_end (b ∷ s) max_chars) (b ∷ s) ∷ rest)
unfolding split_loop
split_loop-cons fuel b s max_chars rest h =
    ap (put_first (take (fragment_end (b ∷ s) max_chars) (b ∷ s))) h

split_loop-join :
    (fuel : ℕ) (s : Bytes) (max_chars : ℕ)
    → 0 < max_chars
    → length s ≤ fuel
    → (fs : List Bytes) × (split_loop fuel s max_chars ≡ some fs)
      × (join fs ≡ s)
      × All (IsFragment max_chars) fs
unfolding split_loop
split_loop-join fuel [] max_chars pos enough = ([], split_loop-nil fuel max_chars, refl, tt)
split_loop-join zero (b ∷ s) max_chars pos enough = elim enough [ ]
split_loop-join (suc fuel) (b ∷ s) max_chars pos enough =
    let end = fragment_end (b ∷ s) max_chars in
    let (positive, short) = fragment_end_bounds (b ∷ s) max_chars pos (omega arith) in
    let (fs, split, joined, all_short) =
      split_loop-join fuel (drop end (b ∷ s)) max_chars pos
        (omega (arith, length-drop end (b ∷ s))) in
    (
      take end (b ∷ s) ∷ fs,
      split_loop-cons fuel b s max_chars fs split,
      rw joined (take-append-drop end (b ∷ s)),
      ((omega (arith, length-take end (b ∷ s)), omega (arith, length-take end (b ∷ s))), all_short),
    )

-- Splitting a section that is not empty by a limit that is not 0 ends, and the fragments, put
-- together, are the section; none of them is empty or longer than the limit.
pub split-join :
    (s : Bytes) (max_chars : ℕ)
    → 0 < max_chars
    → 0 < length s
    → (fs : List Bytes) × (split_context_section s max_chars ≡ some fs)
      × (join fs ≡ s)
      × All (IsFragment max_chars) fs
unfolding split_context_section
split-join s max_chars pos nonempty =
    elim (Bool-cases (max_chars == 0 || leb (length s) max_chars)) [
      | inl whole ↦ (s ∷ [], rw whole refl, append-nil s, ((nonempty, ground arith), tt))
      | inr long ↦
          let (fs, split, joined, all_short) =
            split_loop-join (length s) s max_chars pos (omega arith) in
          (fs, rw long split, joined, all_short)
    ]

back_to_rune_boundary :
    (s : Bytes) (e : ℕ)
    → (back_to_rune s e ≡ 0)
      ⊎ (length s ≤ back_to_rune s e)
      ⊎ (starts_rune s (back_to_rune s e) ≡ true)
unfolding back_to_rune
back_to_rune_boundary s zero = inl refl
back_to_rune_boundary s (suc e) =
    elim (Bool-cases (ltb (suc e) (length s) && not (starts_rune s (suc e)))) [
      | inl inner ↦ rw inner (back_to_rune_boundary s e)
      | inr outer ↦ rw outer (elim (Bool-cases (starts_rune s (suc e))) [
        | inl starts ↦ inr (inr starts)
        | inr inside ↦ inr (inl (ground arith))
      ])
    ]

-- A truncated fragment is a first part of it, within a limit that is not 0, and ends before a byte
-- that starts a character, unless it is empty or whole.
pub truncate_prefix :
    (s : Bytes) (max_chars : ℕ)
    → 0 < max_chars
    → (n : ℕ) × (truncate_context_fragment s max_chars ≡ take n s)
      × (length (truncate_context_fragment s max_chars) ≤ max_chars)
      × ((n ≡ 0) ⊎ (length s ≤ n) ⊎ (starts_rune s n ≡ true))
unfolding truncate_context_fragment
truncate_prefix s max_chars pos = elim (Bool-cases (max_chars == 0 || leb (length s) max_chars)) [
  | inl whole ↦ (
    length s,
    rw whole (sym (take_all (length s) s (omega arith))),
    rw whole (ground arith),
    inr (inl (omega arith)),
  )
  | inr long ↦
      let n = back_to_rune s max_chars in
      (
        n,
        rw long,
        rw long (omega (arith, length-take n s, back_to_rune-le s max_chars)),
        back_to_rune_boundary s max_chars,
      )
]
