-- ===== src/Engine/Compaction/Sections.antt =====
-- Cutting rendered history into fragments for the summarizer: `splitContextSection` and
-- `truncateContextFragment`, over the bytes of a text.
pub mod Laws
use materialmind.Common.{
  ℕ, zero, suc, ◌+◌, ◌/◌, min, Bool, true, false, ◌&&◌, ◌||◌, not, Option, none, some, List, [],
  ◌∷◌, if◌then◌else◌, ltb, leb, ◌==◌, length, get_elem?, take, drop,
}

abbrev pub Bytes : Type 0
Bytes = List ℕ

-- `utf8.RuneStart`
abbrev pub rune_start : ℕ → Bool
rune_start b = not (leb 0x80 b && ltb b 0xc0)

-- `utf8.RuneStart(s[i])` of an index that is inside
abbrev pub starts_rune : Bytes → ℕ → Bool
starts_rune s i = elim (get_elem? s i) [ none ↦ true | some b ↦ rune_start b ]

-- The loop that moves `end` back to the start of a character.
unfoldable pub back_to_rune : Bytes → ℕ → ℕ
back_to_rune s zero = 0
back_to_rune s (suc e) =
    let earlier = back_to_rune s e in
    if ltb (suc e) (length s) && not (starts_rune s (suc e)) then earlier else suc e

-- `strings.LastIndexByte(s, '\n')`, with `none` for -1
unfoldable pub last_newline : Bytes → Option ℕ
last_newline [] = none
last_newline (b ∷ s) = elim (last_newline s) [
  | some i ↦ some (suc i)
  | none ↦ if b == 10 then some 0 else none
]

-- A fragment ends behind its last line break, if that is not in its first half.
unfoldable pub after_newline : Bytes → ℕ → ℕ
unfolding last_newline
after_newline section end = elim (last_newline (take end section)) [
  | none ↦ end
  | some newline ↦ if leb (end / 2) newline then newline + 1 else end
]

-- The length of the next fragment of a section that is not empty.
unfoldable pub fragment_end : Bytes → ℕ → ℕ
fragment_end section max_chars =
    let limit = min max_chars (length section) in
    let moved = back_to_rune section limit in
    after_newline section (if moved == 0 then limit else moved)

abbrev pub put_first : Bytes → Option (List Bytes) → Option (List Bytes)
put_first fragment none = none
put_first fragment (some rest) = some (fragment ∷ rest)

-- The loop of `splitContextSection`, `none` if it would not end within the fuel.
unfoldable pub split_loop : ℕ → Bytes → ℕ → Option (List Bytes)
split_loop fuel [] max_chars = some []
split_loop zero (b ∷ section) max_chars = none
split_loop (suc fuel) (b ∷ section) max_chars =
    let end = fragment_end (b ∷ section) max_chars in
    put_first (take end (b ∷ section)) (split_loop fuel (drop end (b ∷ section)) max_chars)

-- `splitContextSection`; a `max_chars` that is not positive is 0 here
unfoldable pub split_context_section : Bytes → ℕ → Option (List Bytes)
unfolding split_loop
split_context_section section max_chars =
    if max_chars == 0 || leb (length section) max_chars
    then some (section ∷ [])
    else split_loop (length section) section max_chars

-- `truncateContextFragment`
unfoldable pub truncate_context_fragment : Bytes → ℕ → Bytes
truncate_context_fragment fragment max_chars =
    if max_chars == 0 || leb (length fragment) max_chars
    then fragment
    else take (back_to_rune fragment max_chars) fragment
