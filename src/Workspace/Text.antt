-- ===== src/Workspace/Text.antt =====
-- Which bytes are text that may be edited: `validEditText`.
use materialmind.Common.{
  ℕ, ◌-◌, Bool, true, false, ◌&&◌, not, List, [], ◌∷◌, if◌then◌else◌, ltb, leb, ◌==◌, any,
}

abbrev pub between : ℕ → ℕ → ℕ → Bool
between low high b = leb low b && leb b high

-- How many bytes may follow a first byte, and what the first of them may be.
abbrev pub is_continuation : ℕ → Bool
is_continuation b = between 0x80 0xbf b

abbrev pub second_of_three : ℕ → ℕ → Bool
second_of_three b c =
    if b == 0xe0
    then between 0xa0 0xbf c
    else if b == 0xed
    then between 0x80 0x9f c
    else is_continuation c

abbrev pub second_of_four : ℕ → ℕ → Bool
second_of_four b c =
    if b == 0xf0
    then between 0x90 0xbf c
    else if b == 0xf4
    then between 0x80 0x8f c
    else is_continuation c

-- `utf8.ValidString`: `missing` bytes of a character are still to come, and the next one is
-- checked by `next`.
abbrev pub valid_from : ℕ → (ℕ → Bool) → List ℕ → Bool
valid_from missing next [] = missing == 0
valid_from missing next (b ∷ s) = elim (missing == 0) [
  | false ↦ next b && valid_from (missing - 1) is_continuation s
  | true ↦ elim (ltb b 0x80) [
    | true ↦ valid_from 0 is_continuation s
    | false ↦ elim (between 0xc2 0xdf b) [
      | true ↦ valid_from 1 is_continuation s
      | false ↦ elim (between 0xe0 0xef b) [
        | true ↦ valid_from 2 (second_of_three b) s
        | false ↦ between 0xf0 0xf4 b && valid_from 3 (second_of_four b) s
      ]
    ]
  ]
]

-- `validEditText`
unfoldable pub valid_edit_text : List ℕ → Bool
valid_edit_text value = valid_from 0 is_continuation value && not (any (λ b. b == 0) value)
